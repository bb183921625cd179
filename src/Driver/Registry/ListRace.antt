-- ===== src/Driver/Registry/ListRace.antt =====
-- `ListOptedInProcesses`, which counts the processes before it has the mutex and lists them under it,
-- with another thread in between.
use project_ram_crisis.Prelude.{
  ℕ, ◌+◌, ◌*◌, ◌-◌, ◌/◌, ◌≤◌, ◌<◌, ◌≡◌, refl, sym, ap, ◌∙◌, inl, inr, subst, Bool, [], none, some,
  length, arith, if◌then◌else◌, ltb, le→ltb, u32_mod,
}
use mathlib.Core.Option.{some-injective}
use project_ram_crisis.Driver.Kernel.{Kernel}
use project_ram_crisis.Driver.Data.{Status, success, buffer_too_small}
use project_ram_crisis.Driver.State.{DriverState, Action, pure, acquire, release, ◌>>=◌, ◌>>◌}
use project_ram_crisis.Driver.State.Lock.{IsFree, lock, unlock-lock, guarded_map}
use project_ram_crisis.Driver.Registry.{
  process_ids, register_opt_in_process, list_opted_in_processes, list_reply, ListReply,
}
use project_ram_crisis.Driver.Registry.Laws.{IsAlone, HasAnother, register_opt_in_process-Joins}
use project_ram_crisis.Driver.Registry.Listing.{take_all, total, total-ids}

module _ (k : Kernel) where
  -- The call behind its first line, which read `counted` as the number of processes.
  unfoldable pub list_counted : ℕ → ℕ → Action k ListReply
  list_counted output_length counted s =
      if ltb output_length 8
      then some
          (record { status = buffer_too_small; information = 8; count = none; listed = [] }, s)
      else (do
        acquire
        ids ← (λ t. some (process_ids k t, t))
        release
        pure (list_reply k output_length counted ids))
          s

  -- With no other thread in between it is the call.
  list_counted-alone :
      (output_length : ℕ) (s : DriverState k)
      → list_counted output_length (total k s) s ≡ list_opted_in_processes k output_length s
  unfolding list_counted list_opted_in_processes
  list_counted-alone output_length s = refl

  list_counted-full :
      (output_length counted : ℕ) (t : DriverState k)
      → IsFree t
      → 8 ≤ output_length
      → list_counted output_length counted t
        ≡ some (list_reply k output_length counted (process_ids k t), t)
  unfolding list_counted
  list_counted-full output_length counted t free room = rw (le→ltb output_length 8 room) (
      guarded_map (λ u. some (process_ids k u, u)) (list_reply k output_length counted) t (lock t)
        (process_ids k t) free refl refl
      ∙ ap (λ u. some (list_reply k output_length counted (process_ids k t), u))
          (unlock-lock t free))

  -- From a state with the mutex free, no other process in the table than this one, and fewer than
  -- 2 ^ 32 entries, a listing that has counted the entries, with another thread that opts this
  -- process in before the listing takes the mutex, and with a buffer for all, lists one entry more
  -- than it counts, and its length is that of before. Without the other thread, what follows the
  -- count is the rest of the call.
  pub list_counted-misses :
      (output_length process_id : ℕ) (room : Bool) (s t : DriverState k)
      → IsAlone k process_id s
      → length (process_ids k s) < u32_mod
      → register_opt_in_process k room process_id s ≡ some (success, t)
      → 8 + length (process_ids k t) * 8 ≤ output_length
      → (reply : ListReply) × (list_counted output_length (total k s) t ≡ some (reply, t))
        × (reply.count ≡ some (length (process_ids k s)))
        × (reply.information ≡ 8 + length (process_ids k s) * 8)
        × (reply.listed ≡ process_ids k t)
        × (length reply.listed ≡ length (process_ids k s) + 1)
        × (list_counted output_length (total k s) s ≡ list_opted_in_processes k output_length s)
  list_counted-misses output_length process_id room s t alone few joins fits =
      let (status, u, run, outcome) = register_opt_in_process-Joins k room process_id s alone in
      let same : u ≡ t =
        ap (λ (r : Status × DriverState k). r.1) (some-injective _ _ (sym run ∙ joins)) in
      let ended : status ≡ success =
        ap (λ (r : Status × DriverState k). r.0) (some-injective _ _ (sym run ∙ joins)) in
      let (alone', more) : HasAnother k process_id s t = elim outcome [
        | inl (_, _, another) ↦ subst (HasAnother k process_id s) same another
        | inr (refused, _) ↦ absurd (refused ended)
      ] in
      let all = take_all ((output_length - 8) / 8) (process_ids k t) (omega arith) in
      (
        list_reply k output_length (total k s) (process_ids k t),
        list_counted-full output_length (total k s) t alone'.free (omega arith),
        ap some (total-ids k s few),
        omega (arith, total-ids k s few),
        all,
        ap length all ∙ omega (arith, more),
        list_counted-alone output_length s,
      )
