-- ===== src/Driver/Registry/History.antt =====
-- Any sequence of opting one process in and out.
use project_ram_crisis.Prelude.{
  ℕ, suc, ◌+◌, ◌≡◌, ◌≢◌, refl, ap, subst, sym, ◌∙◌, inl, inr, Bool, true, false, List, [], ◌∷◌,
  some, length, arith, if◌then◌else◌,
}
use project_ram_crisis.Driver.Kernel.{Kernel}
use project_ram_crisis.Driver.Data.{
  Status, success, invalid_parameter, insufficient_resources, not_found, not_supported,
  unsuccessful, buffer_too_small, buffer_overflow, invalid_device_request, kernel_failure,
}
use project_ram_crisis.Driver.State.{DriverState, Action, pure, ◌>>=◌}
use project_ram_crisis.Driver.State.Lock.{step}
use project_ram_crisis.Driver.Registry.{
  bad_handle, process_ids, register_opt_in_process, unregister_opt_in_process, is_process_opted_in,
}
use project_ram_crisis.Driver.Registry.Laws.{IsAlone, register_opt_in_process-Joins}
use project_ram_crisis.Driver.Registry.Leaving.{
  unregister_opt_in_process-stays, is_process_opted_in-false,
}

-- A call: of `RegisterOptInProcess`, with or without memory for an entry, or of
-- `UnregisterOptInProcess`.
pub data Call : Type 0 where
  joining : Bool → Call
  leaving : Call

-- 1 for a call that succeeded.
abbrev pub done : Status → ℕ
done success = 1
done _ = 0

abbrev pub successes : List Status → ℕ
successes [] = 0
successes (status ∷ rest) = done status + successes rest

done-not : (status : Status) → status ≢ success → done status ≡ 0
done-not success failed = absurd (failed refl)
done-not invalid_parameter failed = refl
done-not insufficient_resources failed = refl
done-not not_found failed = refl
done-not not_supported failed = refl
done-not unsuccessful failed = refl
done-not buffer_too_small failed = refl
done-not buffer_overflow failed = refl
done-not invalid_device_request failed = refl
done-not (kernel_failure c) failed = refl

module _ (k : Kernel) (process_id : ℕ) where
  unfoldable pub serve : Call → Action k Status
  serve (joining room) = register_opt_in_process k room process_id
  serve leaving = unregister_opt_in_process k process_id

  unfoldable pub serve_all : List Call → Action k (List Status)
  unfolding serve
  serve_all [] = pure []
  serve_all (call ∷ rest) = do
    status ← serve call
    statuses ← serve_all rest
    pure (status ∷ statuses)

  counted-success :
      (status : Status) (s t : DriverState k)
      → status ≡ success
      → length (process_ids k t) ≡ suc (length (process_ids k s))
      → length (process_ids k t) ≡ done status + length (process_ids k s)
  counted-success status s t e more =
      omega (arith, more) ∙ ap (λ x. done x + length (process_ids k s)) (sym e)

  refused-counts :
      (bad : Bool) (s : DriverState k)
      → length (process_ids k s)
        ≡ done (if bad then invalid_parameter else not_found) + length (process_ids k s)
  refused-counts true s = omega arith
  refused-counts false s = omega arith

  serve-counts :
      (call : Call) (s : DriverState k)
      → IsAlone k process_id s
      → (status : Status) × (t : DriverState k) × (serve call s ≡ some (status, t))
        × IsAlone k process_id t
        × (length (process_ids k t) ≡ done status + length (process_ids k s))
  unfolding serve
  serve-counts (joining room) s alone =
      let (status, t, run, outcome) = register_opt_in_process-Joins k room process_id s alone in
      elim outcome [
        | inl (e, allowed, another) ↦
            (status, t, run, another.0, counted-success status s t e another.1)
        | inr (failed, same) ↦ (
          status,
          t,
          run,
          subst (IsAlone k process_id) (sym same) alone,
          ap (λ u. length (process_ids k u)) same ∙ omega (arith, done-not status failed),
        )
      ]
  serve-counts leaving s alone = (
    (if bad_handle process_id then invalid_parameter else not_found),
    s,
    unregister_opt_in_process-stays k process_id s alone,
    alone,
    refused-counts (bad_handle process_id) s,
  )

  -- From a state with the mutex free and no other process in the table, any sequence of opting one
  -- process in and out, while the kernel's answers about it stay the same, is served to its end. The table has then as many entries more as calls
  -- succeeded, all of this process, so no entry was ever taken out; and asked whether the process is
  -- opted in, the driver says no.
  pub serve_all-counts :
      (calls : List Call) (s : DriverState k)
      → IsAlone k process_id s
      → (statuses : List Status) × (t : DriverState k) × (serve_all calls s ≡ some (statuses, t))
        × (length statuses ≡ length calls)
        × IsAlone k process_id t
        × (length (process_ids k t) ≡ successes statuses + length (process_ids k s))
        × (is_process_opted_in k process_id t ≡ some (false, t))
  unfolding serve_all
  serve_all-counts [] s alone =
      ([], s, refl, refl, alone, omega arith, is_process_opted_in-false k process_id s alone)
  serve_all-counts (call ∷ rest) s alone =
      let (status, t, run, alone', more) = serve-counts call s alone in
      let (statuses, u, others, same, alone'', all, unseen) = serve_all-counts rest t alone' in
      (
        status ∷ statuses,
        u,
        step (serve call) _ run ∙ step (serve_all rest) _ others,
        ap suc same,
        alone'',
        omega (arith, all, more),
        unseen,
      )
