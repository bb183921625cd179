-- ===== src/Driver/Registry/Listing.antt =====
-- What `ListOptedInProcesses` writes into a buffer of a given length.
use project_ram_crisis.Prelude.{
  ℕ, zero, suc, ◌+◌, ◌*◌, ◌-◌, ◌/◌, ◌%◌, ◌≤◌, ◌<◌, ◌≡◌, refl, ap, ◌∙◌, List, [], ◌∷◌, some, length,
  length-map, arith, take, if◌then◌else◌, ltb, lt→ltb, le→ltb, u32_mod, u64_mod,
}
use project_ram_crisis.Driver.Kernel.{Kernel}
use project_ram_crisis.Driver.Data.{ProcessOptInEntry, success, buffer_overflow}
use project_ram_crisis.Driver.State.{DriverState, number_of}
use project_ram_crisis.Driver.State.Lock.{IsFree, lock, unlock-lock, guarded_map}
use project_ram_crisis.Driver.Registry.{process_ids, list_opted_in_processes, list_reply, ListReply}

pub take_all : (n : ℕ) (xs : List ℕ) → length xs ≤ n → take n xs ≡ xs
take_all zero [] h = refl
take_all zero (x ∷ xs) h = absurd (omega arith)
take_all (suc n) [] h = refl
take_all (suc n) (x ∷ xs) h = ap (λ l. x ∷ l) (take_all n xs (omega arith))

length-take-le : (n : ℕ) (xs : List ℕ) → length (take n xs) ≤ n
length-take-le zero xs = omega arith
length-take-le (suc n) [] = omega arith
length-take-le (suc n) (x ∷ xs) = omega (arith, length-take-le n xs)

module _ (k : Kernel) where
  abbrev pub total : DriverState k → ℕ
  total s = number_of (k.tables.elements s.context.process_table)

  abbrev full_reply : ℕ → DriverState k → ListReply
  full_reply output_length s = list_reply k output_length (total s) (process_ids k s)

  list-full :
      (output_length : ℕ) (s : DriverState k)
      → IsFree s
      → 8 ≤ output_length
      → list_opted_in_processes k output_length s ≡ some (full_reply output_length s, s)
  unfolding list_opted_in_processes
  list-full output_length s free room = rw (le→ltb output_length 8 room) (
      guarded_map (λ t. some (process_ids k t, t)) (list_reply k output_length (total s)) s (lock s)
        (process_ids k s) free refl refl
      ∙ ap (λ t. some (full_reply output_length s, t)) (unlock-lock s free))

  pub total-ids :
      (s : DriverState k) → length (process_ids k s) < u32_mod → total s ≡ length (process_ids k s)
  total-ids s few = omega (
    arith,
    length-map (λ (e : ProcessOptInEntry). e.process_id)
        (k.tables.elements s.context.process_table),
  )

  required-ids :
      (s : DriverState k)
      → length (process_ids k s) < u32_mod
      → (8 + total s * 8) % u64_mod ≡ 8 + length (process_ids k s) * 8
  required-ids s few = omega (arith, total-ids s few)

  -- With the mutex free and fewer than 2 ^ 32 processes, a buffer that holds the count and every
  -- process is filled with both, and the state is as before.
  pub list_opted_in_processes-all :
      (output_length : ℕ) (s : DriverState k)
      → IsFree s
      → length (process_ids k s) < u32_mod
      → 8 + length (process_ids k s) * 8 ≤ output_length
      → list_opted_in_processes k output_length s
        ≡ some (
          record {
            status = success;
            information = 8 + length (process_ids k s) * 8;
            count = some (length (process_ids k s));
            listed = process_ids k s;
          },
          s,
        )
  list_opted_in_processes-all output_length s free few room =
      list-full output_length s free (omega arith)
      ∙ ap (λ r. some (r, s))
          (all_fields (required-ids s few) (total-ids s few)
              (take_all ((output_length - 8) / 8) (process_ids k s) (omega arith))
            ∙ ap
                (λ b. record {
                  status = if b then buffer_overflow else success;
                  information = 8 + length (process_ids k s) * 8;
                  count = some (length (process_ids k s));
                  listed = process_ids k s;
                })
                (le→ltb _ _ room))
    where
      all_fields :
          {required n : ℕ} {ids : List ℕ}
          → (8 + total s * 8) % u64_mod ≡ required
          → total s ≡ n
          → take ((output_length - 8) / 8) (process_ids k s) ≡ ids
          → full_reply output_length s ≡ record {
            status = if ltb output_length required then buffer_overflow else success;
            information = required;
            count = some n;
            listed = ids;
          }
      all_fields p q r = λ i. record {
        status = if ltb output_length (p i) then buffer_overflow else success;
        information = p i;
        count = some (q i);
        listed = r i;
      }

  -- With the mutex free and fewer than 2 ^ 32 processes, a buffer of 8 bytes or more that is too
  -- short for all gets the processes that fit, and never more: the call reports an overflow and
  -- the length that it would have needed, which is greater than the buffer's.
  pub list_opted_in_processes-overflow :
      (output_length : ℕ) (s : DriverState k)
      → IsFree s
      → length (process_ids k s) < u32_mod
      → 8 ≤ output_length
      → output_length < 8 + length (process_ids k s) * 8
      → (reply : ListReply) × (list_opted_in_processes k output_length s ≡ some (reply, s))
        × (reply.status ≡ buffer_overflow)
        × (reply.information ≡ 8 + length (process_ids k s) * 8)
        × (reply.listed ≡ take ((output_length - 8) / 8) (process_ids k s))
        × (8 + 8 * length reply.listed ≤ output_length)
  list_opted_in_processes-overflow output_length s free few room short = (
    full_reply output_length s,
    list-full output_length s free room,
    ap (λ n. if ltb output_length n then buffer_overflow else success) (required-ids s few)
        ∙ ap (λ b. if b then buffer_overflow else success) (lt→ltb _ _ short),
    required-ids s few,
    refl,
    omega (arith, length-take-le ((output_length - 8) / 8) (process_ids k s)),
  )
