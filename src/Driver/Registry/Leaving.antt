-- ===== src/Driver/Registry/Leaving.antt =====
-- Opting out, and asking whether a process is opted in.
use project_ram_crisis.Prelude.{
  ℕ, ◌≡◌, refl, ap, ◌∙◌, inl, inr, false, none, some, if◌then◌else◌, Bool-cases,
}
use project_ram_crisis.Driver.Kernel.{Kernel}
use project_ram_crisis.Driver.Data.{invalid_parameter, not_found}
use project_ram_crisis.Driver.Compare.{compare_process_entries}
use project_ram_crisis.Driver.State.{DriverState, gets, is_some}
use project_ram_crisis.Driver.State.Lock.{lock, unlock, unlock-lock, guarded_lem}
use project_ram_crisis.Driver.Registry.{
  bad_handle, opt_in_entry, delete_process, unregister_opt_in_process, is_process_opted_in,
}
use project_ram_crisis.Driver.Registry.Laws.{IsAlone, AllAre-Differs}

module _ (k : Kernel) where
  lookup_process-none :
      (process_id : ℕ) (s : DriverState k)
      → IsAlone k process_id s
      → k.tables.lookup compare_process_entries s.context.process_table (opt_in_entry process_id)
        ≡ none
  lookup_process-none process_id s alone =
      k.tables.lookup_new compare_process_entries s.context.process_table (opt_in_entry process_id)
        (AllAre-Differs process_id _ alone.all)

  -- With the mutex free and no other process in the table than this one, opting it out returns and
  -- changes nothing: a bad handle is refused, and any other process is not found, also if it is
  -- opted in.
  pub unregister_opt_in_process-stays :
      (process_id : ℕ) (s : DriverState k)
      → IsAlone k process_id s
      → unregister_opt_in_process k process_id s
        ≡ some ((if bad_handle process_id then invalid_parameter else not_found), s)
  unfolding unregister_opt_in_process delete_process
  unregister_opt_in_process-stays process_id s alone = elim (Bool-cases (bad_handle process_id)) [
    | inl bad ↦ rw bad
    | inr good ↦ rw good (
        guarded_lem (delete_process k process_id) s (lock s) not_found alone.free
          (rw (lookup_process-none process_id s alone, delete_process)) refl
        ∙ ap (λ t. some (not_found, t)) (unlock-lock s alone.free))
  ]

  -- The driver does not see it as opted in.
  pub is_process_opted_in-false :
      (process_id : ℕ) (s : DriverState k)
      → IsAlone k process_id s
      → is_process_opted_in k process_id s ≡ some (false, s)
  unfolding is_process_opted_in
  is_process_opted_in-false process_id s alone =
      guarded_lem
        (gets (λ c.
          is_some
            (k.tables.lookup compare_process_entries c.process_table (opt_in_entry process_id))))
        s (lock s) _ alone.free refl refl
      ∙ ap (λ b. some (b, unlock (lock s))) (ap is_some (lookup_process-none process_id s alone))
      ∙ ap (λ t. some (false, t)) (unlock-lock s alone.free)
