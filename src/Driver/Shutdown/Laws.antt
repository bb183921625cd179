-- ===== src/Driver/Shutdown/Laws.antt =====
-- When the shutdown ends.
use project_ram_crisis.Prelude.{
  ℕ, zero, suc, ◌≡◌, refl, sym, ap, subst, ◌∙◌, true, false, List, [], ◌∷◌, none, some, length, ℤ,
  Bool-cases, inl, inr,
}
use project_ram_crisis.Driver.Kernel.{Kernel, Differs}
use project_ram_crisis.Driver.Data.{CowPrivatePage, success}
use project_ram_crisis.Driver.Compare.{
  compare_page_entries, compare_page_groups, compare_process_entries, compare_cow_protected_pages,
}
use project_ram_crisis.Driver.State.{DriverState, DedupeContext}
use project_ram_crisis.Driver.State.Lock.{IsFree, step}
use project_ram_crisis.Driver.Interception.{
  shutdown_cow_interception, unregister_if_registered, unregister_cow_fault_callback,
}
use project_ram_crisis.Driver.Shutdown.{
  empty_context, initialize_dedupe_driver, empty_table, emptied, empty_tables,
  shutdown_dedupe_driver,
}

module _ (k : Kernel) where
  -- The loop over a table whose first entry the routine says equals none of the table does not end
  -- after any number of rounds.
  pub empty_table-none :
      {A : Type 0} (compare : A → A → ℤ) (fuel : ℕ) (entry : A) (rest : List A)
      (table : k.tables.Table A)
      → k.tables.elements table ≡ entry ∷ rest
      → Differs compare entry (k.tables.elements table)
      → empty_table k compare fuel table ≡ none
  unfolding empty_table
  empty_table-none compare zero entry rest table here differs = rw (here, empty_table)
  empty_table-none compare (suc fuel) entry rest table here differs =
      rw (here, empty_table)
        (ap (λ r. empty_table k compare fuel r.0) (k.tables.delete_new compare table entry differs)
          ∙ empty_table-none compare fuel entry rest table here differs)

  emptied-empty :
      {A : Type 0} (compare : A → A → ℤ) (table : k.tables.Table A)
      → k.tables.elements table ≡ []
      → emptied k compare table ≡ some table
  unfolding emptied empty_table
  emptied-empty compare table here =
      ap (λ es. empty_table k compare (length es) table) here ∙ rw (here, empty_table)

  -- No table has an entry.
  pub record IsEmpty (c : DedupeContext k) : Type 0 where
    pub processes : k.tables.elements c.process_table ≡ []
    pub pages : k.tables.elements c.page_table ≡ []
    pub groups : k.tables.elements c.shared_group_table ≡ []
    pub protected : k.tables.elements c.cow_protected_table ≡ []
    pub private : k.tables.elements c.cow_private_table ≡ []

  pub empty_context-IsEmpty : IsEmpty (empty_context k)
  empty_context-IsEmpty = record {
    processes = k.tables.elements_empty _;
    pages = k.tables.elements_empty _;
    groups = k.tables.elements_empty _;
    protected = k.tables.elements_empty _;
    private = k.tables.elements_empty _;
  }

  -- The interception is off.
  pub record IsOff (s : DriverState k) : Type 0 where
    pub inactive : s.cow_interception_active ≡ false
    pub unregistered : s.callback_registered ≡ false

  -- Initializing succeeds: the mutex is free, the tables are empty, and the interception is active.
  pub initialize_dedupe_driver-ready :
      (s : DriverState k)
      → (t : DriverState k) × (initialize_dedupe_driver k s ≡ some (success, t))
        × IsFree t
        × IsEmpty t.context
        × (t.cow_interception_active ≡ true)
        × (t.callback_registered ≡ true)
  unfolding initialize_dedupe_driver
  initialize_dedupe_driver-ready s = (
    record s {
      context = empty_context k;
      mutex = k.mutexes.free;
      callback_handle = some 1;
      callback_registered = true;
      cow_interception_active = true;
    },
    refl,
    refl,
    empty_context-IsEmpty,
    refl,
    refl,
  )

  shutdown_cow_interception-IsOff :
      (s : DriverState k)
      → (t : DriverState k) × (shutdown_cow_interception s ≡ some (tt, t))
        × IsOff t
        × (t.context ≡ s.context)
  unfolding shutdown_cow_interception unregister_if_registered unregister_cow_fault_callback
  shutdown_cow_interception-IsOff s = elim (Bool-cases s.callback_registered) [
    | inl registered ↦ (
      record s {
        callback_handle = none;
        callback_registered = false;
        cow_interception_active = false;
      },
      step unregister_if_registered _ (unregister-on registered),
      record { inactive = refl; unregistered = refl },
      refl,
    )
    | inr unregistered ↦ (
      record s { cow_interception_active = false },
      step unregister_if_registered _ (unregister-off unregistered),
      record { inactive = refl; unregistered = unregistered },
      refl,
    )
  ]
    where
      unregister-on :
          s.callback_registered ≡ true
          → unregister_if_registered s ≡ unregister_cow_fault_callback s
      unregister-on e = simp e

      unregister-off : s.callback_registered ≡ false → unregister_if_registered s ≡ some (tt, s)
      unregister-off e = simp e

  module _ (compare_cow_private_pages : CowPrivatePage → CowPrivatePage → ℤ) where
    empty_tables-empty :
        (c : DedupeContext k) → IsEmpty c → empty_tables k compare_cow_private_pages c ≡ some c
    unfolding empty_tables
    empty_tables-empty c empty =
        rw (emptied-empty compare_process_entries c.process_table empty.processes, empty_tables)
          (rw (emptied-empty (compare_page_entries k.memory) c.page_table empty.pages, empty_tables)
            (rw
              (
                emptied-empty (compare_page_groups k.memory) c.shared_group_table empty.groups,
                empty_tables,
              )
              (rw
                (
                  emptied-empty compare_cow_protected_pages c.cow_protected_table empty.protected,
                  empty_tables,
                )
                (rw (
                  emptied-empty compare_cow_private_pages c.cow_private_table empty.private,
                  empty_tables,
                )))))

    -- With every table empty the shutdown ends, with the tables as they were and the interception
    -- off.
    pub shutdown_dedupe_driver-IsEmpty :
        (s : DriverState k)
        → IsEmpty s.context
        → (t : DriverState k) × (shutdown_dedupe_driver k compare_cow_private_pages s
            ≡ some (tt, t))
          × IsEmpty t.context
          × IsOff t
    unfolding shutdown_dedupe_driver
    shutdown_dedupe_driver-IsEmpty s empty =
        let (t, run, off, same) = shutdown_cow_interception-IsOff s in
        let empty' : IsEmpty t.context = subst IsEmpty (sym same) empty in
        (
          t,
          step shutdown_cow_interception _ run
              ∙ rw (empty_tables-empty t.context empty', empty_tables),
          empty',
          off,
        )

    -- The shutdown does not end where the loop over the process table does not.
    pub shutdown_dedupe_driver-none :
        (s : DriverState k)
        → emptied k compare_process_entries s.context.process_table ≡ none
        → shutdown_dedupe_driver k compare_cow_private_pages s ≡ none
    unfolding shutdown_dedupe_driver empty_tables
    shutdown_dedupe_driver-none s stuck =
        let (t, run, off, same) = shutdown_cow_interception-IsOff s in
        let stuck' : emptied k compare_process_entries t.context.process_table ≡ none =
          ap (λ (c : DedupeContext k). emptied k compare_process_entries c.process_table) same
          ∙ stuck in
        step shutdown_cow_interception _ run ∙ rw (stuck', empty_tables)
