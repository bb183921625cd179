-- ===== src/Driver/Shutdown.antt =====
-- `InitializeDedupeDriver` and `ShutdownDedupeDriver` of driver/deduper.cpp.
-- `CompareCowPrivatePages` is declared there and defined nowhere, so it is a parameter.
pub mod Laws
use project_ram_crisis.Prelude.{
  ℕ, zero, suc, List, [], ◌∷◌, Option, none, some, length, ℤ, if◌then◌else◌,
}
use project_ram_crisis.Driver.Kernel.{Kernel, GenericTables, FastMutexes}
use project_ram_crisis.Driver.Data.{
  ProcessOptInEntry, PageEntry, SharedPageGroup, CowProtectedPage, CowPrivatePage, Status, success,
}
use project_ram_crisis.Driver.Compare.{
  compare_process_entries, compare_cow_protected_pages, compare_page_entries, compare_page_groups,
}
use project_ram_crisis.Driver.State.{
  DriverState, DedupeContext, Action, nt_success, pure, ◌>>=◌, ◌>>◌,
}
use project_ram_crisis.Driver.Interception.{initialize_cow_interception, shutdown_cow_interception}

module _ (k : Kernel) where
  abbrev pub empty_context : DedupeContext k
  empty_context = record {
    process_table = k.tables.empty ProcessOptInEntry;
    page_table = k.tables.empty PageEntry;
    shared_group_table = k.tables.empty SharedPageGroup;
    cow_protected_table = k.tables.empty CowProtectedPage;
    cow_private_table = k.tables.empty CowPrivatePage;
  }

  -- The tables and the mutex are set up, and the interception.
  unfoldable pub initialize_dedupe_driver : Action k Status
  unfolding initialize_cow_interception
  initialize_dedupe_driver = do
    (λ s. some (tt, record s { context = empty_context; mutex = k.mutexes.free }))
    status ← initialize_cow_interception
    if nt_success status then pure success else pure status

  -- The loop that deletes the first entry of a table while there is one. With no fuel left and an
  -- entry still there it is `none`: the loop has not returned.
  unfoldable pub empty_table :
      {A : Type 0} → (A → A → ℤ) → ℕ → k.tables.Table A → Option (k.tables.Table A)
  empty_table compare zero table = elim (k.tables.elements table) [
    | [] ↦ some table
    | entry ∷ rest ↦ none
  ]
  empty_table compare (suc fuel) table = elim (k.tables.elements table) [
    | [] ↦ some table
    | entry ∷ rest ↦ empty_table compare fuel (k.tables.delete compare table entry).0
  ]

  -- A round either takes an entry off the table or leaves the table as it was, and then so does every
  -- later round: with the number of the entries as fuel, a loop that ends has ended.
  unfoldable pub emptied : {A : Type 0} → (A → A → ℤ) → k.tables.Table A → Option (k.tables.Table A)
  unfolding empty_table
  emptied compare table = empty_table compare (length (k.tables.elements table)) table

  module _ (compare_cow_private_pages : CowPrivatePage → CowPrivatePage → ℤ) where
    -- The five loops.
    unfoldable pub empty_tables : DedupeContext k → Option (DedupeContext k)
    unfolding emptied
    empty_tables c = elim (emptied compare_process_entries c.process_table) [
      | none ↦ none
      | some processes ↦ elim (emptied (compare_page_entries k.memory) c.page_table) [
        | none ↦ none
        | some pages ↦ elim (emptied (compare_page_groups k.memory) c.shared_group_table) [
          | none ↦ none
          | some groups ↦ elim (emptied compare_cow_protected_pages c.cow_protected_table) [
            | none ↦ none
            | some protected ↦ elim (emptied compare_cow_private_pages c.cow_private_table) [
              | none ↦ none
              | some private ↦ some (record {
                process_table = processes;
                page_table = pages;
                shared_group_table = groups;
                cow_protected_table = protected;
                cow_private_table = private;
              })
            ]
          ]
        ]
      ]
    ]

    unfoldable pub shutdown_dedupe_driver : Action k (Unit {0})
    unfolding shutdown_cow_interception empty_tables
    shutdown_dedupe_driver = do
      shutdown_cow_interception
      (λ s. elim (empty_tables s.context) [
        | none ↦ none
        | some context ↦ some (tt, record s { context = context })
      ])
