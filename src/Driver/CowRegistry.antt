-- ===== src/Driver/CowRegistry.antt =====
-- The registry of COW-protected page frames: `RegisterCowProtectedPage`,
-- `UnregisterCowProtectedPage`, `IsCowProtectedPfn` and `IsCowProtectionActive` of
-- driver/deduper.cpp.
pub mod Laws
use project_ram_crisis.Prelude.{
  ℕ, Bool, true, false, List, map, Option, none, some, length, get_or, ltb, if◌then◌else◌,
}
use project_ram_crisis.Driver.Kernel.{Kernel, GenericTables}
use project_ram_crisis.Driver.Data.{
  CowProtectedPage, Status, success, insufficient_resources, not_found, unsuccessful,
}
use project_ram_crisis.Driver.Compare.{compare_cow_protected_pages}
use project_ram_crisis.Driver.State.{
  DriverState, DedupeContext, Action, number_of, is_some, pure, gets, acquire, release, ◌>>=◌, ◌>>◌,
}

abbrev pub protected_page : ℕ → CowProtectedPage
protected_page pfn = record { page_frame_number = pfn }

module _ (k : Kernel) where
  abbrev pub with_cow_table : DriverState k → k.tables.Table CowProtectedPage → DriverState k
  with_cow_table s t = record s { context = record s.context { cow_protected_table = t } }

  unfoldable pub insert_protected : Bool → ℕ → Action k Status
  insert_protected room pfn s =
      elim (k.tables.insert compare_cow_protected_pages room s.context.cow_protected_table
        (protected_page pfn)) [
          | none ↦ some (insufficient_resources, s)
          | some (t, place, new) ↦ some (success, with_cow_table s t)
        ]

  unfoldable pub register_cow_protected_page : Bool → ℕ → Action k Status
  unfolding insert_protected
  register_cow_protected_page room pfn = do
    acquire
    status ← insert_protected room pfn
    release
    pure status

  unfoldable pub delete_protected : ℕ → Action k Status
  delete_protected pfn s =
      elim (k.tables.lookup compare_cow_protected_pages s.context.cow_protected_table
        (protected_page pfn)) [
          | none ↦ some (not_found, s)
          | some i ↦
              let entry =
                get_or (k.tables.elements s.context.cow_protected_table) i (protected_page pfn) in
              let (t, removed) =
                k.tables.delete compare_cow_protected_pages s.context.cow_protected_table entry in
              some (if removed then success else unsuccessful, with_cow_table s t)
        ]

  unfoldable pub unregister_cow_protected_page : ℕ → Action k Status
  unfolding delete_protected
  unregister_cow_protected_page pfn = do
    acquire
    status ← delete_protected pfn
    release
    pure status

  unfoldable pub is_cow_protected_pfn : ℕ → Action k Bool
  is_cow_protected_pfn pfn = do
    acquire
    present ← gets (λ c.
        is_some
          (k.tables.lookup compare_cow_protected_pages c.cow_protected_table (protected_page pfn)))
    release
    pure present

  unfoldable pub is_cow_protection_active : Action k Bool
  is_cow_protection_active = do
    acquire
    count ← gets (λ c. number_of (k.tables.elements c.cow_protected_table))
    release
    pure (ltb 0 count)
