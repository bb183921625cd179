-- ===== src/Driver/Groups/Stuck.antt =====
-- The mutex that `PromoteSharedPageGroup` keeps, and the thread that waits for it.
use project_ram_crisis.Prelude.{ℕ, ◌≡◌, refl, ◌∙◌, Bool, none, some, get_or, if◌then◌else◌}
use project_ram_crisis.Driver.Kernel.{Kernel}
use project_ram_crisis.Driver.Data.{PageSignature, SharedPageGroup, success}
use project_ram_crisis.Driver.State.{DriverState, acquire}
use project_ram_crisis.Driver.State.Lock.{
  IsFree, IsHeld, lock, step, step-none, acquire-IsFree, acquire-IsHeld,
}
use project_ram_crisis.Driver.CowRegistry.{register_cow_protected_page}
use project_ram_crisis.Driver.Groups.{
  Rooms, new_group, join_group, compare_groups, with_group_table, insert_group,
  promote_shared_page_group, mark_page_shared,
}

module _ (k : Kernel) where
  -- Registering a page never returns to a thread that owns the mutex.
  register_cow_protected_page-IsHeld :
      (room : Bool) (pfn : ℕ) (s : DriverState k)
      → IsHeld s
      → register_cow_protected_page k room pfn s ≡ none
  unfolding register_cow_protected_page
  register_cow_protected_page-IsHeld room pfn s held = step-none acquire _ (acquire-IsHeld s held)

  -- Promoting returns with the mutex still owned whenever the group table gives an entry, and with
  -- the mutex free only if it gives none.
  pub promote_shared_page_group-IsHeld :
      (room : Bool) (pfn : ℕ) (signature : PageSignature) (s t : DriverState k)
      → IsFree s
      → insert_group k room pfn signature (lock s) ≡ some (success, t)
      → IsHeld t
      → promote_shared_page_group k room pfn signature s ≡ some (success, t)
  unfolding promote_shared_page_group
  promote_shared_page_group-IsHeld room pfn signature s t free run held =
      step acquire _ (acquire-IsFree s free) ∙ step (insert_group k room pfn signature) _ run

  -- Marking a page as shared never returns, if the mutex was free and the group table gives an
  -- entry: the promotion keeps the mutex, and the registration of the page waits for it.
  pub mark_page_shared-none :
      (rooms : Rooms) (pfn place : ℕ) (signature : PageSignature) (new : Bool) (s : DriverState k)
      (table : k.tables.Table SharedPageGroup)
      → IsFree s
      → k.tables.insert
          (compare_groups k)
          rooms.group
          s.context.shared_group_table
          (new_group pfn signature)
        ≡ some (table, place, new)
      → mark_page_shared k rooms pfn signature s ≡ none
  unfolding mark_page_shared insert_group
  mark_page_shared-none rooms pfn place signature new s table free inserted =
      let group = get_or (k.tables.elements table) place (new_group pfn signature) in
      let t : DriverState k =
        with_group_table k (lock s)
          (if new then table else k.tables.assign table place (join_group pfn group)) in
      step (promote_shared_page_group k rooms.group pfn signature) _ (
        promote_shared_page_group-IsHeld rooms.group pfn signature s t free
          (rw (inserted, insert_group)) refl)
      ∙ register_cow_protected_page-IsHeld rooms.cow pfn t refl
