-- ===== src/Driver/Groups.antt =====
-- The shared page groups: `PromoteSharedPageGroup`, `DemoteSharedPageGroup`, `MarkPageShared` and
-- `UnmarkPageShared` of driver/deduper.cpp. Where the source returns with the mutex still owned,
-- so does the model.
pub mod Stuck
use project_ram_crisis.Prelude.{
  ℕ, ◌-◌, Bool, true, false, not, ◌||◌, List, [], ◌∷◌, ◌++◌, Option, none, some, length, get_or,
  has, ltb, ◌==◌, if◌then◌else◌, add32, ℤ,
}
use project_ram_crisis.Driver.Kernel.{Kernel, GenericTables}
use project_ram_crisis.Driver.Data.{
  PageSignature, SharedPageGroup, Status, success, insufficient_resources, not_found,
  max_page_frames,
}
use project_ram_crisis.Driver.Compare.{compare_page_groups}
use project_ram_crisis.Driver.State.{
  DriverState, DedupeContext, Action, nt_success, pure, acquire, release, ◌>>=◌, ◌>>◌,
}
use project_ram_crisis.Driver.CowRegistry.{
  register_cow_protected_page, unregister_cow_protected_page,
}

-- Whether the pool has memory for a new entry of each of the tables that a scan fills.
pub record Rooms : Type 0 where
  pub page : Bool
  pub group : Bool
  pub cow : Bool

-- The array with one more number, where it has room.
abbrev pub add_frame : ℕ → List ℕ → List ℕ
add_frame pfn frames = if ltb (length frames) max_page_frames then frames ++ pfn ∷ [] else frames

-- The array without the first occurrence of a number.
abbrev pub remove_frame : ℕ → List ℕ → List ℕ
remove_frame pfn [] = []
remove_frame pfn (x ∷ rest) = if x == pfn then rest else x ∷ remove_frame pfn rest

abbrev pub is_empty : List ℕ → Bool
is_empty [] = true
is_empty (x ∷ rest) = false

abbrev pub new_group : ℕ → PageSignature → SharedPageGroup
new_group pfn signature = record {
  signature = signature;
  reference_count = 1;
  page_frame_numbers = pfn ∷ [];
  left_over = 0;
}

-- `SharedPageGroup lookup{}` with its signature: no page frames.
abbrev pub lookup_group : PageSignature → SharedPageGroup
lookup_group signature = record {
  signature = signature;
  reference_count = 0;
  page_frame_numbers = [];
  left_over = 0;
}

-- A group that was there, with one more page frame.
unfoldable pub join_group : ℕ → SharedPageGroup → SharedPageGroup
join_group pfn group = if has pfn group.page_frame_numbers then group else record group {
  page_frame_numbers = add_frame pfn group.page_frame_numbers;
  reference_count = add32 group.reference_count 1;
}

-- What the first place of the array holds, where it has no number left: the one taken out.
abbrev pub left_over_of : ℕ → ℕ → List ℕ → ℕ
left_over_of pfn before [] = pfn
left_over_of pfn before (x ∷ rest) = before

-- A group without a page frame that it has.
unfoldable pub leave_group : ℕ → SharedPageGroup → SharedPageGroup
leave_group pfn group = record group {
  page_frame_numbers = remove_frame pfn group.page_frame_numbers;
  left_over = left_over_of pfn group.left_over (remove_frame pfn group.page_frame_numbers);
  reference_count = if ltb 0 group.reference_count then group.reference_count - 1 else 0;
}

module _ (k : Kernel) where
  abbrev pub compare_groups : SharedPageGroup → SharedPageGroup → ℤ
  compare_groups = compare_page_groups k.memory

  abbrev pub with_group_table : DriverState k → k.tables.Table SharedPageGroup → DriverState k
  with_group_table s t = record s { context = record s.context { shared_group_table = t } }

  unfoldable pub insert_group : Bool → ℕ → PageSignature → Action k Status
  unfolding join_group
  insert_group room pfn signature s =
      elim (k.tables.insert compare_groups room s.context.shared_group_table
        (new_group pfn signature)) [
          | none ↦ some (insufficient_resources, s)
          | some (t, place, new) ↦
              let inserted = get_or (k.tables.elements t) place (new_group pfn signature) in
              some (
                success,
                with_group_table s
                    (if new then t else k.tables.assign t place (join_group pfn inserted)),
              )
        ]

  -- The mutex is released on the error path only.
  unfoldable pub promote_shared_page_group : Bool → ℕ → PageSignature → Action k Status
  unfolding insert_group
  promote_shared_page_group room pfn signature = do
    acquire
    status ← insert_group room pfn signature
    if nt_success status then pure success else (release >> pure status)

  -- A group that was found, with the page frame taken out, and the group deleted if it is empty.
  unfoldable pub take_out : ℕ → ℕ → SharedPageGroup → Action k Status
  unfolding leave_group
  take_out pfn place group s =
      let left = leave_group pfn group in
      let t = k.tables.assign s.context.shared_group_table place left in
      some (
        success,
        with_group_table s (
            if is_empty left.page_frame_numbers || left.reference_count == 0
            then (k.tables.delete compare_groups t left).0
            else t),
      )

  -- The mutex is not released where no group is found.
  unfoldable pub demote_shared_page_group : ℕ → PageSignature → Action k Status
  unfolding take_out
  demote_shared_page_group pfn signature = do
    acquire
    λ s.
        elim (k.tables.lookup compare_groups s.context.shared_group_table
          (lookup_group signature)) [
            | none ↦ some (not_found, s)
            | some place ↦
                let group =
                  get_or (k.tables.elements s.context.shared_group_table) place
                    (lookup_group signature) in
                (if has pfn group.page_frame_numbers
                    then (do status ← take_out pfn place group; release; pure status)
                    else (release >> pure not_found))
                  s
          ]

  unfoldable pub mark_page_shared : Rooms → ℕ → PageSignature → Action k Status
  unfolding promote_shared_page_group register_cow_protected_page
  mark_page_shared rooms pfn signature = do
    status ← promote_shared_page_group rooms.group pfn signature
    if nt_success status then register_cow_protected_page k rooms.cow pfn else pure status

  unfoldable pub unmark_page_shared : ℕ → PageSignature → Action k Status
  unfolding demote_shared_page_group unregister_cow_protected_page
  unmark_page_shared pfn signature = do
    status ← demote_shared_page_group pfn signature
    if nt_success status then unregister_cow_protected_page k pfn else pure status
