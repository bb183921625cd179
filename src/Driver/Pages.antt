-- ===== src/Driver/Pages.antt =====
-- The table of page signatures: `AddPageEntry` of driver/deduper.cpp.
pub mod Laws
use project_ram_crisis.Prelude.{
  ℕ, Bool, true, false, not, ◌&&◌, List, [], ◌∷◌, Option, none, some, get_or, has, leb,
  if◌then◌else◌, add32, ℤ,
}
use project_ram_crisis.Driver.Kernel.{Kernel, GenericTables}
use project_ram_crisis.Driver.Data.{
  PageSignature, PageEntry, Status, success, insufficient_resources, first_frame,
}
use project_ram_crisis.Driver.Compare.{compare_page_entries}
use project_ram_crisis.Driver.State.{
  DriverState, DedupeContext, Action, pure, acquire, release, ◌>>=◌, ◌>>◌,
}
use project_ram_crisis.Driver.Groups.{Rooms, add_frame, mark_page_shared}

abbrev pub new_entry : ℕ → PageSignature → PageEntry
new_entry pfn signature = record {
  signature = signature;
  reference_count = 1;
  page_frame_numbers = pfn ∷ [];
  shared = false;
}

-- An entry that was there, after the search for the page frame.
unfoldable pub join_entry : ℕ → PageEntry → PageEntry
join_entry pfn entry = if has pfn entry.page_frame_numbers then entry else record entry {
  page_frame_numbers = add_frame pfn entry.page_frame_numbers;
  reference_count = add32 entry.reference_count 1;
}

-- Whether the entry is promoted now.
abbrev pub is_promoted : PageEntry → Bool
is_promoted entry = leb 2 entry.reference_count && not entry.shared

-- What the part under the mutex leaves: a status, and the page frame and signature to promote.
abbrev pub Promotion : Type 0
Promotion = Status × Option (ℕ × PageSignature)

module _ (k : Kernel) where
  abbrev pub compare_entries : PageEntry → PageEntry → ℤ
  compare_entries = compare_page_entries k.memory

  abbrev pub with_page_table : DriverState k → k.tables.Table PageEntry → DriverState k
  with_page_table s t = record s { context = record s.context { page_table = t } }

  -- The entry that was there is updated, and marked as shared where it is promoted.
  unfoldable pub update_entry : ℕ → ℕ → PageEntry → k.tables.Table PageEntry → Action k Promotion
  unfolding join_entry
  update_entry pfn place inserted t s =
      let joined = join_entry pfn inserted in
      if is_promoted joined
      then some (
        (success, some (first_frame 0 inserted.page_frame_numbers, inserted.signature)),
        with_page_table s (k.tables.assign t place (record joined { shared = true })),
      )
      else some ((success, none), with_page_table s (k.tables.assign t place joined))

  unfoldable pub insert_page : Bool → ℕ → PageSignature → Action k Promotion
  unfolding update_entry
  insert_page room pfn signature s =
      elim (k.tables.insert compare_entries room s.context.page_table (new_entry pfn signature)) [
        | none ↦ some ((insufficient_resources, none), s)
        | some (t, place, new) ↦
            let inserted = get_or (k.tables.elements t) place (new_entry pfn signature) in
            if new
            then some ((success, none), with_page_table s t)
            else update_entry pfn place inserted t s
      ]

  -- The status of `MarkPageShared` is ignored.
  unfoldable pub finish_page : Rooms → Promotion → Action k Status
  unfolding mark_page_shared
  finish_page rooms (status, none) = pure status
  finish_page rooms (status, some (pfn, signature)) = do
    ignored ← mark_page_shared k rooms pfn signature
    pure status

  unfoldable pub add_page_entry : Rooms → ℕ → PageSignature → Action k Status
  unfolding insert_page finish_page
  add_page_entry rooms pfn signature = do
    acquire
    promotion ← insert_page rooms.page pfn signature
    release
    finish_page rooms promotion
