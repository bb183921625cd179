-- ===== src/Driver/Drain.antt =====
-- `DrainDedupeState` of driver/deduper.cpp.
pub mod Laws
use project_ram_crisis.Prelude.{
  ℕ, zero, suc, List, [], ◌∷◌, Option, none, some, length, true, false,
}
use project_ram_crisis.Driver.Kernel.{Kernel, GenericTables}
use project_ram_crisis.Driver.Data.{PageSignature, PageEntry, Status, success}
use project_ram_crisis.Driver.State.{DriverState, DedupeContext, Action, pure, ◌>>=◌, ◌>>◌}
use project_ram_crisis.Driver.Groups.{unmark_page_shared}
use project_ram_crisis.Driver.Pages.{compare_entries, with_page_table}

module _ (k : Kernel) where
  -- The loop over the page frames of a shared entry; each status is ignored.
  unfoldable pub unmark_all : List ℕ → PageSignature → Action k (Unit {0})
  unfolding unmark_page_shared
  unmark_all [] signature = pure tt
  unmark_all (pfn ∷ rest) signature = do
    ignored ← unmark_page_shared k pfn signature
    unmark_all rest signature

  -- The deletion of an entry from the page table.
  unfoldable pub delete_entry : PageEntry → Action k (Unit {0})
  delete_entry entry s =
      some
        (tt, with_page_table k s (k.tables.delete (compare_entries k) s.context.page_table entry).0)

  -- One round of the loop, for the first entry of the enumeration.
  unfoldable pub drain_entry : PageEntry → Action k (Unit {0})
  unfolding unmark_all delete_entry
  drain_entry entry = elim entry.shared [
    | true ↦ unmark_all entry.page_frame_numbers entry.signature >> delete_entry entry
    | false ↦ delete_entry entry
  ]

  -- The loop, while there is a first entry. With no fuel left and an entry still there it is
  -- `none`: the loop has not returned.
  unfoldable pub drain_loop : ℕ → Action k (Unit {0})
  unfolding drain_entry
  drain_loop zero s = elim (k.tables.elements s.context.page_table) [
    | [] ↦ some (tt, s)
    | entry ∷ rest ↦ none
  ]
  drain_loop (suc fuel) s = elim (k.tables.elements s.context.page_table) [
    | [] ↦ some (tt, s)
    | entry ∷ rest ↦ (drain_entry entry >> drain_loop fuel) s
  ]

  -- A round either takes an entry off the table or leaves the table as it was, and then so does every
  -- later round: with the number of the entries as fuel, a loop that ends has ended.
  unfoldable pub drain_dedupe_state : Action k Status
  unfolding drain_loop
  drain_dedupe_state s =
      (drain_loop (length (k.tables.elements s.context.page_table)) >> pure success) s
