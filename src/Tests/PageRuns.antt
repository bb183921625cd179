-- ===== src/Tests/PageRuns.antt =====
-- The theorems of the driver on its page table and on protected pages.
use project_ram_crisis.Prelude.{ℕ, ◌≡◌, refl, true, false, List, [], ◌∷◌, none, some, length, arith}
use project_ram_crisis.Driver.Data.{
  PageSignature, PageEntry, DedupeDriverStats, Status, success, not_supported,
}
use project_ram_crisis.Driver.Compare.{
  compare_page_entries, compare_keys, are_physical_pages_identical,
}
use project_ram_crisis.Driver.CowRegistry.{register_cow_protected_page}
use project_ram_crisis.Driver.CowRegistry.Laws.{protected_frames}
use project_ram_crisis.Driver.CowFault.{cow_fault_callback}
use project_ram_crisis.Driver.CowFault.Laws.{cow_fault_callback-misses}
use project_ram_crisis.Driver.State.{DriverState, Action}
use project_ram_crisis.Driver.State.Lock.{IsFree}
use project_ram_crisis.Driver.Groups.{Rooms, new_group}
use project_ram_crisis.Driver.Pages.{
  new_entry, join_entry, is_promoted, compare_entries, with_page_table, add_page_entry,
}
use project_ram_crisis.Driver.Pages.Laws.{
  page_entries, AllNew, AreIdentical, add_pages, add_page_entry-none, add_pages-AllNew,
}
use project_ram_crisis.Driver.Drain.{drain_loop}
use project_ram_crisis.Driver.Drain.Laws.{drain_loop-none}
use project_ram_crisis.Driver.Query.{query_dedupe_stats}
use project_ram_crisis.Driver.Query.Laws.{reply_of}
use project_ram_crisis.Driver.Query.Unseen.{query_dedupe_stats-unseen}
use project_ram_crisis.Tests.Machine.{machine, quiet, list_insert}

abbrev rooms : Rooms
rooms = record { page = true; group = true; cow = true }

abbrev page_signature : PageSignature
page_signature = record { hash = 7; fingerprint = 1 }

-- A page of it stands behind one of the other signature.
abbrev greater : PageSignature
greater = record { hash = 8; fingerprint = 1 }

-- The state with these entries in its page table.
abbrev holding : List PageEntry → DriverState machine
holding entries = with_page_table machine quiet entries

-- The routine answers -1 for the page and the entry, and this kernel takes it for GenericEqual.
found_first :
    list_insert
      (compare_entries machine)
      true
      (new_entry 5 greater ∷ [])
      (new_entry 6 page_signature)
    ≡ some (new_entry 5 greater ∷ [], 0, false)
unfolding compare_page_entries compare_keys
found_first = refl

now_promoted : is_promoted (join_entry 6 (new_entry 5 greater)) ≡ true
unfolding join_entry
now_promoted = refl

add_page_entry-none_example :
    add_page_entry machine rooms 6 page_signature (holding (new_entry 5 greater ∷ [])) ≡ none
add_page_entry-none_example =
    add_page_entry-none machine rooms 6 0 0 page_signature true (holding (new_entry 5 greater ∷ []))
      (new_entry 5 greater ∷ []) (new_group 5 greater ∷ []) (new_entry 5 greater) refl found_first
      refl now_promoted refl

-- All pages of the machine's memory are identical.
abbrev AnyFrame : ℕ → Type 0
AnyFrame pfn = Unit

AnyFrame-AreIdentical : AreIdentical machine page_signature AnyFrame
unfolding are_physical_pages_identical
AnyFrame-AreIdentical a b p q = ground arith

add_pages-AllNew_example :
    (t : DriverState machine) × (add_pages machine page_signature AnyFrame rooms
        (5 ∷ 6 ∷ 5 ∷ [])
        quiet
      ≡ some (tt, t))
    × IsFree t
    × AllNew machine page_signature AnyFrame (page_entries machine t)
    × (length (page_entries machine t) ≡ 3)
add_pages-AllNew_example =
    add_pages-AllNew machine page_signature AnyFrame rooms (5 ∷ 6 ∷ 5 ∷ []) quiet
      AnyFrame-AreIdentical refl refl tt (tt, (tt, (tt, tt)))

drain_loop-none_example : drain_loop machine 9 (holding (new_entry 5 page_signature ∷ [])) ≡ none
drain_loop-none_example =
    drain_loop-none machine 9 page_signature AnyFrame (new_entry 5 page_signature) []
      (holding (new_entry 5 page_signature ∷ [])) AnyFrame-AreIdentical refl ((5, tt, refl), tt)

query_dedupe_stats-unseen_example :
    (t : DriverState machine) × (stats : DedupeDriverStats) × (add_pages machine page_signature
        AnyFrame rooms
        (5 ∷ 6 ∷ [])
        quiet
      ≡ some (tt, t))
    × (query_dedupe_stats machine 12 t ≡ some (reply_of 12 stats, t))
    × (stats.total_page_entries ≡ 2)
    × (stats.duplicate_page_entries ≡ 0)
query_dedupe_stats-unseen_example =
    query_dedupe_stats-unseen machine page_signature AnyFrame rooms (5 ∷ 6 ∷ []) 12 quiet
      AnyFrame-AreIdentical refl refl tt (tt, (tt, tt)) (omega arith) (omega arith)

abbrev joined_twice : PageEntry
joined_twice = record {
  signature = page_signature;
  reference_count = 2;
  page_frame_numbers = 5 ∷ 6 ∷ [];
  shared = true;
}

-- A private copy would be made at once, and changes nothing here.
abbrev copy_at_once : ℕ → ℕ → Action machine Status
copy_at_once address pfn s = some (success, s)

cow_fault_callback-misses_example :
    (t : DriverState machine) × (register_cow_protected_page machine true 3 quiet
      ≡ some (success, t))
    × (length (protected_frames machine t) ≡ 2)
    × (cow_fault_callback machine copy_at_once 12289 true t ≡ some (not_supported, t))
cow_fault_callback-misses_example =
    cow_fault_callback-misses machine copy_at_once 12289 12289 true quiet
      (record { free = refl; all = (refl, tt) }) refl refl
