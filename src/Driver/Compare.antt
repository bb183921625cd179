-- ===== src/Driver/Compare.antt =====
-- The comparison routines of driver/deduper.cpp.
pub mod Order
use project_ram_crisis.Prelude.{ℕ, Bool, true, false, ℤ, pos, negsuc, ltb, ◌==◌, if◌then◌else◌}
use project_ram_crisis.Driver.Kernel.{PhysicalMemory}
use project_ram_crisis.Driver.Data.{
  PageSignature, ProcessOptInEntry, SharedPageGroup, CowProtectedPage, PageEntry, first_frame,
}

unfoldable pub compare_process_entries : ProcessOptInEntry → ProcessOptInEntry → ℤ
compare_process_entries left right =
    if ltb left.process_id right.process_id
    then negsuc 0
    else if ltb right.process_id left.process_id
    then pos 1
    else pos 0

unfoldable pub compare_cow_protected_pages : CowProtectedPage → CowProtectedPage → ℤ
compare_cow_protected_pages left right =
    if ltb left.page_frame_number right.page_frame_number
    then negsuc 0
    else if ltb right.page_frame_number left.page_frame_number
    then pos 1
    else pos 0

-- Two mapped pages with the same bytes; a page that cannot be mapped equals only itself.
unfoldable pub are_physical_pages_identical : PhysicalMemory → ℕ → ℕ → Bool
are_physical_pages_identical memory left right =
    if left == right
    then true
    else if memory.maps left
    then (if memory.maps right then memory.same_page left right else false)
    else false

-- `ComparePageEntries` reads the signature and the first page frame number, which stand at the
-- same offsets in a PageEntry and in a SharedPageGroup.
unfoldable pub compare_keys : PhysicalMemory → PageSignature × ℕ → PageSignature × ℕ → ℤ
compare_keys memory (left, left_pfn) (right, right_pfn) =
    if ltb left.hash right.hash
    then negsuc 0
    else if ltb right.hash left.hash
    then pos 1
    else if ltb left.fingerprint right.fingerprint
    then negsuc 0
    else if ltb right.fingerprint left.fingerprint
    then pos 1
    else if are_physical_pages_identical memory left_pfn right_pfn
    then pos 0
    else if ltb left_pfn right_pfn
    then negsuc 0
    else pos 1

abbrev pub page_key : PageEntry → PageSignature × ℕ
page_key entry = (entry.signature, first_frame 0 entry.page_frame_numbers)

abbrev pub group_key : SharedPageGroup → PageSignature × ℕ
group_key group = (group.signature, first_frame group.left_over group.page_frame_numbers)

unfoldable pub compare_page_entries : PhysicalMemory → PageEntry → PageEntry → ℤ
compare_page_entries memory left right = compare_keys memory (page_key left) (page_key right)

-- The same routine, as the shared group table calls it.
unfoldable pub compare_page_groups : PhysicalMemory → SharedPageGroup → SharedPageGroup → ℤ
compare_page_groups memory left right = compare_keys memory (group_key left) (group_key right)
