-- ===== src/Engine/Scan.antt =====
-- `pagesAreEqual`, `mergePage` and `scanRegion` of user/dedupe_engine.cpp. `none` is undefined
-- behaviour: a read outside a vector.
mod Agreement
mod Steps
pub mod Loop
pub mod Region
pub mod Sharing
pub mod Scanned
use project_ram_crisis.Prelude.{
  ℕ, zero, suc, ◌+◌, Bool, true, false, List, [], ◌∷◌, Option, none, some, length, get_elem?, set,
  ◌==◌, ◌&&◌, if◌then◌else◌, ◌>>=◌, add64,
}
use project_ram_crisis.Engine.Data.{
  PageSignature, Page, MemoryRegion, Stats, mark_shared, page_size,
}
use project_ram_crisis.Engine.Signature.{make_signature}
use project_ram_crisis.Engine.SignatureMap.{SignatureMap, lookup_list, insert_default, push_back}

-- `std::memcmp(a, b, n) == 0` on two arrays of n bytes.
pub same_bytes : List ℕ → List ℕ → Bool
same_bytes [] ys = true
same_bytes (x ∷ xs) [] = true
same_bytes (x ∷ xs) (y ∷ ys) = x == y && same_bytes xs ys

pub pages_are_equal : Page → Page → Bool
unfolding same_bytes
pages_are_equal a b = length a.bytes == length b.bytes && same_bytes a.bytes b.bytes

pub record ScanState : Type 0 where
  pub pages : List Page
  pub stats : Stats
  pub signature_map : SignatureMap

abbrev count_duplicate : Stats → Stats
count_duplicate s = record s {
  duplicate_pages = add64 s.duplicate_pages 1;
  bytes_saved = add64 s.bytes_saved page_size;
}

pub merge_page : ℕ → ℕ → ScanState → Option ScanState
merge_page index representative s = do
  page ← get_elem? s.pages index
  if page.home_index == representative
      then some s
      else some (record s {
        pages = set s.pages index (mark_shared page representative);
        stats = count_duplicate s.stats;
      })

-- The loop over the collision list: the first index whose page equals this one, if there is one.
pub find_representative : List Page → Page → List ℕ → Option (Option ℕ)
find_representative pages page [] = some none
find_representative pages page (representative ∷ rest) =
    get_elem? pages representative >>= λ candidate. elim (pages_are_equal candidate page) [
      | true ↦ some (some representative)
      | false ↦ find_representative pages page rest
    ]

abbrev count_kept : Stats → Stats
count_kept s = record s { unique_pages = add64 s.unique_pages 1 }

-- `if (!duplicateFound)`: a page with no representative becomes one.
pub keep_page : PageSignature → ℕ → ScanState → ScanState
keep_page signature index s = record s {
  signature_map = push_back signature index s.signature_map;
  stats = count_kept s.stats;
}

abbrev count_scanned : ℕ → Stats → Stats
count_scanned probes s = record s {
  pages_scanned = add64 s.pages_scanned 1;
  collision_probes = add64 s.collision_probes probes;
}

pub settle : PageSignature → ℕ → Option ℕ → ScanState → Option ScanState
unfolding merge_page keep_page
settle signature index (some representative) s = merge_page index representative s
settle signature index none s = some (keep_page signature index s)

-- The body of the loop, for a page that is not shared.
pub scan_unshared : ℕ → Page → ScanState → Option ScanState
unfolding make_signature settle
scan_unshared index page s = do
  signature ← make_signature page
  let list = lookup_list signature s.signature_map
  found ← find_representative s.pages page list
  settle signature index found (record s {
    signature_map = insert_default signature s.signature_map;
    stats = count_scanned (length list) s.stats;
  })

-- One round of the loop.
pub scan_page : ℕ → ScanState → Option ScanState
unfolding scan_unshared
scan_page index s = do
  page ← get_elem? s.pages index
  if page.shared then some s else scan_unshared index page s

-- The loop, with the rounds left first.
pub scan_loop : ℕ → ℕ → ScanState → Option ScanState
scan_loop zero index s = some s
scan_loop (suc rounds) index s = scan_page index s >>= λ t. scan_loop rounds (suc index) t

pub scan_region : Stats → MemoryRegion → Option (Stats × MemoryRegion)
unfolding scan_loop scan_page
scan_region stats region =
    if region.opt_in
    then (scan_loop (length region.pages) 0
          (record { pages = region.pages; stats = stats; signature_map = [] })
        >>= λ t. some (t.stats, record region { pages = t.pages }))
    else some (stats, region)
