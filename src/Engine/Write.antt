-- ===== src/Engine/Write.antt =====
-- `clonePageForWrite` and `writeToPage` of user/dedupe_engine.cpp. `none` is a read outside a vector.
pub mod Laws
pub mod Isolation
use project_ram_crisis.Prelude.{
  ℕ, List, [], ◌∷◌, Option, none, some, length, get_elem?, set, replicate, ltb, if◌then◌else◌,
  ◌>>=◌, add64,
}
use project_ram_crisis.Engine.Data.{Page, MemoryRegion, Stats, new_page, page_size}

abbrev pub Engine : Type 0
Engine = Stats × List Page

abbrev pub count_cow : Stats → Stats
count_cow s = record s { write_cow_events = add64 s.write_cow_events 1 }

pub clone_page_for_write : ℕ → Engine → Option Engine
unfolding new_page
clone_page_for_write index (stats, pages) = do
  page ← get_elem? pages index
  if page.shared
      then some (count_cow stats, set pages index (new_page page.bytes))
      else some (stats, pages)

-- `if (page.data.empty()) page.data.resize(PageSize)`.
unfoldable pub resized : List ℕ → List ℕ
resized [] = replicate page_size 0
resized (byte ∷ rest) = byte ∷ rest

-- The page after `page.data[0] = value`.
unfoldable pub store : ℕ → Page → Page
unfolding resized
store value page = record page { bytes = set (resized page.bytes) 0 value }

abbrev pub count_write : Stats → Stats
count_write s = record s { writes_emulated = add64 s.writes_emulated 1 }

-- What `writeToPage` does to a page inside the region, from `stats.writesEmulated += 1` on.
pub write_inside : ℕ → ℕ → Engine → Option Engine
unfolding clone_page_for_write store
write_inside index value (stats, pages) = do
  page ← get_elem? pages index
  (cloned, current) ←
      (if page.shared
        then clone_page_for_write index (count_write stats, pages)
        else some (count_write stats, pages))
  target ← get_elem? current index
  some (cloned, set current index (store value target))

pub write_to_page : Stats → MemoryRegion → ℕ → ℕ → Option (Stats × MemoryRegion)
unfolding write_inside
write_to_page stats region index value =
    if ltb index (length region.pages)
    then (write_inside index value (stats, region.pages) >>= λ (after, pages).
        some (after, record region { pages = pages }))
    else some (stats, region)
