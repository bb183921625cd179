-- ===== src/Engine/Write/Isolation.antt =====
-- A write reaches one page only; and what that means for the pages that share its content.
use project_ram_crisis.Prelude.{
  ℕ, ◌≡◌, ◌≢◌, sym, ap, ◌∙◌, true, some, get_elem?, set, get_elem?-set_self, get_elem?-set_ne,
  lt-get_elem?, if◌then◌else◌, add64, arith,
}
use project_ram_crisis.Engine.Data.{Page, MemoryRegion, Stats}
use project_ram_crisis.Engine.Reference.Sharing.{HasTwin}
use project_ram_crisis.Engine.Write.{write_to_page}
use project_ram_crisis.Engine.Write.Laws.{
  written, counted, IsWritten, written-IsWritten, write_to_page-inside,
}

-- A write to a page of the region gives that page a private copy with the value in its first
-- byte, leaves every other page as it was, and counts one write, and one copy if it was shared.
pub write_to_page-isolated :
    (stats : Stats) (region : MemoryRegion) (index value : ℕ) (page : Page)
    → get_elem? region.pages index ≡ some page
    → (after : Stats) × (result : MemoryRegion) × (q : Page) × (write_to_page stats region index
          value
        ≡ some (after, result))
      × (get_elem? result.pages index ≡ some q)
      × IsWritten value page q
      × ((j : ℕ) → index ≢ j → get_elem? result.pages j ≡ get_elem? region.pages j)
      × (after.writes_emulated ≡ add64 stats.writes_emulated 1)
      × (after.write_cow_events
          ≡ (if page.shared then add64 stats.write_cow_events 1 else stats.write_cow_events))
write_to_page-isolated stats region index value page at = (
  counted page stats,
  record region { pages = set region.pages index (written value page) },
  written value page,
  write_to_page-inside stats region index value page at,
  get_elem?-set_self region.pages index _ (lt-get_elem? region.pages index page at),
  written-IsWritten value page,
  λ j away. get_elem?-set_ne region.pages index j _ away,
  ground arith,
  ground arith,
)

-- Let a page be shared, and let its home be another page, not shared itself, of the same content. A
-- write to the home of a value other than the first byte makes no copy for the sharing page: that is
-- as it was, shared and with this home, and the content of the home is now a different one.
pub write_to_page-parts_twins :
    (stats : Stats) (region : MemoryRegion) (i value : ℕ) (p : Page)
    → get_elem? region.pages i ≡ some p
    → p.shared ≡ true
    → HasTwin region.pages p.home_index p.bytes
    → p.home_index ≢ i
    → get_elem? p.bytes 0 ≢ some value
    → (after : Stats) × (result : MemoryRegion) × (q : Page) × (write_to_page stats region
          p.home_index value
        ≡ some (after, result))
      × (get_elem? result.pages i ≡ some p)
      × (get_elem? result.pages p.home_index ≡ some q)
      × (q.bytes ≢ p.bytes)
write_to_page-parts_twins stats region i value p at shared (home, here, _, _) away differs =
    let (after, result, q, run, there, new, others, _, _) =
      write_to_page-isolated stats region p.home_index value home here in
    (
      after,
      result,
      q,
      run,
      others i away ∙ at,
      there,
      λ e. differs (sym (ap (λ l. get_elem? l 0) e) ∙ new.stored),
    )
