-- ===== src/Engine/Write/Laws.antt =====
-- What a write does to a region, whether the page was shared or not.
use project_ram_crisis.Prelude.{
  ℕ, zero, suc, ◌<◌, ◌≤◌, ◌≡◌, refl, ap, ◌∙◌, inl, inr, true, false, List, [], ◌∷◌, some, arith,
  length, get_elem?, set, length-replicate, length-set, lt-get_elem?, get_elem?-set_self, set-set,
  lt→ltb, if◌then◌else◌, Bool-cases, size_max,
}
use project_ram_crisis.Engine.Data.{Page, MemoryRegion, Stats, new_page, page_size}
use project_ram_crisis.Engine.Write.{
  count_cow, count_write, clone_page_for_write, resized, store, write_inside, write_to_page,
}

-- The page after a write: a shared page is cloned first.
abbrev pub written : ℕ → Page → Page
written value page = store value (if page.shared then new_page page.bytes else page)

abbrev pub counted : Page → Stats → Stats
counted page stats = if page.shared then count_cow (count_write stats) else count_write stats

write_inside_lem :
    (index value : ℕ) (stats : Stats) (pages : List Page) (page : Page)
    → get_elem? pages index ≡ some page
    → write_inside index value (stats, pages)
      ≡ some (counted page stats, set pages index (written value page))
unfolding write_inside clone_page_for_write
write_inside_lem index value stats pages page at = elim (Bool-cases page.shared) [
  | inl e ↦ simp (
    at,
    e,
    get_elem?-set_self pages index (new_page page.bytes) (lt-get_elem? pages index page at),
    set-set,
  )
  | inr e ↦ simp (at, e)
]

pub write_to_page-inside :
    (stats : Stats) (region : MemoryRegion) (index value : ℕ) (page : Page)
    → get_elem? region.pages index ≡ some page
    → write_to_page stats region index value
      ≡ some (
        counted page stats,
        record region { pages = set region.pages index (written value page) },
      )
unfolding write_to_page
write_to_page-inside stats region index value page at =
    rw (lt→ltb index (length region.pages) (lt-get_elem? region.pages index page at))
      (rw (write_inside_lem index value stats region.pages page at))

pub write_to_page-outside :
    (stats : Stats) (region : MemoryRegion) (index value : ℕ)
    → length region.pages ≤ index
    → write_to_page stats region index value ≡ some (stats, region)
unfolding write_to_page
write_to_page-outside stats region index value h = ground arith

resized-nonempty : (bytes : List ℕ) → 0 < length (resized bytes)
unfolding resized
resized-nonempty [] = omega (arith, length-replicate page_size (zero))
resized-nonempty (byte ∷ rest) = omega arith

resized-kept :
    (bytes : List ℕ) (i value : ℕ)
    → 0 < i
    → i < length bytes
    → get_elem? (set (resized bytes) 0 value) i ≡ get_elem? bytes i
unfolding resized
resized-kept [] i value pos h = elim h [ ]
resized-kept (byte ∷ rest) zero value pos h = elim pos [ ]
resized-kept (byte ∷ rest) (suc i) value pos h = refl

-- The new page is private and homeless, holds the value, and keeps its other bytes.
pub record IsWritten (value : ℕ) (before after : Page) : Type 0 where
  pub private : after.shared ≡ false
  pub home : before.shared ≡ true → after.home_index ≡ size_max
  pub same_home : before.shared ≡ false → after.home_index ≡ before.home_index
  pub stored : get_elem? after.bytes 0 ≡ some value
  pub kept :
      (i : ℕ) → 0 < i → i < length before.bytes → get_elem? after.bytes i ≡ get_elem? before.bytes i
  pub size : length after.bytes ≡ length (resized before.bytes)

pub bytes-written :
    (value : ℕ) (page : Page) → (written value page).bytes ≡ set (resized page.bytes) 0 value
unfolding store new_page
bytes-written value page = elim (Bool-cases page.shared) [ inl e ↦ simp e | inr e ↦ simp e ]

pub written-IsWritten : (value : ℕ) (page : Page) → IsWritten value page (written value page)
written-IsWritten value page = record {
  private = unfold store new_page in ground arith;
  home = λ e. unfold store new_page in simp e;
  same_home = λ e. unfold store new_page in simp e;
  stored =
      ap (λ l. get_elem? l 0) (bytes-written value page)
      ∙ get_elem?-set_self (resized page.bytes) 0 value (resized-nonempty page.bytes);
  kept = λ i pos h.
      ap (λ l. get_elem? l i) (bytes-written value page) ∙ resized-kept page.bytes i value pos h;
  size = ap length (bytes-written value page) ∙ length-set (resized page.bytes) 0 value;
}
