-- ===== src/Engine/Scan/Region.antt =====
-- `scanRegion` as a whole: it implements the reference, whatever the hash functions return.
use project_ram_crisis.Prelude.{
  ℕ, suc, ◌≤◌, ◌≡◌, refl, true, false, List, [], ◌∷◌, ◌++◌, some, length, size_max, arith,
}
use project_ram_crisis.Engine.Data.{Page, MemoryRegion, Stats, mark_shared}
use project_ram_crisis.Engine.Reference.{Seen, dedupe, first_with}
use project_ram_crisis.Engine.Reference.Laws.{
  contents, contents-dedupe, length-dedupe, dedupe-dedupe, dedupe-shared, dedupe-kept,
  dedupe-merged, page-cases,
}
use project_ram_crisis.Engine.Reference.Sharing.{AllSettled, dedupe-AllSettled}
use project_ram_crisis.Engine.SignatureMap.{lookup_list}
use project_ram_crisis.Engine.Scan.{scan_region}
use project_ram_crisis.Engine.Scan.Loop.{AllReady, AreWords, Counted, scan_pages-Ends}

-- What a scan needs: an opted-in region whose pages can be indexed by a size_t and hashed, and
-- counters that hold 64-bit numbers.
pub record CanScan (stats : Stats) (region : MemoryRegion) : Type 0 where
  pub opted_in : region.opt_in ≡ true
  pub fits : length region.pages ≤ size_max
  pub ready : AllReady region.pages
  pub words : AreWords stats

abbrev pub rescanned : MemoryRegion → MemoryRegion
rescanned region = record region { pages = dedupe [] 0 region.pages }

-- A scan of an opted-in region, whose pages a size_t can index and whose pages that are not shared
-- have no home and can be hashed, returns: its pages are those of the reference, and the counters
-- of scanned, merged and kept pages and of saved bytes grow by what the reference counts, modulo
-- 2 ^ 64. The counters of writes stay.
pub scan_region-dedupe :
    (stats : Stats) (region : MemoryRegion)
    → CanScan stats region
    → (after : Stats) × (scan_region stats region ≡ some (after, rescanned region))
      × Counted [] 0 region.pages stats after
unfolding scan_region lookup_list
scan_region-dedupe stats region can =
    let (t, run, result, counts) =
      scan_pages-Ends region.pages [] [] 0 stats [] refl (omega (arith, can.fits)) can.ready tt
        (λ s. refl) can.words in
    (t.stats, simp can.opted_in (rw run (rw result)), counts)

pub AllReady-dedupe :
    (seen : Seen) (index : ℕ) (pages : List Page)
    → AllReady pages
    → AllReady (dedupe seen index pages)
unfolding dedupe
AllReady-dedupe seen index [] ready = tt
AllReady-dedupe seen index (page ∷ rest) ready =
    page-cases seen page (AllReady (dedupe seen index (page ∷ rest)))
      (λ shared.
        rw (dedupe-shared seen index page rest shared)
          (ready.0, AllReady-dedupe seen (suc index) rest ready.1))
      (λ free new.
        rw (dedupe-kept seen index page rest free new)
          (ready.0, AllReady-dedupe (seen ++ (index, page.bytes) ∷ []) (suc index) rest ready.1))
      (λ r free old.
        rw (dedupe-merged seen index page rest r free old)
          (unfold mark_shared in (λ f. cc), AllReady-dedupe seen (suc index) rest ready.1))

pub AreWords-Counted : (pages : List Page) (a b : Stats) → Counted [] 0 pages a b → AreWords b
AreWords-Counted pages a b c = omega (arith, c)

pub CanScan-rescanned :
    (stats after : Stats) (region : MemoryRegion)
    → CanScan stats region
    → Counted [] 0 region.pages stats after
    → CanScan after (rescanned region)
CanScan-rescanned stats after region can counts = record {
  opted_in = can.opted_in;
  fits = omega (arith, can.fits, length-dedupe [] 0 region.pages);
  ready = AllReady-dedupe [] 0 region.pages can.ready;
  words = AreWords-Counted region.pages stats after counts;
}

-- Two scans in a row of a region that can be scanned: the second returns the same pages, and
-- merges and saves nothing more.
pub scan_region-twice :
    (stats : Stats) (region : MemoryRegion)
    → CanScan stats region
    → (first second : Stats) × (scan_region stats region ≡ some (first, rescanned region))
      × (scan_region first (rescanned region) ≡ some (second, rescanned region))
      × (second.duplicate_pages ≡ first.duplicate_pages)
      × (second.bytes_saved ≡ first.bytes_saved)
scan_region-twice stats region can =
    let (first, run, counts) = scan_region-dedupe stats region can in
    let (second, again, more) =
      scan_region-dedupe first (rescanned region)
        (CanScan-rescanned stats first region can counts) in
    let (same, none_left) = dedupe-dedupe [] 0 region.pages in
    (first, second, run, rw same at again, omega arith, omega arith)

-- A scan of a region that can be scanned returns, and no page loses its content. A page that was
-- shared stays as it was; any other has no page of its content before it that is not shared, or is
-- now shared with such a page and nothing else in it has changed.
pub scan_region-AllSettled :
    (stats : Stats) (region : MemoryRegion)
    → CanScan stats region
    → (after : Stats) × (result : MemoryRegion) × (scan_region stats region ≡ some (after, result))
      × (contents result.pages ≡ contents region.pages)
      × AllSettled [] region.pages result.pages
scan_region-AllSettled stats region can =
    let (after, run, _) = scan_region-dedupe stats region can in
    (
      after,
      rescanned region,
      run,
      contents-dedupe [] 0 region.pages,
      dedupe-AllSettled [] region.pages [] 0 refl
          (unfold first_with in ((λ bytes r e. cc), (λ bytes e j q at. cc))),
    )

-- An opted-out region is left alone.
pub scan_region-opted_out :
    (stats : Stats) (region : MemoryRegion)
    → region.opt_in ≡ false
    → scan_region stats region ≡ some (stats, region)
unfolding scan_region
scan_region-opted_out stats region e = simp e
