-- ===== src/Engine/Scan/Scanned.antt =====
-- What one scan makes of a region and of the counters, and what a later scan of it does.
use project_ram_crisis.Prelude.{
  ℕ, ◌+◌, ◌*◌, ◌≤◌, ◌≡◌, refl, inl, inr, [], some, length, arith, size_max, add64, count_if,
  Bool-cases, true,
}
use project_ram_crisis.Engine.Data.{MemoryRegion, Stats, page_size, is_shared}
use project_ram_crisis.Engine.Reference.{dedupe, merges}
use project_ram_crisis.Engine.Reference.Laws.{count-shared-dedupe, dedupe-dedupe, length-dedupe}
use project_ram_crisis.Engine.Scan.{scan_region}
use project_ram_crisis.Engine.Scan.Loop.{AllReady, AreWords}
use project_ram_crisis.Engine.Scan.Region.{
  rescanned, scan_region-dedupe, scan_region-opted_out, AllReady-dedupe, AreWords-Counted,
}

-- How many pages of a region are shared.
abbrev pub shared_of : MemoryRegion → ℕ
shared_of region = count_if is_shared region.pages

-- No page was merged between these.
pub record SavesNothing (a b : Stats) : Type 0 where
  pub duplicate : b.duplicate_pages ≡ a.duplicate_pages
  pub saved : b.bytes_saved ≡ a.bytes_saved

-- Whatever was counted before, a scan of the region returns, leaves it and saves nothing.
abbrev pub StaysSame : MemoryRegion → Type 0
StaysSame region =
    (stats : Stats)
    → AreWords stats
    → (after : Stats) × (scan_region stats region ≡ some (after, region))
      × AreWords after
      × SavesNothing stats after

pub record Scanned (stats : Stats) (region : MemoryRegion) (after : Stats) (result : MemoryRegion)
    (merged : ℕ) : Type 0 where
  pub run : scan_region stats region ≡ some (after, result)
  pub same_name : result.name ≡ region.name
  pub same_size : length result.pages ≡ length region.pages
  pub ready : AllReady result.pages
  pub words : AreWords after
  pub shared : shared_of result ≡ shared_of region + merged
  pub duplicate : after.duplicate_pages ≡ add64 stats.duplicate_pages merged
  pub saved : after.bytes_saved ≡ add64 stats.bytes_saved (page_size * merged)
  pub settled : StaysSame result

rescanned-StaysSame :
    (region : MemoryRegion)
    → region.opt_in ≡ true
    → length region.pages ≤ size_max
    → AllReady region.pages
    → StaysSame (rescanned region)
rescanned-StaysSame region opted fits ready stats words =
    let (after, run, counts) = scan_region-dedupe stats (rescanned region) (record {
      opted_in = opted;
      fits = omega (arith, fits, length-dedupe [] 0 region.pages);
      ready = AllReady-dedupe [] 0 region.pages ready;
      words = words;
    }) in
    let (same, none_left) = dedupe-dedupe [] 0 region.pages in
    (
      after,
      rw same at run,
      AreWords-Counted (dedupe [] 0 region.pages) stats after counts,
      record {
        duplicate = omega (arith, counts.duplicate, none_left, words.duplicate);
        saved = omega (arith, counts.saved, none_left, words.saved);
      },
    )

pub scan_region-Scanned :
    (stats : Stats) (region : MemoryRegion)
    → length region.pages ≤ size_max
    → AllReady region.pages
    → AreWords stats
    → (after : Stats) × (result : MemoryRegion) × (merged : ℕ) × Scanned stats region after result
        merged
scan_region-Scanned stats region fits ready words = elim (Bool-cases region.opt_in) [
  | inl opted ↦
      let (after, run, counts) =
        scan_region-dedupe stats region
          (record { opted_in = opted; fits = fits; ready = ready; words = words }) in
      (
        after,
        rescanned region,
        merges [] 0 region.pages,
        record {
          run = run;
          same_name = refl;
          same_size = length-dedupe [] 0 region.pages;
          ready = AllReady-dedupe [] 0 region.pages ready;
          words = AreWords-Counted region.pages stats after counts;
          shared = count-shared-dedupe [] 0 region.pages;
          duplicate = counts.duplicate;
          saved = counts.saved;
          settled = rescanned-StaysSame region opted fits ready;
        },
      )
  | inr out ↦ (
    stats,
    region,
    0,
    record {
      run = scan_region-opted_out stats region out;
      same_name = refl;
      same_size = refl;
      ready = ready;
      words = words;
      shared = omega arith;
      duplicate = omega (arith, words.duplicate);
      saved = omega (arith, words.saved);
      settled = λ later ok. (
        later,
        scan_region-opted_out later region out,
        ok,
        record { duplicate = refl; saved = refl },
      );
    },
  )
]
