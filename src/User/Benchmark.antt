-- ===== src/User/Benchmark.antt =====
-- The benchmark of the engine, user/benchmark.cpp: `makePage`, `makeRegion` and `main`, whose last
-- line, a percentage in doubles, is left out.
pub mod Sampled
pub mod Savings
use project_ram_crisis.Prelude.{
  ℕ, zero, suc, ◌+◌, ◌*◌, ◌/◌, ◌%◌, Bool, true, false, not, ◌&&◌, List, [], ◌∷◌, if◌then◌else◌,
  ◌==◌, add64, Option, some, ◌>>=◌, length,
}
use project_ram_crisis.Engine.Data.{Page, MemoryRegion, Stats, new_page, no_stats, page_size}
use project_ram_crisis.Engine.Scan.{scan_region}
use project_ram_crisis.Driver.Policy.{codes}
use project_ram_crisis.User.Simulator.{page_bytes}

-- What `main` prints, in its order; `kilobytes_saved` is `bytesSaved / 1024`.
pub record Report : Type 0 where
  pub total_pages : ℕ
  pub pages_scanned : ℕ
  pub unique_pages : ℕ
  pub duplicate_pages : ℕ
  pub kilobytes_saved : ℕ
  pub write_cow_events : ℕ

unfoldable pub report : ℕ → Stats → Report
report total_pages stats = record {
  total_pages = total_pages;
  pages_scanned = stats.pages_scanned;
  unique_pages = stats.unique_pages;
  duplicate_pages = stats.duplicate_pages;
  kilobytes_saved = stats.bytes_saved / 1024;
  write_cow_events = stats.write_cow_events;
}

-- `draw seed i` is what std::mt19937_64 with this seed returns when it is called for the i-th time.
module _ (draw : ℕ → ℕ → ℕ) where
  unfoldable pub make_page : ℕ → ℕ → List ℕ
  make_page base_value seed = page_bytes draw page_size 0 base_value seed

  -- `samplePages[j]`.
  unfoldable pub sample_page : ℕ → ℕ → List ℕ
  unfolding make_page
  sample_page content_seed j = make_page ((content_seed + j * 8) % 256) (content_seed + 17 + j * 11)

  -- The bytes of page i.
  unfoldable pub region_page : Bool → ℕ → ℕ → List ℕ
  unfolding sample_page make_page
  region_page opt_in content_seed i =
      if opt_in && not (i % 4 == 3)
      then sample_page content_seed (i % 4)
      else make_page ((content_seed + 3) % 256) (add64 (content_seed + 90) i)

  -- The loop over the pages, with the rounds left first.
  unfoldable pub region_pages : ℕ → ℕ → Bool → ℕ → List Page
  unfolding region_page
  region_pages zero i opt_in content_seed = []
  region_pages (suc rounds) i opt_in content_seed =
      new_page (region_page opt_in content_seed i) ∷ region_pages rounds (suc i) opt_in content_seed

  unfoldable pub make_region : List ℕ → Bool → ℕ → ℕ → MemoryRegion
  unfolding region_pages
  make_region name opt_in pages content_seed = record {
    name = name;
    opt_in = opt_in;
    pages = region_pages pages 0 opt_in content_seed;
  }

  abbrev pub browser : MemoryRegion
  browser = make_region (codes "BrowserTabs") true 120 0x10

  abbrev pub electron : MemoryRegion
  electron = make_region (codes "ElectronApp") true 72 0x40

  abbrev pub service : MemoryRegion
  service = make_region (codes "ServiceCache") true 48 0x70

  abbrev pub kernel : MemoryRegion
  kernel = make_region (codes "KernelMemory") false 32 0xA0

  unfoldable pub main : Option Report
  unfolding make_region report
  main = do
    (first, scanned_browser) ← scan_region no_stats browser
    (second, scanned_electron) ← scan_region first electron
    (third, scanned_service) ← scan_region second service
    (stats, scanned_kernel) ← scan_region third kernel
    some (
        report
          (length scanned_browser.pages
            + length scanned_electron.pages
            + length scanned_service.pages
            + length scanned_kernel.pages)
          stats)
