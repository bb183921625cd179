-- ===== src/User/Simulator.antt =====
-- The simulator, user/dedupe_simulator.cpp: `makePage`, `makeRegion`, `countSharedPages`, and `main`
-- up to its first `requestScan`.
pub mod Sharing
pub mod Run
pub mod Report
pub mod Reporting
use project_ram_crisis.Prelude.{
  ℕ, zero, suc, ◌+◌, ◌*◌, ◌/◌, ◌%◌, Bool, true, false, List, [], ◌∷◌, if◌then◌else◌, ◌==◌, add64,
  Option, some, ◌>>=◌,
}
use project_ram_crisis.Engine.Data.{Page, MemoryRegion, new_page, page_size}
use project_ram_crisis.Driver.Policy.{codes}
use project_ram_crisis.User.Process.{ProcessState}
use project_ram_crisis.User.Scheduler.{
  ScanScheduler, new_scheduler, add_process, start, request_scan,
}

-- `countSharedPages`.
unfoldable pub count_shared : List Page → ℕ → ℕ
count_shared [] count = count
count_shared (page ∷ rest) count = count_shared rest (if page.shared then add64 count 1 else count)

unfoldable pub count_shared_pages : MemoryRegion → ℕ
unfolding count_shared
count_shared_pages region = count_shared region.pages 0

-- `draw seed i` is what std::mt19937_64 with this seed returns when it is called for the i-th time.
module _ (draw : ℕ → ℕ → ℕ) where
  -- The loop of `makePage`, with the rounds left first.
  unfoldable pub page_bytes : ℕ → ℕ → ℕ → ℕ → List ℕ
  page_bytes zero i base_value seed = []
  page_bytes (suc rounds) i base_value seed =
      (base_value + draw seed i % 256) % 256 ∷ page_bytes rounds (suc i) base_value seed

  unfoldable pub make_page : ℕ → ℕ → List ℕ
  unfolding page_bytes
  make_page base_value seed = page_bytes page_size 0 base_value seed

  -- `samplePages[j]`.
  unfoldable pub sample_page : ℕ → ℕ → List ℕ
  unfolding make_page
  sample_page content_seed j = make_page ((content_seed + j * 3) % 256) (content_seed + 17 + j * 11)

  -- The bytes of page i of an opted-in region.
  unfoldable pub opted_in_page : ℕ → ℕ → List ℕ
  unfolding sample_page make_page
  opted_in_page content_seed i =
      if i % 5 == 0
      then sample_page content_seed 0
      else if i % 5 == 1
      then sample_page content_seed 1
      else if i % 5 == 2
      then sample_page content_seed (i / 5 % 8)
      else if i % 5 == 3
      then sample_page content_seed (i / 3 % 8)
      else make_page ((content_seed + 2) % 256) (add64 (content_seed + 50) i)

  unfoldable pub region_page : Bool → ℕ → ℕ → List ℕ
  unfolding opted_in_page make_page
  region_page opt_in content_seed i =
      if opt_in
      then opted_in_page content_seed i
      else make_page ((content_seed + 4) % 256) (add64 (content_seed + 90) i)

  -- The loop over the pages, with the rounds left first.
  unfoldable pub region_pages : ℕ → ℕ → Bool → ℕ → List Page
  unfolding region_page
  region_pages zero i opt_in content_seed = []
  region_pages (suc rounds) i opt_in content_seed =
      new_page (region_page opt_in content_seed i) ∷ region_pages rounds (suc i) opt_in content_seed

  unfoldable pub make_region : List ℕ → Bool → ℕ → ℕ → MemoryRegion
  unfolding region_pages
  make_region name opt_in pages content_seed = record {
    name = name;
    opt_in = opt_in;
    pages = region_pages pages 0 opt_in content_seed;
  }

  -- The three processes of `main`.
  abbrev pub browser_process : ProcessState
  browser_process = record {
    pid = 101;
    name = codes "BrowserRenderer";
    opt_in = true;
    regions =
        make_region (codes "BrowserTabs") true 120 0x20
        ∷ make_region (codes "BrowserCache") true 32 0x21
        ∷ [];
  }

  abbrev pub electron_process : ProcessState
  electron_process = record {
    pid = 202;
    name = codes "ElectronApp";
    opt_in = true;
    regions =
        make_region (codes "ElectronMain") true 60 0x80
        ∷ make_region (codes "ElectronCache") true 24 0x83
        ∷ [];
  }

  abbrev pub system_process : ProcessState
  system_process = record {
    pid = 1;
    name = codes "SystemKernel";
    opt_in = false;
    regions = make_region (codes "KernelPrivate") false 40 0xC0 ∷ [];
  }

  -- `main` up to its first `requestScan`.
  unfoldable pub set_up : Option ScanScheduler
  unfolding add_process start request_scan
  set_up = do
    with_browser ← add_process browser_process new_scheduler
    with_electron ← add_process electron_process with_browser
    with_system ← add_process system_process with_electron
    some (request_scan (start with_system).0)
