-- ===== src/Engine/Scan/Sharing.antt =====
-- Which pages of a region a scan leaves shared, page by page.
use project_ram_crisis.Prelude.{ℕ, ◌<◌, ◌≡◌, ◌≢◌, true, false, [], some, get_elem?, arith}
use project_ram_crisis.Engine.Data.{Page, MemoryRegion, Stats}
use project_ram_crisis.Engine.Reference.Sharing.{HasTwin}
use project_ram_crisis.Engine.Reference.Settled.{AllSettled-twin, AllSettled-distinct}
use project_ram_crisis.Engine.Scan.{scan_region}
use project_ram_crisis.Engine.Scan.Region.{CanScan, scan_region-AllSettled}

-- A scan of a region that can be scanned returns, and a page that it newly shares has its home at a
-- smaller index, where a page of the same content stands that is not shared.
pub scan_region-twin :
    (stats : Stats) (region : MemoryRegion)
    → CanScan stats region
    → (after : Stats) × (result : MemoryRegion) × (scan_region stats region ≡ some (after, result))
      × ((k : ℕ) (p q : Page)
          → get_elem? region.pages k ≡ some p
          → get_elem? result.pages k ≡ some q
          → p.shared ≡ false
          → q.shared ≡ true
          → (q.home_index < k) × HasTwin result.pages q.home_index p.bytes)
scan_region-twin stats region can =
    let (after, result, run, _, settled) = scan_region-AllSettled stats region can in
    (
      after,
      result,
      run,
      λ k p q ep eq free shared.
          let (low, twin) =
            AllSettled-twin [] region.pages result.pages k p q settled ep eq free shared in
          (omega arith, twin),
    )

-- A scan of a region that can be scanned returns, and no two pages that are not shared after it
-- have the same content.
pub scan_region-distinct :
    (stats : Stats) (region : MemoryRegion)
    → CanScan stats region
    → (after : Stats) × (result : MemoryRegion) × (scan_region stats region ≡ some (after, result))
      × ((j k : ℕ) (p q : Page)
          → j < k
          → get_elem? result.pages j ≡ some p
          → get_elem? result.pages k ≡ some q
          → p.shared ≡ false
          → q.shared ≡ false
          → p.bytes ≢ q.bytes)
scan_region-distinct stats region can =
    let (after, result, run, _, settled) = scan_region-AllSettled stats region can in
    (
      after,
      result,
      run,
      λ j k p q low ep eq free alone.
          AllSettled-distinct [] region.pages result.pages j k p q settled (omega arith) ep eq free
            alone,
    )
