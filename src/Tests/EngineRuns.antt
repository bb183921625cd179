-- ===== src/Tests/EngineRuns.antt =====
-- The theorems of the engine, for a region of three pages of three bytes.
use project_ram_crisis.Prelude.{
  ℕ, ◌<◌, ◌≡◌, ◌≢◌, ◌↔◌, refl, true, false, List, [], ◌∷◌, some, length, get_elem?, if◌then◌else◌,
  size_max, add64, arith,
}
use project_ram_crisis.Engine.Data.{PageSignature, Page, MemoryRegion, Stats, no_stats}
use project_ram_crisis.Engine.Signature.{make_signature}
use project_ram_crisis.Engine.Signature.Bounds.{
  IsSampled, signature_of-total, make_signature-IsSampled,
}
use project_ram_crisis.Engine.Reference.Laws.{contents}
use project_ram_crisis.Engine.Reference.Sharing.{AllSettled, HasTwin}
use project_ram_crisis.Engine.Scan.{scan_region}
use project_ram_crisis.Engine.Scan.Loop.{no_stats-AreWords, IsReady, Counted}
use project_ram_crisis.Engine.Scan.Region.{
  CanScan, rescanned, scan_region-dedupe, scan_region-AllSettled, scan_region-twice,
}
use project_ram_crisis.Engine.Scan.Sharing.{scan_region-twin}
use project_ram_crisis.Engine.Write.{write_to_page}
use project_ram_crisis.Engine.Write.Laws.{IsWritten}
use project_ram_crisis.Engine.Write.Isolation.{write_to_page-isolated, write_to_page-parts_twins}
use project_ram_crisis.Engine.Session.{
  Request, scan, write, run, plain_run, IsSound, Refines, run-Refines,
}

abbrev page_of : List ℕ → Page
page_of bytes = record { bytes = bytes; home_index = size_max; shared = false }

abbrev low : List ℕ
low = 1 ∷ 2 ∷ 3 ∷ []

abbrev high : List ℕ
high = 4 ∷ 5 ∷ 6 ∷ []

abbrev three : MemoryRegion
three = record { name = []; opt_in = true; pages = page_of low ∷ page_of low ∷ page_of high ∷ [] }

page_of-IsReady : (bytes : List ℕ) → IsSampled (length bytes) → IsReady (page_of bytes)
page_of-IsReady bytes ok free = let (s, e) = signature_of-total bytes ok in (refl, s, e)

three-CanScan : CanScan no_stats three
three-CanScan = record {
  opted_in = refl;
  fits = omega arith;
  ready = (
    page_of-IsReady low (omega arith),
    (page_of-IsReady low (omega arith), (page_of-IsReady high (omega arith), tt)),
  );
  words = no_stats-AreWords;
}

three-IsSound : IsSound (no_stats, three)
three-IsSound = record {
  fits = omega arith;
  pages = ((omega arith, λ _. refl), ((omega arith, λ _. refl), ((omega arith, λ _. refl), tt)));
  words = no_stats-AreWords;
}

scan_region-dedupe_example :
    (after : Stats) × (scan_region no_stats three ≡ some (after, rescanned three))
    × Counted [] 0 three.pages no_stats after
scan_region-dedupe_example = scan_region-dedupe no_stats three three-CanScan

scan_region-twice_example :
    (first second : Stats) × (scan_region no_stats three ≡ some (first, rescanned three))
    × (scan_region first (rescanned three) ≡ some (second, rescanned three))
    × (second.duplicate_pages ≡ first.duplicate_pages)
    × (second.bytes_saved ≡ first.bytes_saved)
scan_region-twice_example = scan_region-twice no_stats three three-CanScan

scan_region-AllSettled_example :
    (after : Stats) × (result : MemoryRegion) × (scan_region no_stats three ≡ some (after, result))
    × (contents result.pages ≡ contents three.pages)
    × AllSettled [] three.pages result.pages
scan_region-AllSettled_example = scan_region-AllSettled no_stats three three-CanScan

scan_region-twin_example :
    (after : Stats) × (result : MemoryRegion) × (scan_region no_stats three ≡ some (after, result))
    × ((k : ℕ) (p q : Page)
        → get_elem? three.pages k ≡ some p
        → get_elem? result.pages k ≡ some q
        → p.shared ≡ false
        → q.shared ≡ true
        → (q.home_index < k) × HasTwin result.pages q.home_index p.bytes)
scan_region-twin_example = scan_region-twin no_stats three three-CanScan

-- A scan, a write to the page that was shared, and another scan.
abbrev requests : List Request
requests = scan ∷ write 1 9 ∷ scan ∷ []

run-Refines_example :
    Refines (run requests (no_stats, three)) (plain_run requests (contents three.pages))
run-Refines_example = run-Refines requests no_stats three three-IsSound

abbrev twin : Page
twin = record { bytes = low; home_index = 0; shared = true }

abbrev twins : MemoryRegion
twins = record { name = []; opt_in = true; pages = page_of low ∷ twin ∷ [] }

write_to_page-isolated_example :
    (after : Stats) × (result : MemoryRegion) × (q : Page) × (write_to_page no_stats twins 1 9
      ≡ some (after, result))
    × (get_elem? result.pages 1 ≡ some q)
    × IsWritten 9 twin q
    × ((j : ℕ) → 1 ≢ j → get_elem? result.pages j ≡ get_elem? twins.pages j)
    × (after.writes_emulated ≡ add64 no_stats.writes_emulated 1)
    × (after.write_cow_events
        ≡ (if twin.shared then add64 no_stats.write_cow_events 1 else no_stats.write_cow_events))
write_to_page-isolated_example = write_to_page-isolated no_stats twins 1 9 twin refl

zero≢one : twin.home_index ≢ 1
zero≢one e = omega arith

starts_with_one : get_elem? low 0 ≢ some 9
starts_with_one e = cc

write_to_page-parts_twins_example :
    (after : Stats) × (result : MemoryRegion) × (q : Page) × (write_to_page no_stats twins 0 9
      ≡ some (after, result))
    × (get_elem? result.pages 1 ≡ some twin)
    × (get_elem? result.pages 0 ≡ some q)
    × (q.bytes ≢ low)
write_to_page-parts_twins_example =
    write_to_page-parts_twins no_stats twins 1 9 twin refl refl (page_of low, refl, refl, refl)
      zero≢one starts_with_one

make_signature-IsSampled_example :
    ((s : PageSignature) × (make_signature (page_of low) ≡ some s)) ↔ IsSampled 3
make_signature-IsSampled_example = make_signature-IsSampled (page_of low)
