-- ===== src/User/Simulator/Reporting.antt =====
-- What the simulator reports against the engine's counters.
use project_ram_crisis.Prelude.{
  ℕ, suc, ◌+◌, ◌*◌, ◌≤◌, ◌≡◌, refl, sym, ◌∙◌, inl, inr, List, [], ◌∷◌, map, some, length, arith,
  count_if, size_max, true, false, Bool, Bool-cases, add64, get_elem?,
}
use project_ram_crisis.Engine.Data.{Page, is_shared, MemoryRegion}
use project_ram_crisis.Engine.Scan.Loop.{no_stats-AreWords}
use project_ram_crisis.Engine.Scan.Scanned.{shared_of}
use project_ram_crisis.User.Doubles.{Doubles}
use project_ram_crisis.User.Process.{ProcessState}
use project_ram_crisis.User.Scheduler.{ScanScheduler}
use project_ram_crisis.User.Scheduler.Accounts.{
  sum_of, total_shared, total_pages, IsAccounted, scans-IsAccounted,
}
use project_ram_crisis.User.Scheduler.Candidate.{IsReadable}
use project_ram_crisis.User.Scheduler.Starving.{scans}
use project_ram_crisis.User.Scheduler.Step.{IsReadableAll}
use project_ram_crisis.User.Simulator.{count_shared, count_shared_pages, make_region, set_up}
use project_ram_crisis.User.Simulator.Report.{
  RegionLine, ProcessLines, SimulatorReport, region_line, process_lines, simulator_report,
}
use project_ram_crisis.User.Simulator.Run.{
  AreReadable-at, AllReadable-at, three, three-AllReadable, requested, set_up-requested,
}
use project_ram_crisis.User.Simulator.Sharing.{length-region_pages, count-shared-region_pages}

-- All pages that the report's lines call shared.
abbrev pub shared_on : ProcessLines → ℕ
shared_on lines = sum_of (λ line. line.shared) lines.regions

abbrev pub reported_shared : SimulatorReport → ℕ
reported_shared report = sum_of shared_on report.processes

count_shared-count_if :
    (pages : List Page) (count : ℕ)
    → count + length pages ≤ size_max
    → count_shared pages count ≡ count + count_if is_shared pages
unfolding count_shared
count_shared-count_if [] count fits = omega arith
count_shared-count_if (page ∷ rest) count fits = elim (Bool-cases page.shared) [
  | inl shared ↦
      simp shared (count_shared-count_if rest (add64 count 1) (omega arith) ∙ omega arith)
  | inr free ↦ simp free (count_shared-count_if rest count (omega arith) ∙ omega arith)
]

region_line-shared :
    (region : MemoryRegion) → IsReadable region → (region_line region).shared ≡ shared_of region
unfolding count_shared_pages
region_line-shared region ok =
    count_shared-count_if region.pages 0 (omega (arith, ok.fits)) ∙ omega arith

regions-shared :
    (regions : List MemoryRegion)
    → ((j : ℕ) (region : MemoryRegion) → get_elem? regions j ≡ some region → IsReadable region)
    → sum_of (λ (line : RegionLine). line.shared) (map region_line regions)
      ≡ sum_of shared_of regions
regions-shared [] all = refl
regions-shared (region ∷ rest) all =
    omega
      (arith, region_line-shared region (all 0 region refl), regions-shared rest (λ j. all (suc j)))

lines-shared :
    (processes : List ProcessState)
    → IsReadableAll processes
    → sum_of shared_on (map process_lines processes) ≡ total_shared processes
lines-shared [] all = refl
lines-shared (process ∷ rest) all = omega (
  arith,
  regions-shared process.regions (λ j region. all 0 j process region refl),
  lines-shared rest (λ i. all (suc i)),
)

-- The report's lines add up to its own count of duplicates, with 4 KB saved for each.
pub record Agrees (report : SimulatorReport) : Type 0 where
  pub duplicates : report.duplicate_pages ≡ reported_shared report
  pub kilobytes : report.kilobytes_saved ≡ reported_shared report * 4

simulator_report-Agrees :
    (s : ScanScheduler) → IsAccounted s → Agrees (simulator_report s.processes s.stats)
unfolding simulator_report
simulator_report-Agrees s h =
    let lines = lines-shared s.processes h.orderly.readable in
    record { duplicates = h.duplicate ∙ sym lines; kilobytes = omega (arith, h.saved, lines) }

module _ (draw : ℕ → ℕ → ℕ) where
  made-shared :
      (name : List ℕ) (opt_in : Bool) (pages content_seed : ℕ)
      → shared_of (make_region draw name opt_in pages content_seed) ≡ 0
  unfolding make_region
  made-shared name opt_in pages content_seed =
      count-shared-region_pages draw pages 0 opt_in content_seed

  three-shared : total_shared (three draw) ≡ 0
  three-shared =
      no_sum (no_sum (made-shared _ true 120 0x20) (no_sum (made-shared _ true 32 0x21) refl)) (
        no_sum (no_sum (made-shared _ true 60 0x80) (no_sum (made-shared _ true 24 0x83) refl))
          (no_sum (no_sum (made-shared _ false 40 0xC0) refl) refl))
    where
      no_sum : {a b : ℕ} → a ≡ 0 → b ≡ 0 → a + b ≡ 0
      no_sum e f = omega arith

  three-pages : total_pages (three draw) ≡ 276
  unfolding make_region
  three-pages = omega (
    arith,
    length-region_pages draw 120 0 true 0x20,
    length-region_pages draw 32 0 true 0x21,
    length-region_pages draw 60 0 true 0x80,
    length-region_pages draw 24 0 true 0x83,
    length-region_pages draw 40 0 false 0xC0,
  )

  requested-IsAccounted : IsAccounted (requested draw)
  requested-IsAccounted = record {
    orderly = record {
      free = refl;
      words = no_stats-AreWords;
      readable = λ i j process region at there.
          AreReadable-at process.regions j region
            (AllReadable-at (three draw) i process (three-AllReadable draw) at) there;
    };
    few = omega (arith, three-pages);
    duplicate = sym three-shared;
    saved = omega (arith, three-shared);
  }

  -- Whatever the generator draws, after any number of scans of the next candidate from the
  -- simulator's own scheduler, each with the mutex free, the report of its processes and counters
  -- calls as many pages shared as it counts duplicate pages, and says 4 KB saved for each of them.
  pub set_up-Agrees :
      (d : Doubles) (n : ℕ)
      → (s t : ScanScheduler) × (set_up draw ≡ some s)
        × (scans d n s ≡ some t)
        × Agrees (simulator_report t.processes t.stats)
  set_up-Agrees d n =
      let (t, run, kept) = scans-IsAccounted d n (requested draw) requested-IsAccounted in
      (requested draw, t, set_up-requested draw, run, simulator_report-Agrees t kept)
