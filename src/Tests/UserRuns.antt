-- ===== src/Tests/UserRuns.antt =====
-- The theorems of the scheduler and the predictor, with hundredths for doubles.
use project_ram_crisis.Prelude.{
  ℕ, zero, suc, subst, ap, ◌∙◌, ◌+◌, ◌*◌, ◌≤◌, ◌-◌, ◌/◌, ◌≡◌, refl, true, false, List, [], ◌∷◌,
  none, some, ltb, le→ltb, arith, get_elem?, size_max,
}
use mathlib.Core.Option.{some-injective, none-ne-some}
use mathlib.Core.Bool.{false≢true}
use project_ram_crisis.Engine.Data.{Page, MemoryRegion, no_stats}
use project_ram_crisis.Engine.Signature.Bounds.{signature_of-total}
use project_ram_crisis.Engine.Scan.Loop.{no_stats-AreWords, IsReady}
use project_ram_crisis.Driver.Policy.{codes}
use project_ram_crisis.Engine.Scan.Scanned.{SavesNothing}
use project_ram_crisis.User.Benchmark.{main}
use project_ram_crisis.User.Benchmark.Savings.{main-merges}
use project_ram_crisis.User.Scheduler.Step.{IsReadableAll, IsOrderly, IsStep}
use project_ram_crisis.User.Scheduler.Starving.{scans, scans-starve}
use project_ram_crisis.User.Simulator.Report.{simulator_report}
use project_ram_crisis.User.Simulator.Reporting.{Agrees, set_up-Agrees}
use project_ram_crisis.User.Simulator.{set_up}
use project_ram_crisis.User.Simulator.Run.{set_up-Keeps}
use project_ram_crisis.User.Predictor.{predict_process, predict_region}
use project_ram_crisis.User.Predictor.Laws.{InRange, predict-InRange}
use project_ram_crisis.User.Doubles.{Doubles}
use project_ram_crisis.User.Process.{ProcessState}
use project_ram_crisis.User.Scheduler.{
  ScanScheduler, no_best, region_score, consider_processes, scan_next_candidate, worker_round,
}
use project_ram_crisis.User.Scheduler.Choice.{
  IsCandidate, IsChoice, consider_processes-IsChoice_best,
}
use project_ram_crisis.User.Scheduler.Candidate.{IsReadable, Keeps, scan_next_candidate-Keeps}

-- A number n stands for (n - 100) / 100.
above : (x y z : ℕ) → ltb x y ≡ true → ltb x z ≡ false → ltb y z ≡ false
above x y z p q = ground arith

abbrev numbers : Doubles
numbers = record {
  Double = ℕ;
  hundredths = λ n. n + 100;
  minus_one = 0;
  plus = λ x y. x + y - 100;
  minus = λ x y. x + 100 - y;
  halve = λ x. (x + 100) / 2;
  less = ltb;
  less_irreflexive = λ x. le→ltb x x (omega arith);
  less_one_zero = refl;
  less_above = above;
}

abbrev page_of : List ℕ → Page
page_of bytes = record { bytes = bytes; home_index = size_max; shared = false }

abbrev bytes : List ℕ
bytes = 1 ∷ 2 ∷ 3 ∷ []

abbrev tabs : MemoryRegion
tabs = record { name = codes "tabs"; opt_in = true; pages = page_of bytes ∷ page_of bytes ∷ [] }

abbrev browser : ProcessState
browser = record { pid = 101; name = codes "browser"; opt_in = true; regions = tabs ∷ [] }

abbrev other : ProcessState
other = record { pid = 303; name = codes "vm"; opt_in = false; regions = tabs ∷ [] }

abbrev two : List ProcessState
two = other ∷ browser ∷ []

abbrev scheduler : ScanScheduler
scheduler = record {
  mutex_held = false;
  processes = two;
  running = true;
  scan_requested = true;
  score_detail = [];
  stats = no_stats;
}

consider_processes-IsChoice_best_example :
    IsChoice numbers two (consider_processes numbers 0 two (no_best numbers))
    × ((i j : ℕ) (process : ProcessState) (region : MemoryRegion)
        → IsCandidate numbers two i j process region
        → ltb
            (consider_processes numbers 0 two (no_best numbers)).score
            (region_score numbers process region)
          ≡ false)
consider_processes-IsChoice_best_example = consider_processes-IsChoice_best numbers two

page_of-IsReady : IsReady (page_of bytes)
page_of-IsReady free = let (s, e) = signature_of-total bytes (omega arith) in (refl, s, e)

tabs-IsReadable : IsReadable tabs
tabs-IsReadable = record { fits = omega arith; ready = (page_of-IsReady, (page_of-IsReady, tt)) }

two-IsReadable :
    (i j : ℕ) (process : ProcessState) (region : MemoryRegion)
    → IsCandidate numbers two i j process region
    → IsReadable region
two-IsReadable zero j process region (at, opted, there) =
    absurd (false≢true (ap (λ (p : ProcessState). p.opt_in) (some-injective _ _ at) ∙ opted))
two-IsReadable (suc zero) zero process region (at, opted, there) =
    subst IsReadable
      (some-injective _ _
        (ap (λ (p : ProcessState). get_elem? p.regions 0) (some-injective _ _ at) ∙ there))
      tabs-IsReadable
two-IsReadable (suc zero) (suc j) process region (at, opted, there) = absurd (
    none-ne-some _
      (ap (λ (p : ProcessState). get_elem? p.regions (suc j)) (some-injective _ _ at) ∙ there))
two-IsReadable (suc (suc i)) j process region (at, opted, there) = absurd (none-ne-some _ at)

scan_next_candidate-Keeps_example :
    (t : ScanScheduler) × (scan_next_candidate numbers scheduler ≡ some t)
    × Keeps numbers scheduler t
scan_next_candidate-Keeps_example =
    scan_next_candidate-Keeps numbers scheduler refl no_stats-AreWords two-IsReadable

predict-InRange_example :
    InRange numbers (predict_process numbers (codes "browser") 40).score
    × InRange numbers (predict_region numbers (codes "browser") 40).score
predict-InRange_example = predict-InRange numbers (codes "browser") 40

-- A generator that counts up from its seed.
abbrev counting : ℕ → ℕ → ℕ
counting seed i = seed + i

set_up-Agrees_example :
    (s t : ScanScheduler) × (set_up counting ≡ some s)
    × (scans numbers 2 s ≡ some t)
    × Agrees (simulator_report t.processes t.stats)
set_up-Agrees_example = set_up-Agrees counting numbers 2

main-merges_example :
    (merged : ℕ) × (171 ≤ merged)
    × (merged ≤ 240)
    × (main counting
        ≡ some (record {
          total_pages = 272;
          pages_scanned = 240;
          unique_pages = 240 - merged;
          duplicate_pages = merged;
          kilobytes_saved = merged * 4;
          write_cow_events = 0;
        }))
main-merges_example = main-merges counting

two-IsReadableAll : IsReadableAll two
two-IsReadableAll zero zero process region at there =
    subst IsReadable
      (some-injective _ _
        (ap (λ (p : ProcessState). get_elem? p.regions 0) (some-injective _ _ at) ∙ there))
      tabs-IsReadable
two-IsReadableAll (suc zero) zero process region at there =
    subst IsReadable
      (some-injective _ _
        (ap (λ (p : ProcessState). get_elem? p.regions 0) (some-injective _ _ at) ∙ there))
      tabs-IsReadable
two-IsReadableAll zero (suc j) process region at there = absurd (
    none-ne-some _
      (ap (λ (p : ProcessState). get_elem? p.regions (suc j)) (some-injective _ _ at) ∙ there))
two-IsReadableAll (suc zero) (suc j) process region at there = absurd (
    none-ne-some _
      (ap (λ (p : ProcessState). get_elem? p.regions (suc j)) (some-injective _ _ at) ∙ there))
two-IsReadableAll (suc (suc i)) j process region at there = absurd (none-ne-some _ at)

scheduler-IsOrderly : IsOrderly scheduler
scheduler-IsOrderly = record {
  free = refl;
  words = no_stats-AreWords;
  readable = two-IsReadableAll;
}

scans-starve_example :
    (t : ScanScheduler) × (scan_next_candidate numbers scheduler ≡ some t)
    × IsStep numbers scheduler t
    × ((n : ℕ)
        → (u : ScanScheduler) × (scans numbers n t ≡ some u)
          × (u.processes ≡ t.processes)
          × SavesNothing t.stats u.stats)
scans-starve_example = scans-starve numbers scheduler scheduler-IsOrderly

set_up-Keeps_example :
    (s t : ScanScheduler) × (set_up counting ≡ some s)
    × (scan_next_candidate numbers s ≡ some t)
    × Keeps numbers s t
    × (worker_round numbers (λ u. u) s ≡ none)
set_up-Keeps_example = set_up-Keeps counting numbers
