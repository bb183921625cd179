-- ===== src/User/Scheduler/Accounts.antt =====
-- The counters of the engine against the shared pages of all processes.
use project_ram_crisis.Prelude.{
  ℕ, zero, suc, ◌+◌, ◌*◌, ◌^◌, ◌≤◌, ◌<◌, ◌≡◌, ◌⊎◌, inl, inr, refl, sym, ap, ◌∙◌, subst, List, [],
  ◌∷◌, some, length, get_elem?, set, arith, count_if, false,
}
use mathlib.Core.Option.{some-injective, none-ne-some}
use project_ram_crisis.Engine.Data.{Page, is_shared, MemoryRegion, Stats}
use project_ram_crisis.Engine.Scan.Loop.{AreWords}
use project_ram_crisis.Engine.Scan.Scanned.{shared_of}
use project_ram_crisis.User.Doubles.{Doubles}
use project_ram_crisis.User.Process.{ProcessState}
use project_ram_crisis.User.Scheduler.{ScanScheduler, scan_next_candidate}
use project_ram_crisis.User.Scheduler.Candidate.{IsReadable, with_region, choice}
use project_ram_crisis.User.Scheduler.Starving.{scans}
use project_ram_crisis.User.Scheduler.Step.{
  IsReadableAll, IsOrderly, Replaced, scan_next_candidate-IsStep,
}

module _ {ℓ} {A : Type ℓ} where
  abbrev pub sum_of : (A → ℕ) → List A → ℕ
  sum_of f [] = 0
  sum_of f (x ∷ xs) = f x + sum_of f xs

  sum_of-set :
      (f : A → ℕ) (xs : List A) (i : ℕ) (a b : A)
      → get_elem? xs i ≡ some a
      → sum_of f (set xs i b) + f a ≡ sum_of f xs + f b
  sum_of-set f [] i a b at = absurd (none-ne-some _ at)
  sum_of-set f (x ∷ xs) zero a b at = omega (arith, ap f (some-injective _ _ at))
  sum_of-set f (x ∷ xs) (suc i) a b at = omega (arith, sum_of-set f xs i a b at)

  sum_of-le : (f g : A → ℕ) (xs : List A) → ((x : A) → f x ≤ g x) → sum_of f xs ≤ sum_of g xs
  sum_of-le f g [] h = omega arith
  sum_of-le f g (x ∷ xs) h = omega (arith, h x, sum_of-le f g xs h)

  set-cases :
      (xs : List A) (i j : ℕ) (a b : A)
      → get_elem? (set xs i a) j ≡ some b
      → (a ≡ b) ⊎ (get_elem? xs j ≡ some b)
  set-cases [] i j a b e = inr e
  set-cases (x ∷ xs) zero zero a b e = inl (some-injective _ _ e)
  set-cases (x ∷ xs) zero (suc j) a b e = inr e
  set-cases (x ∷ xs) (suc i) zero a b e = inr e
  set-cases (x ∷ xs) (suc i) (suc j) a b e = set-cases xs i j a b e

abbrev pub pages_of : MemoryRegion → ℕ
pages_of region = length region.pages

abbrev pub shared_in : ProcessState → ℕ
shared_in process = sum_of shared_of process.regions

abbrev pub pages_in : ProcessState → ℕ
pages_in process = sum_of pages_of process.regions

-- All shared pages, and all pages.
abbrev pub total_shared : List ProcessState → ℕ
total_shared = sum_of shared_in

abbrev pub total_pages : List ProcessState → ℕ
total_pages = sum_of pages_in

count-le-length : (pages : List Page) → count_if is_shared pages ≤ length pages
count-le-length [] = omega arith
count-le-length (page ∷ rest) = ground (arith, count-le-length rest)

total_shared-le-total_pages :
    (processes : List ProcessState) → total_shared processes ≤ total_pages processes
total_shared-le-total_pages processes =
    sum_of-le shared_in pages_in processes
      λ process. sum_of-le shared_of pages_of process.regions λ region. count-le-length region.pages

-- A sum over all regions, with a region replaced.
sum-with_region :
    (f : MemoryRegion → ℕ) (p r : ℕ) (process : ProcessState) (region result : MemoryRegion)
    (processes : List ProcessState)
    → get_elem? processes p ≡ some process
    → get_elem? process.regions r ≡ some region
    → sum_of (λ q. sum_of f q.regions) (with_region p r process result processes) + f region
      ≡ sum_of (λ q. sum_of f q.regions) processes + f result
sum-with_region f p r process region result processes at there = omega (
  arith,
  sum_of-set (λ (q : ProcessState). sum_of f q.regions) processes p process
      (record process { regions = set process.regions r result }) at,
  sum_of-set f process.regions r region result there,
)

IsReadableAll-with_region :
    (p r : ℕ) (process : ProcessState) (result : MemoryRegion) (processes : List ProcessState)
    → get_elem? processes p ≡ some process
    → IsReadable result
    → IsReadableAll processes
    → IsReadableAll (with_region p r process result processes)
IsReadableAll-with_region p r process result processes here ok all i j other region at there =
    elim (set-cases processes p i (record process { regions = set process.regions r result }) other
      at) [
        | inr before ↦ all i j other region before there
        | inl same ↦
            elim (set-cases process.regions r j result region
              (ap (λ (q : ProcessState). get_elem? q.regions j) same ∙ there)) [
                | inl e ↦ subst IsReadable e ok
                | inr before ↦ all p j process region here before
              ]
      ]

-- Every shared page was counted as a duplicate, with its bytes saved, and the pages are so few that
-- the counters do not wrap.
pub record IsAccounted (s : ScanScheduler) : Type 0 where
  pub orderly : IsOrderly s
  pub few : total_pages s.processes < 2 ^ 50
  pub duplicate : s.stats.duplicate_pages ≡ total_shared s.processes
  pub saved : s.stats.bytes_saved ≡ 4096 * total_shared s.processes

module _ (d : Doubles) where
  IsAccounted-Replaced :
      (s t : ScanScheduler) → IsAccounted s → t.mutex_held ≡ false → Replaced d s t → IsAccounted t
  IsAccounted-Replaced s t h free step =
      let p = (choice d s.processes).process_index in
      let r = (choice d s.processes).region_index in
      let changed = with_region p r step.process step.result s.processes in
      let same = step.processes in
      let fits =
        (h.orderly.readable p r step.process step.region step.candidate.0 step.candidate.2).fits in
      let pages : total_pages t.processes ≡ total_pages s.processes =
        ap total_pages same
        ∙ omega (
          arith,
          sum-with_region pages_of p r step.process step.region step.result s.processes
              step.candidate.0 step.candidate.2,
          step.scanned.same_size,
        ) in
      let shared : total_shared t.processes ≡ total_shared s.processes + step.merged =
        ap total_shared same
        ∙ omega (
          arith,
          sum-with_region shared_of p r step.process step.region step.result s.processes
              step.candidate.0 step.candidate.2,
          step.scanned.shared,
        ) in
      let bound = total_shared-le-total_pages t.processes in
      record {
        orderly = record {
          free = free;
          words = step.scanned.words;
          readable = subst IsReadableAll (sym same) (
              IsReadableAll-with_region p r step.process step.result s.processes step.candidate.0
                (record {
                  fits = omega (arith, fits, step.scanned.same_size);
                  ready = step.scanned.ready;
                })
                h.orderly.readable);
        };
        few = omega (arith, h.few, pages);
        duplicate = omega (arith, h.duplicate, h.few, pages, shared, bound, step.scanned.duplicate);
        saved = omega (arith, h.saved, h.few, pages, shared, bound, step.scanned.saved);
      }

  -- A scan of the next candidate keeps the accounts.
  pub scan_next_candidate-IsAccounted :
      (s : ScanScheduler)
      → IsAccounted s
      → (t : ScanScheduler) × (scan_next_candidate d s ≡ some t) × IsAccounted t
  scan_next_candidate-IsAccounted s h =
      let (t, run, free, step) = scan_next_candidate-IsStep d s h.orderly in
      (
        t,
        run,
        elim step [
          | inl (_, processes, stats) ↦ record {
            orderly = record {
              free = free;
              words = subst AreWords (sym stats) h.orderly.words;
              readable = subst IsReadableAll (sym processes) h.orderly.readable;
            };
            few = omega (arith, h.few, ap total_pages processes);
            duplicate =
                ap (λ (x : Stats). x.duplicate_pages) stats
                ∙ h.duplicate
                ∙ ap total_shared (sym processes);
            saved =
                ap (λ (x : Stats). x.bytes_saved) stats
                ∙ h.saved
                ∙ ap (λ l. 4096 * total_shared l) (sym processes);
          }
          | inr (_, replaced) ↦ IsAccounted-Replaced s t h free replaced
        ],
      )

  pub scans-IsAccounted :
      (n : ℕ) (s : ScanScheduler)
      → IsAccounted s
      → (t : ScanScheduler) × (scans d n s ≡ some t) × IsAccounted t
  unfolding scans
  scans-IsAccounted zero s h = (s, refl, h)
  scans-IsAccounted (suc n) s h =
      let (t, run, kept) = scan_next_candidate-IsAccounted s h in
      let (u, later, end) = scans-IsAccounted n t kept in (u, rw run later, end)
