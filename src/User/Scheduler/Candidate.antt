-- ===== src/User/Scheduler/Candidate.antt =====
-- What `scanNextCandidate` does to the processes.
use project_ram_crisis.Prelude.{
  ℕ, zero, suc, ◌≡◌, ◌≢◌, ◌≤◌, inl, inr, refl, sym, ap, ◌∙◌, Bool, true, false, ◌||◌, List, [], ◌∷◌,
  map, some, length, get_elem?, set, Bool-cases, size_max, ◌==◌, map-set, get_elem?-map,
  get_elem?-set_ne, arith,
}
use project_ram_crisis.Engine.Data.{MemoryRegion, Stats}
use project_ram_crisis.Engine.Reference.Laws.{contents}
use project_ram_crisis.Engine.Scan.{scan_region}
use project_ram_crisis.Engine.Scan.Loop.{AllReady, AreWords}
use project_ram_crisis.Engine.Scan.Region.{scan_region-AllSettled, scan_region-opted_out}
use project_ram_crisis.User.Doubles.{Doubles}
use project_ram_crisis.User.Process.{ProcessState}
use project_ram_crisis.User.Scheduler.{
  ScanScheduler, Best, no_best, lock, unlock, region_at, put_region, consider_processes,
  scan_candidate, scan_next_candidate,
}
use project_ram_crisis.User.Scheduler.Choice.{IsCandidate, consider_processes-IsChoice_best}

pub set_self {ℓ} :
    {A : Type ℓ} (xs : List A) (i : ℕ) (a : A) → get_elem? xs i ≡ some a → set xs i a ≡ xs
set_self [] i a e = refl
set_self (x ∷ xs) zero a e = cc
set_self (x ∷ xs) (suc i) a e = ap (λ l. x ∷ l) (set_self xs i a e)

-- The contents of all pages of all regions of all processes.
abbrev pub region_memory : MemoryRegion → List (List ℕ)
region_memory region = contents region.pages

abbrev pub process_memory : ProcessState → List (List (List ℕ))
process_memory process = map region_memory process.regions

abbrev pub memory : List ProcessState → List (List (List (List ℕ)))
memory processes = map process_memory processes

-- A region that a scan can read, if it is opted in.
pub record IsReadable (region : MemoryRegion) : Type 0 where
  pub fits : length region.pages ≤ size_max
  pub ready : AllReady region.pages

scan_region-contents :
    (stats : Stats) (region : MemoryRegion)
    → AreWords stats
    → IsReadable region
    → (after : Stats) × (result : MemoryRegion) × (scan_region stats region ≡ some (after, result))
      × (region_memory result ≡ region_memory region)
scan_region-contents stats region words ok = elim (Bool-cases region.opt_in) [
  | inl opted ↦
      let (after, result, run, same, _) =
        scan_region-AllSettled stats region
          (record { opted_in = opted; fits = ok.fits; ready = ok.ready; words = words }) in
      (after, result, run, same)
  | inr out ↦ (stats, region, scan_region-opted_out stats region out, refl)
]

-- The processes with a region replaced.
abbrev pub with_region : ℕ → ℕ → ProcessState → MemoryRegion → List ProcessState → List ProcessState
with_region p r process region processes =
    set processes p (record process { regions = set process.regions r region })

memory-with_region :
    (p r : ℕ) (process : ProcessState) (region scanned : MemoryRegion)
    (processes : List ProcessState)
    → get_elem? processes p ≡ some process
    → get_elem? process.regions r ≡ some region
    → region_memory scanned ≡ region_memory region
    → memory (with_region p r process scanned processes) ≡ memory processes
memory-with_region p r process region scanned processes at there same =
    map-set process_memory processes p (record process { regions = set process.regions r scanned })
    ∙ ap (set (memory processes) p) (
        map-set region_memory process.regions r scanned
        ∙ ap (set (process_memory process) r) same
        ∙ set_self (process_memory process) r (region_memory region)
            (get_elem?-map region_memory process.regions r region there))
    ∙ set_self (memory processes) p (process_memory process)
        (get_elem?-map process_memory processes p process at)

module _ (d : Doubles) where
  -- What a scan of the next candidate may do to the scheduler.
  pub record Keeps (s t : ScanScheduler) : Type 0 where
    pub free : t.mutex_held ≡ false
    pub contents_kept : memory t.processes ≡ memory s.processes
    pub opted_out :
        (i : ℕ) (process : ProcessState)
        → get_elem? s.processes i ≡ some process
        → process.opt_in ≡ false
        → get_elem? t.processes i ≡ some process

  with_region-opted_out :
      (p r i : ℕ) (process other : ProcessState) (region : MemoryRegion)
      (processes : List ProcessState)
      → get_elem? processes p ≡ some process
      → process.opt_in ≡ true
      → get_elem? processes i ≡ some other
      → other.opt_in ≡ false
      → get_elem? (with_region p r process region processes) i ≡ some other
  with_region-opted_out p r i process other region processes at opted there out =
      get_elem?-set_ne processes p i _ differs ∙ there
    where
      same : p ≡ i → some process ≡ some other
      same e = sym at ∙ ap (get_elem? processes) e ∙ there

      differs : p ≢ i
      differs e = cc (same e)

  scan_candidate-Keeps :
      (best : Best d) (process : ProcessState) (region : MemoryRegion) (s : ScanScheduler)
      → s.mutex_held ≡ false
      → AreWords s.stats
      → IsCandidate d s.processes best.process_index best.region_index process region
      → IsReadable region
      → (t : ScanScheduler) × (scan_candidate d best s ≡ some t) × Keeps s t
  unfolding scan_candidate lock unlock region_at put_region
  scan_candidate-Keeps best process region s free words (at, opted, there) ok =
      let p = best.process_index in
      let r = best.region_index in
      let (after, scanned, run, same) = scan_region-contents s.stats region words ok in
      (
        record s {
          mutex_held = false;
          processes = with_region p r process scanned s.processes;
          score_detail = best.detail;
          stats = after;
        },
        simp (free, at, there, run),
        record {
          free = refl;
          contents_kept = memory-with_region p r process region scanned s.processes at there same;
          opted_out = λ i other e out.
              with_region-opted_out p r i process other scanned s.processes at opted e out;
        },
      )

  -- What the loops choose, and whether that is nothing.
  abbrev pub choice : List ProcessState → Best d
  choice processes = consider_processes d 0 processes (no_best d)

  abbrev pub is_nothing : Best d → Bool
  is_nothing best = best.process_index == size_max || best.region_index == size_max

  pub choice-IsCandidate :
      (processes : List ProcessState)
      → is_nothing (choice processes) ≡ false
      → (process : ProcessState) × (region : MemoryRegion) × IsCandidate d processes
          (choice processes).process_index
          (choice processes).region_index
          process
          region
  choice-IsCandidate processes something = elim (consider_processes-IsChoice_best d processes).0 [
    | inl none_yet ↦ absurd (no_index (ap (λ (b : Best d). b.process_index) none_yet))
    | inr (process, region, c, _) ↦ (process, region, c)
  ]
    where
      no_index : (choice processes).process_index ≢ size_max
      no_index e = ground (arith, something)

  -- With the mutex free, the counters 64 bits wide and every region of an opted-in process readable,
  -- a scan of the next candidate returns with the mutex free. No page of any process loses its
  -- content, and the processes that did not opt in are as before.
  pub scan_next_candidate-Keeps :
      (s : ScanScheduler)
      → s.mutex_held ≡ false
      → AreWords s.stats
      → ((i j : ℕ) (process : ProcessState) (region : MemoryRegion)
          → IsCandidate d s.processes i j process region
          → IsReadable region)
      → (t : ScanScheduler) × (scan_next_candidate d s ≡ some t) × Keeps s t
  unfolding scan_next_candidate lock unlock
  scan_next_candidate-Keeps s free words readable =
      let best = choice s.processes in
      elim (Bool-cases (best.process_index == size_max || best.region_index == size_max)) [
        | inl nothing ↦ (
          record s { mutex_held = false },
          simp (free, nothing),
          record { free = refl; contents_kept = refl; opted_out = λ i process e out. e },
        )
        | inr something ↦
            let (process, region, c) = choice-IsCandidate s.processes something in
            let (t, run, keeps) =
              scan_candidate-Keeps best process region (record s { mutex_held = false }) refl words
                c (readable best.process_index best.region_index process region c) in
            (
              t,
              simp (free, something) run,
              record {
                free = keeps.free;
                contents_kept = keeps.contents_kept;
                opted_out = keeps.opted_out;
              },
            )
      ]
