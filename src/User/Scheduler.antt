-- ===== src/User/Scheduler.antt =====
-- `ScanScheduler` of user/scan_scheduler.cpp. A call that never returns, because its thread waits
-- for a mutex that it owns, is `none`, and so is a read outside a vector.
pub mod Choice
pub mod Candidate
pub mod Worker
pub mod Shape
pub mod Step
pub mod Starving
pub mod Accounts
use project_ram_crisis.Prelude.{
  ℕ, suc, Bool, true, false, ◌||◌, List, [], ◌∷◌, ◌++◌, Option, none, some, length, get_elem?, set,
  ◌==◌, if◌then◌else◌, ◌>>=◌, size_max,
}
use project_ram_crisis.Engine.Data.{MemoryRegion, Stats, no_stats}
use project_ram_crisis.Engine.Scan.{scan_region}
use project_ram_crisis.User.Doubles.{Doubles}
use project_ram_crisis.User.Predictor.{MlPrediction, predict_process, predict_region}
use project_ram_crisis.User.Process.{ProcessState}

-- The engine's `stats` is here too: the scheduler holds a reference to the engine.
pub record ScanScheduler : Type 0 where
  pub mutex_held : Bool
  pub processes : List ProcessState
  pub running : Bool
  pub scan_requested : Bool
  pub score_detail : List ℕ
  pub stats : Stats

-- The constructor, with a new engine.
abbrev pub new_scheduler : ScanScheduler
new_scheduler = record {
  mutex_held = false;
  processes = [];
  running = false;
  scan_requested = false;
  score_detail = [];
  stats = no_stats;
}

-- std::mutex is not recursive.
unfoldable pub lock : ScanScheduler → Option ScanScheduler
lock s = if s.mutex_held then none else some (record s { mutex_held = true })

unfoldable pub unlock : ScanScheduler → ScanScheduler
unlock s = record s { mutex_held = false }

unfoldable pub add_process : ProcessState → ScanScheduler → Option ScanScheduler
unfolding lock unlock
add_process process s = do
  locked ← lock s
  some (unlock (record locked { processes = locked.processes ++ process ∷ [] }))

unfoldable pub snapshot_processes : ScanScheduler → Option (List ProcessState × ScanScheduler)
unfolding lock unlock
snapshot_processes s = do locked ← lock s; some (locked.processes, unlock locked)

unfoldable pub request_scan : ScanScheduler → ScanScheduler
request_scan s = record s { scan_requested = true }

-- `start` and `stop`, with whether a thread is created and whether one is to be joined.
unfoldable pub start : ScanScheduler → ScanScheduler × Bool
start s = if s.running then (s, false) else (record s { running = true }, true)

unfoldable pub stop : ScanScheduler → ScanScheduler × Bool
stop s =
    if s.running then (record s { running = false; scan_requested = true }, true) else (s, false)

module _ (d : Doubles) where
  open d use {Double, minus_one, plus, halve, less}

  -- The four variables of `scanNextCandidate`.
  pub record Best : Type 0 where
    pub score : Double
    pub process_index : ℕ
    pub region_index : ℕ
    pub detail : List ℕ

  abbrev pub no_best : Best
  no_best = record {
    score = minus_one;
    process_index = size_max;
    region_index = size_max;
    detail = [];
  }

  abbrev pub region_score : ProcessState → MemoryRegion → Double
  region_score process region = halve (
      plus (predict_process d process.name (length process.regions)).score
        (predict_region d region.name (length region.pages)).score)

  abbrev pub region_detail : ProcessState → MemoryRegion → List ℕ
  region_detail process region =
      (predict_process d process.name (length process.regions)).reason
      ++ (predict_region d region.name (length region.pages)).reason

  -- The body of the loop over the regions.
  unfoldable pub consider : ProcessState → ℕ → ℕ → MemoryRegion → Best → Best
  consider process process_index region_index region best =
      if less best.score (region_score process region)
      then record {
        score = region_score process region;
        process_index = process_index;
        region_index = region_index;
        detail = region_detail process region;
      }
      else best

  unfoldable pub consider_regions : ProcessState → ℕ → ℕ → List MemoryRegion → Best → Best
  unfolding consider
  consider_regions process process_index region_index [] best = best
  consider_regions process process_index region_index (region ∷ rest) best =
      consider_regions process process_index (suc region_index) rest
        (consider process process_index region_index region best)

  unfoldable pub consider_processes : ℕ → List ProcessState → Best → Best
  unfolding consider_regions
  consider_processes process_index [] best = best
  consider_processes process_index (process ∷ rest) best =
      consider_processes (suc process_index) rest (
        if process.opt_in
        then consider_regions process process_index 0 process.regions best
        else best)

  -- `processes[p].regions[r]`.
  unfoldable pub region_at : ℕ → ℕ → List ProcessState → Option MemoryRegion
  region_at p r processes = do process ← get_elem? processes p; get_elem? process.regions r

  -- `processes[p].regions[r] = region`.
  unfoldable pub put_region : ℕ → ℕ → MemoryRegion → List ProcessState → Option (List ProcessState)
  put_region p r region processes = do
    process ← get_elem? processes p
    replaced ← get_elem? process.regions r
    some (set processes p (record process { regions = set process.regions r region }))

  -- From the copy of the chosen region on.
  unfoldable pub scan_candidate : Best → ScanScheduler → Option ScanScheduler
  unfolding lock unlock region_at put_region
  scan_candidate best s = do
    locked ← lock s
    target ← region_at best.process_index best.region_index locked.processes
    let unlocked = unlock locked
    (stats, scanned) ← scan_region unlocked.stats target
    again ← lock (record unlocked { stats = stats })
    processes ← put_region best.process_index best.region_index scanned again.processes
    some (record (unlock (record again { processes = processes })) { score_detail = best.detail })

  unfoldable pub scan_next_candidate : ScanScheduler → Option ScanScheduler
  unfolding consider_processes scan_candidate lock unlock
  scan_next_candidate s = do
    locked ← lock s
    let best = consider_processes 0 locked.processes no_best
    if best.process_index == size_max || best.region_index == size_max
        then some (unlock locked)
        else scan_candidate best (unlock locked)

  -- What a round does once it has the mutex again after the wait, and whether another follows.
  unfoldable pub serve : ScanScheduler → Option (Bool × ScanScheduler)
  unfolding scan_next_candidate unlock
  serve s =
      if s.running
      then elim s.processes [
        | [] ↦ some (true, unlock (record s { scan_requested = false }))
        | process ∷ rest ↦
            scan_next_candidate (record s { scan_requested = false }) >>= λ t. some (true, unlock t)
      ]
      else some (false, unlock s)

  -- A round of `workerLoop` behind its test of `running`. The wait gives the mutex away and takes it
  -- back; `meanwhile` is what the other threads do to the scheduler until then.
  unfoldable pub wait_and_serve :
      (ScanScheduler → ScanScheduler) → ScanScheduler → Option (Bool × ScanScheduler)
  unfolding serve lock unlock
  wait_and_serve meanwhile s = do
    locked ← lock s
    woken ← lock (meanwhile (unlock locked))
    serve woken

  -- One round of `workerLoop`, and whether another follows.
  unfoldable pub worker_round :
      (ScanScheduler → ScanScheduler) → ScanScheduler → Option (Bool × ScanScheduler)
  unfolding wait_and_serve
  worker_round meanwhile s = if s.running then wait_and_serve meanwhile s else some (false, s)
