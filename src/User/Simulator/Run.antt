-- ===== src/User/Simulator/Run.antt =====
-- The simulator's run: the scan that it asks for, and its worker.
use project_ram_crisis.Prelude.{
  ℕ, zero, suc, ◌≤◌, ◌≡◌, refl, subst, Bool, true, false, List, [], ◌∷◌, none, some, get_elem?,
  size_max, arith,
}
use mathlib.Core.Option.{some-injective, none-ne-some}
use project_ram_crisis.Engine.Data.{MemoryRegion}
use project_ram_crisis.Engine.Scan.Loop.{no_stats-AreWords}
use project_ram_crisis.User.Doubles.{Doubles}
use project_ram_crisis.User.Process.{ProcessState}
use project_ram_crisis.User.Scheduler.{
  ScanScheduler, new_scheduler, lock, unlock, add_process, start, request_scan, scan_next_candidate,
  worker_round,
}
use project_ram_crisis.User.Scheduler.Candidate.{IsReadable, Keeps, scan_next_candidate-Keeps}
use project_ram_crisis.User.Scheduler.Worker.{worker_round-none}
use project_ram_crisis.User.Simulator.{
  make_region, browser_process, electron_process, system_process, set_up,
}
use project_ram_crisis.User.Simulator.Sharing.{length-region_pages, AllReady-region_pages}

-- Every region of every process can be read.
pub AreReadable : List MemoryRegion → Type 0
AreReadable [] = Unit
AreReadable (region ∷ rest) = IsReadable region × AreReadable rest

pub AllReadable : List ProcessState → Type 0
AllReadable [] = Unit
AllReadable (process ∷ rest) = AreReadable process.regions × AllReadable rest

pub AreReadable-at :
    (regions : List MemoryRegion) (j : ℕ) (region : MemoryRegion)
    → AreReadable regions
    → get_elem? regions j ≡ some region
    → IsReadable region
unfolding AreReadable
AreReadable-at [] j region all e = absurd (none-ne-some _ e)
AreReadable-at (x ∷ rest) zero region all e = subst IsReadable (some-injective _ _ e) all.0
AreReadable-at (x ∷ rest) (suc j) region all e = AreReadable-at rest j region all.1 e

pub AllReadable-at :
    (processes : List ProcessState) (i : ℕ) (process : ProcessState)
    → AllReadable processes
    → get_elem? processes i ≡ some process
    → AreReadable process.regions
unfolding AllReadable
AllReadable-at [] i process all e = absurd (none-ne-some _ e)
AllReadable-at (x ∷ rest) zero process all e =
    subst (λ (p : ProcessState). AreReadable p.regions) (some-injective _ _ e) all.0
AllReadable-at (x ∷ rest) (suc i) process all e = AllReadable-at rest i process all.1 e

module _ (draw : ℕ → ℕ → ℕ) where
  make_region-IsReadable :
      (name : List ℕ) (opt_in : Bool) (pages content_seed : ℕ)
      → pages ≤ size_max
      → IsReadable (make_region draw name opt_in pages content_seed)
  unfolding make_region
  make_region-IsReadable name opt_in pages content_seed fits = record {
    fits = omega (arith, length-region_pages draw pages 0 opt_in content_seed);
    ready = AllReady-region_pages draw pages 0 opt_in content_seed;
  }

  abbrev pub three : List ProcessState
  three = browser_process draw ∷ electron_process draw ∷ system_process draw ∷ []

  pub three-AllReadable : AllReadable three
  unfolding AllReadable AreReadable
  three-AllReadable = (
    (
      make_region-IsReadable _ true 120 0x20 (omega arith),
      (make_region-IsReadable _ true 32 0x21 (omega arith), tt),
    ),
    (
      (
        make_region-IsReadable _ true 60 0x80 (omega arith),
        (make_region-IsReadable _ true 24 0x83 (omega arith), tt),
      ),
      ((make_region-IsReadable _ false 40 0xC0 (omega arith), tt), tt),
    ),
  )

  abbrev pub requested : ScanScheduler
  requested = record new_scheduler { processes = three; running = true; scan_requested = true }

  pub set_up-requested : set_up draw ≡ some requested
  unfolding set_up add_process start request_scan lock unlock
  set_up-requested = refl

  requested-hangs : (d : Doubles) → worker_round d (λ u. u) requested ≡ none
  unfolding unlock
  requested-hangs d =
      worker_round-none d (λ u. u) requested (browser_process draw)
        (electron_process draw ∷ system_process draw ∷ []) refl refl refl refl refl

  -- Whatever the generator draws, the simulator's scheduler is set up, and a scan of its next
  -- candidate returns with the mutex free, no page's content lost and the processes that did not opt
  -- in as before. But the worker's round, in which nothing else happens, never returns.
  pub set_up-Keeps :
      (d : Doubles)
      → (s t : ScanScheduler) × (set_up draw ≡ some s)
        × (scan_next_candidate d s ≡ some t)
        × Keeps d s t
        × (worker_round d (λ u. u) s ≡ none)
  set_up-Keeps d =
      let (t, run, keeps) =
        scan_next_candidate-Keeps d requested refl no_stats-AreWords
          (λ i j process region (at, _, there).
            AreReadable-at process.regions j region
              (AllReadable-at three i process three-AllReadable at) there) in
      (requested, t, set_up-requested, run, keeps, requested-hangs d)
