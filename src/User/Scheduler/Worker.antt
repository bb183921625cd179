-- ===== src/User/Scheduler/Worker.antt =====
-- The worker thread, which takes the mutex twice.
use project_ram_crisis.Prelude.{
  ap, some, ◌∙◌, Bool, if◌then◌else◌, ◌≡◌, ◌∷◌, refl, true, false, none, List,
}
use project_ram_crisis.User.Doubles.{Doubles}
use project_ram_crisis.User.Process.{ProcessState}
use project_ram_crisis.User.Scheduler.{
  ScanScheduler, lock, unlock, scan_next_candidate, serve, wait_and_serve, worker_round,
}

module _ (d : Doubles) where
  serve-held :
      (s : ScanScheduler) (process : ProcessState) (rest : List ProcessState)
      → s.mutex_held ≡ true
      → s.running ≡ true
      → s.processes ≡ process ∷ rest
      → serve d s ≡ none
  unfolding serve scan_next_candidate lock
  serve-held s process rest held running some_process = simp (running, some_process, held)

  wait_and_serve-none :
      (meanwhile : ScanScheduler → ScanScheduler) (s : ScanScheduler) (process : ProcessState)
      (rest : List ProcessState)
      → s.mutex_held ≡ false
      → (meanwhile (unlock s)).mutex_held ≡ false
      → (meanwhile (unlock s)).running ≡ true
      → (meanwhile (unlock s)).processes ≡ process ∷ rest
      → wait_and_serve d meanwhile s ≡ none
  unfolding wait_and_serve lock unlock
  wait_and_serve-none meanwhile s process rest free woken running some_process =
      simp (free, woken)
        (serve-held (record (meanwhile (unlock s)) { mutex_held = true }) process rest refl running
          some_process)

  -- A round of the worker never returns, if the scheduler runs with the mutex free and, when the wait
  -- is over, runs with the mutex free again and a process to look at: the worker holds the mutex while
  -- it calls `scanNextCandidate`, which takes it again.
  pub worker_round-none :
      (meanwhile : ScanScheduler → ScanScheduler) (s : ScanScheduler) (process : ProcessState)
      (rest : List ProcessState)
      → s.running ≡ true
      → s.mutex_held ≡ false
      → (meanwhile (unlock s)).mutex_held ≡ false
      → (meanwhile (unlock s)).running ≡ true
      → (meanwhile (unlock s)).processes ≡ process ∷ rest
      → worker_round d meanwhile s ≡ none
  unfolding worker_round
  worker_round-none meanwhile s process rest runs free woken running some_process =
      ap (λ (b : Bool). if b then wait_and_serve d meanwhile s else some (false, s)) runs
      ∙ wait_and_serve-none meanwhile s process rest free woken running some_process
