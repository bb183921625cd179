-- ===== src/User/Scheduler/Step.antt =====
-- One scan of the next candidate, in terms of the region that it chooses.
use project_ram_crisis.Prelude.{
  ℕ, ◌≡◌, ◌⊎◌, inl, inr, refl, true, false, List, some, get_elem?, Bool-cases,
}
use project_ram_crisis.Engine.Data.{MemoryRegion}
use project_ram_crisis.Engine.Scan.Loop.{AreWords}
use project_ram_crisis.Engine.Scan.Scanned.{Scanned, scan_region-Scanned}
use project_ram_crisis.User.Doubles.{Doubles}
use project_ram_crisis.User.Process.{ProcessState}
use project_ram_crisis.User.Scheduler.{
  ScanScheduler, lock, unlock, region_at, put_region, scan_candidate, scan_next_candidate,
}
use project_ram_crisis.User.Scheduler.Candidate.{
  IsReadable, with_region, choice, is_nothing, choice-IsCandidate,
}
use project_ram_crisis.User.Scheduler.Choice.{IsCandidate}

-- Every region of every process can be read.
abbrev pub IsReadableAll : List ProcessState → Type 0
IsReadableAll processes =
    (i j : ℕ) (process : ProcessState) (region : MemoryRegion)
    → get_elem? processes i ≡ some process
    → get_elem? process.regions j ≡ some region
    → IsReadable region

-- What a scan starts from, and ends in.
pub record IsOrderly (s : ScanScheduler) : Type 0 where
  pub free : s.mutex_held ≡ false
  pub words : AreWords s.stats
  pub readable : IsReadableAll s.processes

module _ (d : Doubles) where
  -- The chosen region was replaced by what a scan makes of it.
  pub record Replaced (s t : ScanScheduler) : Type 0 where
    pub process : ProcessState
    pub region : MemoryRegion
    pub result : MemoryRegion
    pub merged : ℕ
    pub candidate :
        IsCandidate d s.processes
          (choice d s.processes).process_index
          (choice d s.processes).region_index
          process
          region
    pub processes :
        t.processes
        ≡ with_region
            (choice d s.processes).process_index
            (choice d s.processes).region_index
            process
            result
            s.processes
    pub scanned : Scanned s.stats region t.stats result merged

  -- Nothing was chosen, or the chosen region was replaced.
  abbrev pub IsStep : ScanScheduler → ScanScheduler → Type 0
  IsStep s t =
      ((is_nothing d (choice d s.processes) ≡ true)
        × (t.processes ≡ s.processes)
        × (t.stats ≡ s.stats))
      ⊎ ((is_nothing d (choice d s.processes) ≡ false) × Replaced s t)

  scan_candidate-Replaced :
      (s : ScanScheduler) (process : ProcessState) (region : MemoryRegion)
      → AreWords s.stats
      → IsCandidate d s.processes
          (choice d s.processes).process_index
          (choice d s.processes).region_index
          process
          region
      → IsReadable region
      → (t : ScanScheduler) × (scan_candidate d
            (choice d s.processes)
            (record s { mutex_held = false })
          ≡ some t)
        × (t.mutex_held ≡ false)
        × Replaced s t
  unfolding scan_candidate lock unlock region_at put_region
  scan_candidate-Replaced s process region words c ok =
      let best = choice d s.processes in
      let (after, result, merged, scanned) =
        scan_region-Scanned s.stats region ok.fits ok.ready words in
      (
        record s {
          mutex_held = false;
          processes = with_region best.process_index best.region_index process result s.processes;
          score_detail = best.detail;
          stats = after;
        },
        simp (c.0, c.2, scanned.run),
        refl,
        record {
          process = process;
          region = region;
          result = result;
          merged = merged;
          candidate = c;
          processes = refl;
          scanned = scanned;
        },
      )

  pub scan_next_candidate-IsStep :
      (s : ScanScheduler)
      → IsOrderly s
      → (t : ScanScheduler) × (scan_next_candidate d s ≡ some t)
        × (t.mutex_held ≡ false)
        × IsStep s t
  unfolding scan_next_candidate lock unlock
  scan_next_candidate-IsStep s orderly = elim (Bool-cases (is_nothing d (choice d s.processes))) [
    | inl nothing ↦ (
      record s { mutex_held = false },
      simp (orderly.free, nothing),
      refl,
      inl (nothing, refl, refl),
    )
    | inr something ↦
        let (process, region, c) = choice-IsCandidate d s.processes something in
        let (t, run, free, replaced) =
          scan_candidate-Replaced s process region orderly.words c
            (orderly.readable _ _ process region c.0 c.2) in
        (t, simp (orderly.free, something) run, free, inr (something, replaced))
  ]
