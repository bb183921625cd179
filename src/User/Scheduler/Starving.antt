-- ===== src/User/Scheduler/Starving.antt =====
-- What follows the first scan: nothing, since the same region is chosen again.
use project_ram_crisis.Prelude.{
  ℕ, zero, suc, ◌≡◌, ◌⊎◌, inl, inr, refl, sym, ap, ◌∙◌, subst, true, false, List, Option, some,
  ◌>>=◌, get_elem?, get_elem?-set_self, lt-get_elem?, set,
}
use project_ram_crisis.Engine.Data.{MemoryRegion}
use project_ram_crisis.Engine.Scan.Loop.{AreWords}
use project_ram_crisis.Engine.Scan.Scanned.{StaysSame, SavesNothing}
use project_ram_crisis.User.Doubles.{Doubles}
use project_ram_crisis.User.Process.{ProcessState}
use project_ram_crisis.User.Scheduler.{
  ScanScheduler, Best, no_best, lock, unlock, region_at, put_region, scan_candidate,
  scan_next_candidate,
}
use project_ram_crisis.User.Scheduler.Candidate.{set_self, with_region, choice, is_nothing}
use project_ram_crisis.User.Scheduler.Choice.{IsCandidate}
use project_ram_crisis.User.Scheduler.Shape.{AreAlike-set, AllAlike-set, consider_processes-alike}
use project_ram_crisis.User.Scheduler.Step.{IsOrderly, IsStep, Replaced, scan_next_candidate-IsStep}

module _ (d : Doubles) where
  -- That many scans in a row.
  unfoldable pub scans : ℕ → ScanScheduler → Option ScanScheduler
  scans zero s = some s
  scans (suc n) s = scan_next_candidate d s >>= scans n

  -- There is nothing to choose, or the choice is a region that a scan leaves.
  record IsStuck (s : ScanScheduler) : Type 0 where
    pub free : s.mutex_held ≡ false
    pub words : AreWords s.stats
    pub again :
        (is_nothing d (choice d s.processes) ≡ true)
        ⊎ ((is_nothing d (choice d s.processes) ≡ false)
            × (process : ProcessState) × (region : MemoryRegion) × IsCandidate d s.processes
                (choice d s.processes).process_index
                (choice d s.processes).region_index
                process
                region
            × StaysSame region)

  -- Nothing changed but what was counted.
  record IsIdle (s t : ScanScheduler) : Type 0 where
    pub processes : t.processes ≡ s.processes
    pub stats : SavesNothing s.stats t.stats

  with_region-same :
      (p r : ℕ) (process : ProcessState) (region : MemoryRegion) (processes : List ProcessState)
      → get_elem? processes p ≡ some process
      → get_elem? process.regions r ≡ some region
      → with_region p r process region processes ≡ processes
  with_region-same p r process region processes at there =
      ap (λ (l : List MemoryRegion). set processes p (record process { regions = l }))
        (set_self process.regions r region there)
      ∙ set_self processes p process at

  IsStuck-scan :
      (s : ScanScheduler)
      → IsStuck s
      → (t : ScanScheduler) × (scan_next_candidate d s ≡ some t) × IsIdle s t × IsStuck t
  unfolding scan_next_candidate scan_candidate lock unlock region_at put_region
  IsStuck-scan s h = elim h.again [
    | inl nothing ↦ (
      record s { mutex_held = false },
      simp (h.free, nothing),
      record { processes = refl; stats = record { duplicate = refl; saved = refl } },
      record { free = refl; words = h.words; again = inl nothing },
    )
    | inr (something, process, region, c, stays) ↦
        let best = choice d s.processes in
        let (after, run, words, idle) = stays s.stats h.words in
        (
          record s { mutex_held = false; score_detail = best.detail; stats = after },
          simp (h.free, something, c.0, c.2, run)
              (ap
                (λ (l : List ProcessState). some (record s {
                  mutex_held = false;
                  processes = l;
                  score_detail = best.detail;
                  stats = after;
                }))
                (with_region-same best.process_index best.region_index process region s.processes
                  c.0 c.2)),
          record { processes = refl; stats = idle },
          record { free = refl; words = words; again = inr (something, process, region, c, stays) },
        )
  ]

  -- The same processes, so the same choice.
  IsStuck-Replaced :
      (s t : ScanScheduler)
      → t.mutex_held ≡ false
      → is_nothing d (choice d s.processes) ≡ false
      → Replaced d s t
      → IsStuck t
  IsStuck-Replaced s t free something h =
      let p = (choice d s.processes).process_index in
      let r = (choice d s.processes).region_index in
      let changed : ProcessState = record h.process {
        regions = set h.process.regions r h.result;
      } in
      let same : choice d s.processes ≡ choice d t.processes =
        consider_processes-alike d 0 s.processes (set s.processes p changed) (no_best d) (
          AllAlike-set s.processes p h.process changed h.candidate.0 (record {
            same_name = refl;
            same_opt_in = refl;
            regions = AreAlike-set h.process.regions r h.region h.result h.candidate.2 (record {
              same_name = sym h.scanned.same_name;
              same_size = sym h.scanned.same_size;
            });
          }))
        ∙ ap (choice d) (sym h.processes) in
      let at : get_elem? t.processes p ≡ some changed =
        ap (λ l. get_elem? l p) h.processes
        ∙ get_elem?-set_self s.processes p changed
            (lt-get_elem? s.processes p h.process h.candidate.0) in
      let there : get_elem? changed.regions r ≡ some h.result =
        get_elem?-set_self h.process.regions r h.result
          (lt-get_elem? h.process.regions r h.region h.candidate.2) in
      record {
        free = free;
        words = h.scanned.words;
        again = inr (
          ap (is_nothing d) (sym same) ∙ something,
          changed,
          h.result,
          subst
              (λ (best : Best d).
                IsCandidate d t.processes best.process_index best.region_index changed h.result)
              same (at, h.candidate.1, there),
          h.scanned.settled,
        );
      }

  IsStuck-IsStep :
      (s t : ScanScheduler) → IsOrderly s → t.mutex_held ≡ false → IsStep d s t → IsStuck t
  IsStuck-IsStep s t orderly free step = elim step [
    | inl (nothing, processes, stats) ↦ record {
      free = free;
      words = subst AreWords (sym stats) orderly.words;
      again = inl (ap (λ l. is_nothing d (choice d l)) processes ∙ nothing);
    }
    | inr (something, replaced) ↦ IsStuck-Replaced s t free something replaced
  ]

  scans-IsIdle :
      (n : ℕ) (s : ScanScheduler)
      → IsStuck s
      → (t : ScanScheduler) × (scans n s ≡ some t) × IsIdle s t
  unfolding scans
  scans-IsIdle zero s h =
      (s, refl, record { processes = refl; stats = record { duplicate = refl; saved = refl } })
  scans-IsIdle (suc n) s h =
      let (t, run, idle, stuck) = IsStuck-scan s h in
      let (u, later, more) = scans-IsIdle n t stuck in
      (
        u,
        rw run later,
        record {
          processes = more.processes ∙ idle.processes;
          stats = record {
            duplicate = more.stats.duplicate ∙ idle.stats.duplicate;
            saved = more.stats.saved ∙ idle.stats.saved;
          };
        },
      )

  -- With the mutex free, the counters 64 bits wide and every region readable, a scan of the next
  -- candidate returns, and replaces the region that it chooses, if any, by what a scan of the region
  -- returns. However many scans follow, they return, no process changes any more, and the counters
  -- of merged pages and saved bytes stay.
  pub scans-starve :
      (s : ScanScheduler)
      → IsOrderly s
      → (t : ScanScheduler) × (scan_next_candidate d s ≡ some t)
        × IsStep d s t
        × ((n : ℕ)
            → (u : ScanScheduler) × (scans n t ≡ some u)
              × (u.processes ≡ t.processes)
              × SavesNothing t.stats u.stats)
  scans-starve s orderly =
      let (t, run, free, step) = scan_next_candidate-IsStep d s orderly in
      (
        t,
        run,
        step,
        λ n.
            let (u, later, idle) = scans-IsIdle n t (IsStuck-IsStep s t orderly free step) in
            (u, later, idle.processes, idle.stats),
      )
