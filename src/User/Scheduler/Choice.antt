-- ===== src/User/Scheduler/Choice.antt =====
-- What the loops of `scanNextCandidate` choose.
use project_ram_crisis.Prelude.{
  ℕ, zero, suc, ◌≡◌, ◌⊎◌, inl, inr, refl, sym, ap, ◌∙◌, true, false, List, [], ◌∷◌, ◌++◌, some,
  length, get_elem?, Bool-cases, get_elem?-append_at, append_assoc, length-append, arith,
}
use project_ram_crisis.Engine.Data.{MemoryRegion}
use project_ram_crisis.User.Doubles.{Doubles}
use project_ram_crisis.User.Process.{ProcessState}
use project_ram_crisis.User.Scheduler.{
  Best, no_best, region_score, consider, consider_regions, consider_processes,
}

module _ (d : Doubles) where
  open d use {Double, minus_one, less, less_irreflexive, less_above}

  -- A region of an opted-in process, at these indices.
  abbrev pub IsCandidate : List ProcessState → ℕ → ℕ → ProcessState → MemoryRegion → Type 0
  IsCandidate processes p r process region =
      (get_elem? processes p ≡ some process)
      × (process.opt_in ≡ true)
      × (get_elem? process.regions r ≡ some region)

  -- Nothing was chosen, or a candidate with its score.
  abbrev pub IsChoice : List ProcessState → Best d → Type 0
  IsChoice processes best =
      (best ≡ no_best d)
      ⊎ ((process : ProcessState) × (region : MemoryRegion) × IsCandidate processes
            best.process_index best.region_index process region
          × (best.score ≡ region_score d process region))

  -- The score does not fall below what it was.
  abbrev pub NotAbove : Best d → Double → Type 0
  NotAbove best x = less best.score x ≡ false

  consider-NotAbove :
      (process : ProcessState) (p r : ℕ) (region : MemoryRegion) (best : Best d) (x : Double)
      → NotAbove best x
      → NotAbove (consider d process p r region best) x
  unfolding consider
  consider-NotAbove process p r region best x h =
      elim (Bool-cases (less best.score (region_score d process region))) [
        | inl above ↦ rw above (less_above best.score (region_score d process region) x above h)
        | inr below ↦ rw below h
      ]

  consider_self :
      (process : ProcessState) (p r : ℕ) (region : MemoryRegion) (best : Best d)
      → NotAbove (consider d process p r region best) (region_score d process region)
  unfolding consider
  consider_self process p r region best =
      elim (Bool-cases (less best.score (region_score d process region))) [
        | inl above ↦ rw above (less_irreflexive (region_score d process region))
        | inr below ↦ rw below below
      ]

  consider_regions-NotAbove :
      (process : ProcessState) (p r : ℕ) (regions : List MemoryRegion) (best : Best d) (x : Double)
      → NotAbove best x
      → NotAbove (consider_regions d process p r regions best) x
  unfolding consider_regions
  consider_regions-NotAbove process p r [] best x h = h
  consider_regions-NotAbove process p r (region ∷ rest) best x h =
      consider_regions-NotAbove process p (suc r) rest (consider d process p r region best) x
        (consider-NotAbove process p r region best x h)

  consider_regions-best :
      (process : ProcessState) (p r : ℕ) (regions : List MemoryRegion) (best : Best d) (j : ℕ)
      (region : MemoryRegion)
      → get_elem? regions j ≡ some region
      → NotAbove (consider_regions d process p r regions best) (region_score d process region)
  unfolding consider_regions
  consider_regions-best process p r [] best j region e = cc
  consider_regions-best process p r (x ∷ rest) best zero region e =
      consider_regions-NotAbove process p (suc r) rest (consider d process p r x best)
        (region_score d process region)
        (rw (the_same x region e) (consider_self process p r region best))
    where
      the_same : (a b : MemoryRegion) → some a ≡ some b → a ≡ b
      the_same a b e = cc
  consider_regions-best process p r (x ∷ rest) best (suc j) region e =
      consider_regions-best process p (suc r) rest (consider d process p r x best) j region e

  consider_processes-NotAbove :
      (p : ℕ) (processes : List ProcessState) (best : Best d) (x : Double)
      → NotAbove best x
      → NotAbove (consider_processes d p processes best) x
  unfolding consider_processes
  consider_processes-NotAbove p [] best x h = h
  consider_processes-NotAbove p (process ∷ rest) best x h =
      consider_processes-NotAbove (suc p) rest _ x (elim (Bool-cases process.opt_in) [
        | inl opted ↦ simp opted (consider_regions-NotAbove process p 0 process.regions best x h)
        | inr out ↦ simp out h
      ])

  -- No region of an opted-in process has a score above that of the choice.
  pub consider_processes-best :
      (p : ℕ) (processes : List ProcessState) (best : Best d) (i j : ℕ) (process : ProcessState)
      (region : MemoryRegion)
      → IsCandidate processes i j process region
      → less (consider_processes d p processes best).score (region_score d process region) ≡ false
  unfolding consider_processes
  consider_processes-best p [] best i j process region (at, opted, there) = cc
  consider_processes-best p (x ∷ rest) best zero j process region (at, opted, there) =
      consider_processes-NotAbove (suc p) rest _ (region_score d process region) (
        rw (the_same x process at)
          (simp opted (consider_regions-best process p 0 process.regions best j region there)))
    where
      the_same : (a b : ProcessState) → some a ≡ some b → a ≡ b
      the_same a b e = cc
  consider_processes-best p (x ∷ rest) best (suc i) j process region c =
      consider_processes-best (suc p) rest _ i j process region c

  consider-IsChoice :
      (processes : List ProcessState) (process : ProcessState) (p r : ℕ) (region : MemoryRegion)
      (best : Best d)
      → IsCandidate processes p r process region
      → IsChoice processes best
      → IsChoice processes (consider d process p r region best)
  unfolding consider
  consider-IsChoice processes process p r region best c h =
      elim (Bool-cases (less best.score (region_score d process region))) [
        | inl above ↦ rw above (inr (process, region, c, refl))
        | inr below ↦ rw below h
      ]

  consider_regions-IsChoice :
      (processes : List ProcessState) (process : ProcessState) (p r : ℕ)
      (before rest : List MemoryRegion) (best : Best d)
      → get_elem? processes p ≡ some process
      → process.opt_in ≡ true
      → process.regions ≡ before ++ rest
      → r ≡ length before
      → IsChoice processes best
      → IsChoice processes (consider_regions d process p r rest best)
  unfolding consider_regions
  consider_regions-IsChoice processes process p r before [] best at opted split here h = h
  consider_regions-IsChoice processes process p r before (region ∷ rest) best at opted split here
        h =
      consider_regions-IsChoice processes process p (suc r) (before ++ region ∷ []) rest
        (consider d process p r region best) at opted
        (split ∙ sym (append_assoc before (region ∷ []) rest))
        (omega (arith, length-append before (region ∷ [])))
        (consider-IsChoice processes process p r region best
          (
            at,
            opted,
            ap (λ l. get_elem? l r) split
                ∙ ap (get_elem? (before ++ region ∷ rest)) here
                ∙ get_elem?-append_at before rest region,
          )
          h)

  consider_processes-IsChoice :
      (processes : List ProcessState) (p : ℕ) (before rest : List ProcessState) (best : Best d)
      → processes ≡ before ++ rest
      → p ≡ length before
      → IsChoice processes best
      → IsChoice processes (consider_processes d p rest best)
  unfolding consider_processes
  consider_processes-IsChoice processes p before [] best split here h = h
  consider_processes-IsChoice processes p before (process ∷ rest) best split here h =
      consider_processes-IsChoice processes (suc p) (before ++ process ∷ []) rest _
        (split ∙ sym (append_assoc before (process ∷ []) rest))
        (omega (arith, length-append before (process ∷ [])))
        (elim (Bool-cases process.opt_in) [
          | inl opted ↦ simp opted (
              consider_regions-IsChoice processes process p 0 [] process.regions best
                (ap (λ l. get_elem? l p) split
                  ∙ ap (get_elem? (before ++ process ∷ rest)) here
                  ∙ get_elem?-append_at before rest process)
                opted refl refl h)
          | inr out ↦ simp out h
        ])

  -- The loops of `scanNextCandidate` choose nothing, or a region of a process that opted in, with its
  -- score; and no region of a process that opted in has a score above that of the choice.
  pub consider_processes-IsChoice_best :
      (processes : List ProcessState)
      → IsChoice processes (consider_processes d 0 processes (no_best d))
        × ((i j : ℕ) (process : ProcessState) (region : MemoryRegion)
            → IsCandidate processes i j process region
            → less
                (consider_processes d 0 processes (no_best d)).score
                (region_score d process region)
              ≡ false)
  consider_processes-IsChoice_best processes = (
    consider_processes-IsChoice processes 0 [] processes (no_best d) refl refl (inl refl),
    consider_processes-best 0 processes (no_best d),
  )
