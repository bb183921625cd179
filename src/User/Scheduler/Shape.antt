-- ===== src/User/Scheduler/Shape.antt =====
-- What the choice of `scanNextCandidate` depends on: names, opt-ins and numbers of pages.
use project_ram_crisis.Prelude.{
  ℕ, zero, suc, ◌≡◌, refl, sym, ap, ◌∙◌, subst, List, [], ◌∷◌, ◌++◌, some, length, get_elem?, set,
  if◌then◌else◌, Bool,
}
use mathlib.Core.Option.{some-injective}
use project_ram_crisis.Engine.Data.{MemoryRegion}
use project_ram_crisis.User.Doubles.{Doubles}
use project_ram_crisis.User.Predictor.{predict_process, predict_region}
use project_ram_crisis.User.Process.{ProcessState}
use project_ram_crisis.User.Scheduler.{Best, consider, consider_regions, consider_processes}

pub record IsAlike (a b : MemoryRegion) : Type 0 where
  pub same_name : a.name ≡ b.name
  pub same_size : length a.pages ≡ length b.pages

abbrev pub AreAlike : List MemoryRegion → List MemoryRegion → Type 0
AreAlike [] [] = Unit
AreAlike [] (b ∷ ys) = ⊥
AreAlike (a ∷ xs) [] = ⊥
AreAlike (a ∷ xs) (b ∷ ys) = IsAlike a b × AreAlike xs ys

pub record IsProcessAlike (a b : ProcessState) : Type 0 where
  pub same_name : a.name ≡ b.name
  pub same_opt_in : a.opt_in ≡ b.opt_in
  pub regions : AreAlike a.regions b.regions

abbrev pub AllAlike : List ProcessState → List ProcessState → Type 0
AllAlike [] [] = Unit
AllAlike [] (b ∷ ys) = ⊥
AllAlike (a ∷ xs) [] = ⊥
AllAlike (a ∷ xs) (b ∷ ys) = IsProcessAlike a b × AllAlike xs ys

AreAlike-refl : (regions : List MemoryRegion) → AreAlike regions regions
AreAlike-refl [] = tt
AreAlike-refl (region ∷ rest) = (record { same_name = refl; same_size = refl }, AreAlike-refl rest)

AllAlike-refl : (processes : List ProcessState) → AllAlike processes processes
AllAlike-refl [] = tt
AllAlike-refl (process ∷ rest) = (
  record { same_name = refl; same_opt_in = refl; regions = AreAlike-refl process.regions },
  AllAlike-refl rest,
)

-- A region replaced by one like it.
pub AreAlike-set :
    (regions : List MemoryRegion) (r : ℕ) (region scanned : MemoryRegion)
    → get_elem? regions r ≡ some region
    → IsAlike region scanned
    → AreAlike regions (set regions r scanned)
AreAlike-set [] r region scanned at same = tt
AreAlike-set (x ∷ rest) zero region scanned at same = (
  subst (λ (m : MemoryRegion). IsAlike m scanned) (sym (some-injective _ _ at)) same,
  AreAlike-refl rest,
)
AreAlike-set (x ∷ rest) (suc r) region scanned at same =
    (record { same_name = refl; same_size = refl }, AreAlike-set rest r region scanned at same)

pub AllAlike-set :
    (processes : List ProcessState) (p : ℕ) (process changed : ProcessState)
    → get_elem? processes p ≡ some process
    → IsProcessAlike process changed
    → AllAlike processes (set processes p changed)
AllAlike-set [] p process changed at same = tt
AllAlike-set (x ∷ rest) zero process changed at same = (
  subst (λ (m : ProcessState). IsProcessAlike m changed) (sym (some-injective _ _ at)) same,
  AllAlike-refl rest,
)
AllAlike-set (x ∷ rest) (suc p) process changed at same = (
  record { same_name = refl; same_opt_in = refl; regions = AreAlike-refl x.regions },
  AllAlike-set rest p process changed at same,
)

length-AreAlike : (xs ys : List MemoryRegion) → AreAlike xs ys → length xs ≡ length ys
length-AreAlike [] [] h = refl
length-AreAlike [] (b ∷ ys) h = absurd h
length-AreAlike (a ∷ xs) [] h = absurd h
length-AreAlike (a ∷ xs) (b ∷ ys) h = ap suc (length-AreAlike xs ys h.1)

module _ (d : Doubles) where
  consider-alike :
      (x y : ProcessState) (p r : ℕ) (a b : MemoryRegion) (best : Best d)
      → IsProcessAlike x y
      → IsAlike a b
      → consider d x p r a best ≡ consider d y p r b best
  unfolding consider
  consider-alike x y p r a b best same alike =
      ap (λ (s : List ℕ). chosen s (length x.regions) a.name (length a.pages)) same.same_name
      ∙ ap (λ (n : ℕ). chosen y.name n a.name (length a.pages))
          (length-AreAlike x.regions y.regions same.regions)
      ∙ ap (λ (s : List ℕ). chosen y.name (length y.regions) s (length a.pages)) alike.same_name
      ∙ ap (chosen y.name (length y.regions) b.name) alike.same_size
    where
      chosen : List ℕ → ℕ → List ℕ → ℕ → Best d
      chosen name regions region pages =
          let process = predict_process d name regions in
          let memory = predict_region d region pages in
          let score = d.halve (d.plus process.score memory.score) in
          if d.less best.score score
          then record {
            score = score;
            process_index = p;
            region_index = r;
            detail = process.reason ++ memory.reason;
          }
          else best

  consider_regions-alike :
      (x y : ProcessState) (p r : ℕ) (xs ys : List MemoryRegion) (best : Best d)
      → IsProcessAlike x y
      → AreAlike xs ys
      → consider_regions d x p r xs best ≡ consider_regions d y p r ys best
  unfolding consider_regions
  consider_regions-alike x y p r [] [] best same h = refl
  consider_regions-alike x y p r [] (b ∷ ys) best same h = absurd h
  consider_regions-alike x y p r (a ∷ xs) [] best same h = absurd h
  consider_regions-alike x y p r (a ∷ xs) (b ∷ ys) best same h =
      consider_regions-alike x y p (suc r) xs ys (consider d x p r a best) same h.1
      ∙ ap (consider_regions d y p (suc r) ys) (consider-alike x y p r a b best same h.0)

  -- Processes that are alike give the same choice.
  pub consider_processes-alike :
      (p : ℕ) (xs ys : List ProcessState) (best : Best d)
      → AllAlike xs ys
      → consider_processes d p xs best ≡ consider_processes d p ys best
  unfolding consider_processes
  consider_processes-alike p [] [] best h = refl
  consider_processes-alike p [] (y ∷ ys) best h = absurd h
  consider_processes-alike p (x ∷ xs) [] best h = absurd h
  consider_processes-alike p (x ∷ xs) (y ∷ ys) best h =
      consider_processes-alike (suc p) xs ys _ h.1
      ∙ ap (consider_processes d (suc p) ys) (
          ap (λ (test : Bool). if test then consider_regions d x p 0 x.regions best else best)
            h.0.same_opt_in
          ∙ ap (λ (other : Best d). if y.opt_in then other else best)
              (consider_regions-alike x y p 0 x.regions y.regions best h.0 h.0.regions))
