-- ===== src/Engine/Reference/Settled.antt =====
-- What settled pages mean page by page: twins for the shared ones, and none for the others.
use mathlib.Core.Path.{subst₂}
use mathlib.Core.Bool.{false≢true}
use project_ram_crisis.Prelude.{
  ℕ, zero, suc, ◌+◌, ◌<◌, ◌≡◌, ◌≢◌, sym, ap, subst, ◌∙◌, inl, inr, true, false, List, [], ◌∷◌, ◌++◌,
  append_assoc, some, arith, length, length-append, get_elem?, get_elem?-append_left,
  get_elem?-append_lt, lt-get_elem?, Bool-cases,
}
use project_ram_crisis.Engine.Data.{Page, mark_shared}
use project_ram_crisis.Engine.Reference.Sharing.{HasTwin, HasNoTwin, IsSettled, AllSettled}

-- A page that was unshared and is now shared has a twin among the earlier pages.
IsSettled-twin :
    (before : List Page) (page after : Page)
    → IsSettled before page after
    → page.shared ≡ false
    → after.shared ≡ true
    → HasTwin before after.home_index page.bytes
unfolding mark_shared
IsSettled-twin before page after s free shared = elim (s.1 free) [
  | inl (e, _) ↦ absurd (false≢true (sym free ∙ sym (ap (λ (t : Page). t.shared) e) ∙ shared))
  | inr (r, e, twin) ↦ subst (λ (t : Page). HasTwin before t.home_index page.bytes) (sym e) twin
]

-- A page that is still unshared has none.
IsSettled-alone :
    (before : List Page) (page after : Page)
    → IsSettled before page after
    → after.shared ≡ false
    → HasNoTwin before after.bytes
unfolding mark_shared
IsSettled-alone before page after s free = elim (Bool-cases page.shared) [
  | inl e ↦ absurd (false≢true (sym free ∙ ap (λ (t : Page). t.shared) (s.0 e) ∙ e))
  | inr e ↦ elim (s.1 e) [
    | inl (same, alone) ↦ subst (λ (t : Page). HasNoTwin before t.bytes) (sym same) alone
    | inr (r, marked, _) ↦ absurd (false≢true (sym free ∙ ap (λ (t : Page). t.shared) marked))
  ]
]

-- The twin is at a smaller index than the page.
pub AllSettled-twin :
    (before pages after : List Page) (k : ℕ) (p q : Page)
    → AllSettled before pages after
    → get_elem? pages k ≡ some p
    → get_elem? after k ≡ some q
    → p.shared ≡ false
    → q.shared ≡ true
    → (q.home_index < length before + k) × HasTwin (before ++ after) q.home_index p.bytes
AllSettled-twin before [] after k p q s ep eq free shared = cc
AllSettled-twin before (page ∷ rest) [] k p q s ep eq free shared = elim s [ ]
AllSettled-twin before (page ∷ rest) (x ∷ others) zero p q s ep eq free shared =
    let settled : IsSettled before p q = subst₂ (IsSettled before) (cc) (cc) s.0 in
    let (t, at, alone, same) = IsSettled-twin before p q settled free shared in
    (
      omega (arith, lt-get_elem? before q.home_index t at),
      (t, get_elem?-append_left before (x ∷ others) q.home_index t at, alone, same),
    )
AllSettled-twin before (page ∷ rest) (x ∷ others) (suc k) p q s ep eq free shared =
    let (low, twin) = AllSettled-twin (before ++ x ∷ []) rest others k p q s.1 ep eq free shared in
    (omega (arith, length-append before (x ∷ [])), rw (append_assoc before (x ∷ []) others) at twin)

-- No two pages that are still unshared have the same content.
pub AllSettled-distinct :
    (before pages after : List Page) (j k : ℕ) (p q : Page)
    → AllSettled before pages after
    → j < length before + k
    → get_elem? (before ++ after) j ≡ some p
    → get_elem? after k ≡ some q
    → p.shared ≡ false
    → q.shared ≡ false
    → p.bytes ≢ q.bytes
AllSettled-distinct before pages [] j k p q s low ep eq free alone e = cc
AllSettled-distinct before [] (x ∷ others) j k p q s low ep eq free alone e = elim s [ ]
AllSettled-distinct before (page ∷ rest) (x ∷ others) j zero p q s low ep eq free alone e =
    let settled : IsSettled before page q = subst (IsSettled before page) (cc) s.0 in
    IsSettled-alone before page q settled alone j p
      (sym (get_elem?-append_lt before (x ∷ others) j (omega arith)) ∙ ep) free e
AllSettled-distinct before (page ∷ rest) (x ∷ others) j (suc k) p q s low ep eq free alone e =
    AllSettled-distinct (before ++ x ∷ []) rest others j k p q s.1
      (omega (arith, length-append before (x ∷ []))) (rw (append_assoc before (x ∷ []) others) ep)
      eq free alone e
