-- ===== src/Engine/Reference/Known.antt =====
-- What the reference scan merges for certain: pages whose content it has met before.
use project_ram_crisis.Prelude.{
  ℕ, suc, ◌≤◌, ◌≡◌, refl, false, List, [], ◌∷◌, ◌++◌, some, arith, Bool-cases, inl, inr, list_eq,
  list_eq_iff,
}
use project_ram_crisis.Engine.Data.{Page}
use project_ram_crisis.Engine.Reference.{Seen, first_with, merges}
use project_ram_crisis.Engine.Reference.Laws.{page-cases}

-- There is a representative with this content.
abbrev pub Knows : Seen → List ℕ → Type 0
Knows seen bytes = (r : ℕ) × (first_with bytes seen ≡ some r)

-- Whatever is known before is known after.
abbrev Extends : Seen → Seen → Type 0
Extends seen later = (bytes : List ℕ) → Knows seen bytes → Knows later bytes

Knows-append : (seen : Seen) (x : ℕ × List ℕ) → Extends seen (seen ++ x ∷ [])
unfolding first_with
Knows-append [] x bytes (r, e) = cc
Knows-append ((index, content) ∷ rest) x bytes (r, e) = elim (Bool-cases (list_eq content bytes)) [
  | inl same ↦ (index, simp same)
  | inr other ↦
      let (q, found) = Knows-append rest x bytes (r, simp other at e) in (q, simp other found)
]

Knows-new : (seen : Seen) (index : ℕ) (bytes : List ℕ) → Knows (seen ++ (index, bytes) ∷ []) bytes
unfolding first_with
Knows-new [] index bytes = (index, simp ((list_eq_iff bytes bytes).1 refl))
Knows-new ((other, content) ∷ rest) index bytes = elim (Bool-cases (list_eq content bytes)) [
  | inl same ↦ (other, simp same)
  | inr differs ↦ let (q, found) = Knows-new rest index bytes in (q, simp differs found)
]

-- A page with a known content is merged.
pub merges-known :
    (seen : Seen) (index : ℕ) (page : Page) (rest : List Page)
    → page.shared ≡ false
    → Knows seen page.bytes
    → merges seen index (page ∷ rest) ≡ suc (merges seen (suc index) rest)
unfolding merges
merges-known seen index page rest free (r, known) = simp (free, known)

-- Behind any page that was not shared, its content is known, and what was known before.
pub merges-learns :
    (seen : Seen) (index : ℕ) (page : Page) (rest : List Page)
    → page.shared ≡ false
    → (later : Seen) × Extends seen later
      × Knows later page.bytes
      × (merges later (suc index) rest ≤ merges seen index (page ∷ rest))
unfolding merges
merges-learns seen index page rest free =
    page-cases seen page _ (λ shared. cc)
      (λ e new. (
        seen ++ (index, page.bytes) ∷ [],
        Knows-append seen (index, page.bytes),
        Knows-new seen index page.bytes,
        simp (e, new) (omega arith),
      ))
      (λ r e old. (seen, λ bytes k. k, (r, old), simp (e, old) (omega arith)))
