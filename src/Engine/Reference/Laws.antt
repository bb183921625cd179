-- ===== src/Engine/Reference/Laws.antt =====
-- What the reference scan keeps, shares and leaves.
use project_ram_crisis.Prelude.{
  ℕ, suc, ◌+◌, ◌≡◌, refl, inl, inr, Bool, true, false, not, List, [], ◌∷◌, ◌++◌, map, none, some,
  arith, Bool-cases, Option-cases, count_if, length,
}
use project_ram_crisis.Engine.Data.{Page, mark_shared, is_shared}
use project_ram_crisis.Engine.Reference.{Seen, first_with, dedupe, merges}

abbrev pub contents : List Page → List (List ℕ)
contents = map λ p. p.bytes

abbrev pub is_unshared : Page → Bool
is_unshared page = not page.shared

-- The three equations of the reference.
module _ (seen : Seen) (index : ℕ) (page : Page) (rest : List Page) where
  pub dedupe-shared :
      page.shared ≡ true → dedupe seen index (page ∷ rest) ≡ page ∷ dedupe seen (suc index) rest
  unfolding dedupe
  dedupe-shared e = simp e

  pub dedupe-kept :
      page.shared ≡ false
      → first_with page.bytes seen ≡ none
      → dedupe seen index (page ∷ rest)
        ≡ page ∷ dedupe (seen ++ (index, page.bytes) ∷ []) (suc index) rest
  unfolding dedupe
  dedupe-kept e n = simp (e, n)

  pub dedupe-merged :
      (r : ℕ)
      → page.shared ≡ false
      → first_with page.bytes seen ≡ some r
      → dedupe seen index (page ∷ rest) ≡ mark_shared page r ∷ dedupe seen (suc index) rest
  unfolding dedupe
  dedupe-merged r e n = simp (e, n)

module _ {ℓ} (seen : Seen) (page : Page) (P : Type ℓ) where
  -- The three cases of a page.
  pub page-cases :
      (page.shared ≡ true → P)
      → (page.shared ≡ false → first_with page.bytes seen ≡ none → P)
      → ((r : ℕ) → page.shared ≡ false → first_with page.bytes seen ≡ some r → P)
      → P
  page-cases shared kept merged = elim (Bool-cases page.shared) [
    | inl e ↦ shared e
    | inr e ↦ elim (Option-cases (first_with page.bytes seen)) [
      | inl n ↦ kept e n
      | inr (r, n) ↦ merged r e n
    ]
  ]

-- A scan changes no content.
pub contents-dedupe :
    (seen : Seen) (index : ℕ) (pages : List Page)
    → contents (dedupe seen index pages) ≡ contents pages
unfolding dedupe mark_shared
contents-dedupe seen index [] = refl
contents-dedupe seen index (page ∷ rest) = ground (
  arith,
  contents-dedupe seen (suc index) rest,
  contents-dedupe (seen ++ (index, page.bytes) ∷ []) (suc index) rest,
)

-- Each unshared page is either merged or still unshared afterwards.
pub count-dedupe :
    (seen : Seen) (index : ℕ) (pages : List Page)
    → count_if is_unshared pages
      ≡ merges seen index pages + count_if is_unshared (dedupe seen index pages)
unfolding dedupe merges mark_shared
count-dedupe seen index [] = omega arith
count-dedupe seen index (page ∷ rest) = ground (
  arith,
  count-dedupe seen (suc index) rest,
  count-dedupe (seen ++ (index, page.bytes) ∷ []) (suc index) rest,
)

-- A second scan changes nothing and merges nothing.
pub dedupe-dedupe :
    (seen : Seen) (index : ℕ) (pages : List Page)
    → (dedupe seen index (dedupe seen index pages) ≡ dedupe seen index pages)
      × (merges seen index (dedupe seen index pages) ≡ 0)
unfolding dedupe merges mark_shared
dedupe-dedupe seen index [] = (refl, refl)
dedupe-dedupe seen index (page ∷ rest) = ground (
  arith,
  dedupe-dedupe seen (suc index) rest,
  dedupe-dedupe (seen ++ (index, page.bytes) ∷ []) (suc index) rest,
)

pub length-dedupe :
    (seen : Seen) (index : ℕ) (pages : List Page) → length (dedupe seen index pages) ≡ length pages
unfolding dedupe
length-dedupe seen index [] = refl
length-dedupe seen index (page ∷ rest) = ground (
  arith,
  length-dedupe seen (suc index) rest,
  length-dedupe (seen ++ (index, page.bytes) ∷ []) (suc index) rest,
)

-- The shared pages grow by those merged.
pub count-shared-dedupe :
    (seen : Seen) (index : ℕ) (pages : List Page)
    → count_if is_shared (dedupe seen index pages)
      ≡ count_if is_shared pages + merges seen index pages
unfolding dedupe merges mark_shared
count-shared-dedupe seen index [] = omega arith
count-shared-dedupe seen index (page ∷ rest) = ground (
  arith,
  count-shared-dedupe seen (suc index) rest,
  count-shared-dedupe (seen ++ (index, page.bytes) ∷ []) (suc index) rest,
)
