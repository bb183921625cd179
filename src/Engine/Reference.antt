-- ===== src/Engine/Reference.antt =====
-- What a scan of a region promises, with no signature, no hash table and no index arithmetic:
-- each page that is not shared is compared with the earlier ones, by content alone.
pub mod Laws
pub mod Sharing
pub mod Settled
pub mod Known
use project_ram_crisis.Prelude.{
  ℕ, suc, true, false, List, [], ◌∷◌, ◌++◌, Option, none, some, if◌then◌else◌, list_eq,
}
use project_ram_crisis.Engine.Data.{Page, mark_shared}

-- The representatives so far, with their contents, in the order of the region.
abbrev pub Seen : Type 0
Seen = List (ℕ × List ℕ)

-- The first representative with this content.
unfoldable pub first_with : List ℕ → Seen → Option ℕ
unfolding list_eq
first_with bytes [] = none
first_with bytes ((index, content) ∷ rest) =
    if list_eq content bytes then some index else first_with bytes rest

-- The pages from `index` on, after a scan.
unfoldable pub dedupe : Seen → ℕ → List Page → List Page
unfolding first_with mark_shared
dedupe seen index [] = []
dedupe seen index (page ∷ rest) = elim page.shared [
  | true ↦ page ∷ dedupe seen (suc index) rest
  | false ↦ elim (first_with page.bytes seen) [
    | some representative ↦ mark_shared page representative ∷ dedupe seen (suc index) rest
    | none ↦ page ∷ dedupe (seen ++ (index, page.bytes) ∷ []) (suc index) rest
  ]
]

-- How many of those pages the scan shares.
unfoldable pub merges : Seen → ℕ → List Page → ℕ
unfolding first_with
merges seen index [] = 0
merges seen index (page ∷ rest) = elim page.shared [
  | true ↦ merges seen (suc index) rest
  | false ↦ elim (first_with page.bytes seen) [
    | some representative ↦ suc (merges seen (suc index) rest)
    | none ↦ merges (seen ++ (index, page.bytes) ∷ []) (suc index) rest
  ]
]
