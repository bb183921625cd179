-- ===== src/Engine/Reference/Sharing.antt =====
-- The reference shares a page exactly when an earlier page that stays unshared has its content.
use project_ram_crisis.Prelude.{
  ℕ, suc, ◌≡◌, ◌≢◌, refl, subst, ◌⊎◌, inl, inr, true, false, List, [], ◌∷◌, ◌++◌, none, some, arith,
  length, length-append, get_elem?, list_eq_iff, get_elem?-snoc, get_elem?-append_left,
  get_elem?-append_at,
}
use project_ram_crisis.Engine.Data.{Page, mark_shared}
use project_ram_crisis.Engine.Reference.{Seen, first_with, dedupe}
use project_ram_crisis.Engine.Reference.Laws.{dedupe-shared, dedupe-kept, dedupe-merged, page-cases}

-- One of these pages stands at `home`, is not shared, and has this content.
abbrev pub HasTwin : List Page → ℕ → List ℕ → Type 0
HasTwin pages home bytes =
    (q : Page) × (get_elem? pages home ≡ some q) × (q.shared ≡ false) × (q.bytes ≡ bytes)

-- None of these pages is unshared with this content.
abbrev pub HasNoTwin : List Page → List ℕ → Type 0
HasNoTwin pages bytes =
    (j : ℕ) (q : Page) → get_elem? pages j ≡ some q → q.shared ≡ false → q.bytes ≢ bytes

-- A page that the scan has looked at, with the pages before it.
abbrev pub IsSettled : List Page → Page → Page → Type 0
IsSettled before page after =
    (page.shared ≡ true → after ≡ page)
    × (page.shared ≡ false
        → ((after ≡ page) × HasNoTwin before page.bytes)
          ⊎ ((r : ℕ) × (after ≡ mark_shared page r) × HasTwin before r page.bytes))

abbrev pub AllSettled : List Page → List Page → List Page → Type 0
AllSettled before [] [] = Unit
AllSettled before [] (_ ∷ _) = ⊥
AllSettled before (_ ∷ _) [] = ⊥
AllSettled before (page ∷ rest) (after ∷ others) =
    IsSettled before page after × AllSettled (before ++ after ∷ []) rest others

-- The representatives so far are exactly the unshared pages so far.
abbrev Covers : List Page → Seen → Type 0
Covers before seen =
    ((bytes : List ℕ) (r : ℕ) → first_with bytes seen ≡ some r → HasTwin before r bytes)
    × ((bytes : List ℕ) → first_with bytes seen ≡ none → HasNoTwin before bytes)

first_with-snoc :
    (bytes content : List ℕ) (index : ℕ) (seen : Seen)
    → first_with bytes (seen ++ (index, content) ∷ []) ≡ elim (first_with bytes seen) [
      | some r ↦ some r
      | none ↦ first_with bytes ((index, content) ∷ [])
    ]
unfolding first_with
first_with-snoc bytes content index [] = refl
first_with-snoc bytes content index ((i, c) ∷ rest) =
    ground (arith, first_with-snoc bytes content index rest)

first_with-found :
    (bytes content : List ℕ) (index : ℕ) (seen : Seen) (r : ℕ)
    → first_with bytes (seen ++ (index, content) ∷ []) ≡ some r
    → (first_with bytes seen ≡ some r) ⊎ ((index ≡ r) × (content ≡ bytes))
unfolding first_with
first_with-found bytes content index seen r h =
    ground (arith, first_with-snoc bytes content index seen, list_eq_iff content bytes)

first_with-missed :
    (bytes content : List ℕ) (index : ℕ) (seen : Seen)
    → first_with bytes (seen ++ (index, content) ∷ []) ≡ none
    → (first_with bytes seen ≡ none) × (content ≢ bytes)
unfolding first_with
first_with-missed bytes content index seen h =
    ground (arith, first_with-snoc bytes content index seen, list_eq_iff content bytes)

HasTwin-snoc :
    (before : List Page) (page : Page) (r : ℕ) (bytes : List ℕ)
    → HasTwin before r bytes
    → HasTwin (before ++ page ∷ []) r bytes
HasTwin-snoc before page r bytes (q, at, free, same) =
    (q, get_elem?-append_left before (page ∷ []) r q at, free, same)

HasNoTwin-snoc :
    (before : List Page) (page : Page) (bytes : List ℕ)
    → (page.shared ≡ false → page.bytes ≢ bytes)
    → HasNoTwin before bytes
    → HasNoTwin (before ++ page ∷ []) bytes
HasNoTwin-snoc before page bytes new old j q at free = elim (get_elem?-snoc before page j q at) [
  | inl e ↦ old j q e free
  | inr (_, e) ↦ subst (λ t. t.shared ≡ false → t.bytes ≢ bytes) e new free
]

-- A shared page adds nothing to cover.
Covers-shared :
    (before : List Page) (page : Page) (seen : Seen)
    → page.shared ≡ true
    → Covers before seen
    → Covers (before ++ page ∷ []) seen
Covers-shared before page seen e (twin, lone) = (
  λ bytes r h. HasTwin-snoc before page r bytes (twin bytes r h),
  λ bytes h. HasNoTwin-snoc before page bytes (λ f. cc) (lone bytes h),
)

Covers-kept :
    (before : List Page) (page : Page) (index : ℕ) (seen : Seen)
    → index ≡ length before
    → page.shared ≡ false
    → Covers before seen
    → Covers (before ++ page ∷ []) (seen ++ (index, page.bytes) ∷ [])
Covers-kept before page index seen ei e (twin, lone) = (
  λ bytes r h. elim (first_with-found bytes page.bytes index seen r h) [
    | inl old ↦ HasTwin-snoc before page r bytes (twin bytes r old)
    | inr (here, same) ↦ (page, rw (← here, ei) (get_elem?-append_at before [] page), e, same)
  ],
  λ bytes h.
      let (old, other) = first_with-missed bytes page.bytes index seen h in
      HasNoTwin-snoc before page bytes (λ _. other) (lone bytes old),
)

-- Every page is settled against what stands before it in the result.
pub dedupe-AllSettled :
    (before pages : List Page) (seen : Seen) (index : ℕ)
    → index ≡ length before
    → Covers before seen
    → AllSettled before pages (dedupe seen index pages)
dedupe-AllSettled before [] seen index ei covers = unfold dedupe in tt
dedupe-AllSettled before (page ∷ rest) seen index ei covers =
    page-cases seen page (AllSettled before (page ∷ rest) (dedupe seen index (page ∷ rest)))
      (λ shared. rw (dedupe-shared seen index page rest shared) (
        ((λ _. refl), (λ f. cc)),
        dedupe-AllSettled (before ++ page ∷ []) rest seen (suc index) (grown page)
            (Covers-shared before page seen shared covers),
      ))
      (λ free new. rw (dedupe-kept seen index page rest free new) (
        ((λ f. cc), (λ _. inl (refl, covers.1 page.bytes new))),
        dedupe-AllSettled (before ++ page ∷ []) rest (seen ++ (index, page.bytes) ∷ []) (suc index)
            (grown page) (Covers-kept before page index seen ei free covers),
      ))
      (λ r free old. rw (dedupe-merged seen index page rest r free old) (
        ((λ f. cc), (λ _. inr (r, refl, covers.0 page.bytes r old))),
        dedupe-AllSettled (before ++ mark_shared page r ∷ []) rest seen (suc index)
            (grown (mark_shared page r))
            (Covers-shared before (mark_shared page r) seen (unfold mark_shared in refl) covers),
      ))
  where
    grown : (after : Page) → suc index ≡ length (before ++ after ∷ [])
    grown after = omega (arith, length-append before (after ∷ []))
