-- ===== src/User/Predictor/Laws.antt =====
-- The range of the scores, and which names raise them.
use project_ram_crisis.Prelude.{
  ℕ, ◌≡◌, ◌↔◌, inl, inr, refl, ap, true, false, ◌||◌, List, [], ◌∷◌, ◌++◌, arith, ==_iff,
  Bool-cases,
}
use project_ram_crisis.User.Doubles.{Doubles}
use project_ram_crisis.User.Predictor.{
  starts_with, contains, clamp_score, predict_process, predict_region,
}

starts_with_lem :
    (word text : List ℕ)
    → (starts_with word text ≡ true) ↔ ((after : List ℕ) × (text ≡ word ++ after))
unfolding starts_with
starts_with_lem [] text = ((λ e. (text, refl)), (λ h. refl))
starts_with_lem (c ∷ rest) [] = ((λ e. cc), (λ (after, e). cc))
starts_with_lem (c ∷ rest) (d ∷ text) = (
  (λ e.
      let (after, same) = (starts_with_lem rest text).0 (ground arith) in
      (after, ground (arith, ==_iff c d))),
  (λ (after, e). ground (arith, ==_iff c d, (starts_with_lem rest text).1 (after, (cc)))),
)

-- A word is found in a text exactly if the text is something, the word, and something.
pub contains_lem :
    (word text : List ℕ)
    → (contains word text ≡ true) ↔ ((before after : List ℕ) × (text ≡ before ++ (word ++ after)))
unfolding contains
contains_lem word [] = (
  (λ e. let (after, same) = (starts_with_lem word []).0 e in ([], after, same)),
  (λ h. from_empty h.0 h.1 h.2),
)
  where
    from_empty :
        (before after : List ℕ) → [] ≡ before ++ (word ++ after) → starts_with word [] ≡ true
    from_empty [] after e = (starts_with_lem word []).1 (after, e)
    from_empty (b ∷ before) after e = cc
contains_lem word (d ∷ text) = (
  (λ e. elim (Bool-cases (starts_with word (d ∷ text))) [
    | inl here ↦ let (after, same) = (starts_with_lem word (d ∷ text)).0 here in ([], after, same)
    | inr later ↦
        let (before, after, same) = (contains_lem word text).0 (ground arith) in
        (d ∷ before, after, ap (λ l. d ∷ l) same)
  ]),
  (λ h. from_text (contains_lem word text).1 h.0 h.1 h.2),
)
  where
    from_text :
        ((before after : List ℕ) × (text ≡ before ++ (word ++ after)) → contains word text ≡ true)
        → (before after : List ℕ) → d ∷ text ≡ before ++ (word ++ after)
        → (starts_with word (d ∷ text) || contains word text) ≡ true
    from_text ih [] after e = ground (arith, (starts_with_lem word (d ∷ text)).1 (after, e))
    from_text ih (b ∷ before) after e = ground (arith, ih (before, after, (cc)))

module _ (d : Doubles) where
  open d use {Double, hundredths, less, less_irreflexive, less_one_zero}

  -- Not below 0 and not above 1.
  abbrev pub InRange : Double → Type 0
  InRange x = (less x (hundredths 0) ≡ false) × (less (hundredths 100) x ≡ false)

  clamp_score-InRange : (value : Double) → InRange (clamp_score d value)
  unfolding clamp_score
  clamp_score-InRange value =
      ground
        (arith, less_irreflexive (hundredths 0), less_irreflexive (hundredths 100), less_one_zero)

  pub predict_process-InRange :
      (name : List ℕ) (page_count : ℕ) → InRange (predict_process d name page_count).score
  unfolding predict_process
  predict_process-InRange name page_count = clamp_score-InRange _

  -- Whatever the names and sizes, no score of a process or of a region is below 0 or above 1.
  pub predict-InRange :
      (name : List ℕ) (page_count : ℕ)
      → InRange (predict_process d name page_count).score
        × InRange (predict_region d name page_count).score
  unfolding predict_region
  predict-InRange name page_count = (predict_process-InRange name page_count, clamp_score-InRange _)
