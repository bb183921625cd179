-- ===== src/User/Predictor.antt =====
-- `MLPredictor` of user/ml_predictor.cpp. A string is the list of its characters.
pub mod Laws
use project_ram_crisis.Prelude.{
  ℕ, ◌+◌, Bool, true, false, ◌&&◌, ◌||◌, List, [], ◌∷◌, ◌++◌, map, ltb, leb, ◌==◌, if◌then◌else◌,
}
use project_ram_crisis.Driver.Policy.{codes}
use project_ram_crisis.User.Doubles.{Doubles}

-- std::tolower in the C locale.
unfoldable pub to_lower_char : ℕ → ℕ
to_lower_char c = if leb b'A' c && leb c b'Z' then c + 32 else c

unfoldable pub to_lower : List ℕ → List ℕ
unfolding to_lower_char
to_lower input = map to_lower_char input

unfoldable pub starts_with : List ℕ → List ℕ → Bool
starts_with [] text = true
starts_with (c ∷ rest) [] = false
starts_with (c ∷ rest) (d ∷ text) = c == d && starts_with rest text

-- `text.find(word) != std::string::npos`.
unfoldable pub contains : List ℕ → List ℕ → Bool
unfolding starts_with
contains word [] = starts_with word []
contains word (d ∷ text) = starts_with word (d ∷ text) || contains word text

module _ (d : Doubles) where
  open d use {Double, hundredths, plus, minus, less}

  pub record MlPrediction : Type 0 where
    pub score : Double
    pub reason : List ℕ

  unfoldable pub clamp_score : Double → Double
  clamp_score value =
      if less value (hundredths 0)
      then hundredths 0
      else if less (hundredths 100) value
      then hundredths 100
      else value

  -- `if (test) { score += n / 100; reason += text; }`
  unfoldable pub raise_if : Bool → ℕ → List ℕ → MlPrediction → MlPrediction
  raise_if test n text p =
      if test then record { score = plus p.score (hundredths n); reason = p.reason ++ text } else p

  -- `if (test) { score -= n / 100; reason += text; }`
  unfoldable pub lower_if : Bool → ℕ → List ℕ → MlPrediction → MlPrediction
  lower_if test n text p =
      if test then record { score = minus p.score (hundredths n); reason = p.reason ++ text } else p

  abbrev pub initial : ℕ → MlPrediction
  initial n = record { score = hundredths n; reason = [] }

  abbrev pub clamped : MlPrediction → MlPrediction
  clamped p = record { score = clamp_score p.score; reason = p.reason }

  unfoldable pub predict_process : List ℕ → ℕ → MlPrediction
  unfolding to_lower contains raise_if lower_if clamp_score
  predict_process process_name page_count =
      let normalized = to_lower process_name in
      let p1 =
        raise_if (contains (codes "browser") normalized) 35 (codes "browser-like workload ")
          (initial 10) in
      let p2 =
        raise_if (contains (codes "electron") normalized) 30 (codes "electron-like workload ") p1 in
      let p3 =
        raise_if (contains (codes "vm") normalized || contains (codes "virtual") normalized) 25
          (codes "virtual-machine workload ") p2 in
      let p4 = raise_if (ltb 64 page_count) 15 (codes "large working set ") p3 in
      clamped (lower_if (ltb page_count 16) 5 (codes "small working set ") p4)

  unfoldable pub predict_region : List ℕ → ℕ → MlPrediction
  unfolding to_lower contains raise_if lower_if clamp_score
  predict_region region_name page_count =
      let normalized = to_lower region_name in
      let p1 =
        raise_if (contains (codes "tab") normalized) 40 (codes "tabbed content likely duplicates ")
          (initial 5) in
      let p2 =
        raise_if (contains (codes "cache") normalized) 30
          (codes "cache region likely repeated data ") p1 in
      let p3 = raise_if (ltb 32 page_count) 10 (codes "moderate region size ") p2 in
      clamped (lower_if (ltb page_count 8) 5 (codes "tiny region ") p3)
