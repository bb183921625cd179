-- ===== src/Driver/Policy/Laws.antt =====
-- The policy refuses the names of the list in any spelling of their letters, and no other.
use project_ram_crisis.Prelude.{
  ℕ, ◌+◌, ◌≡◌, ◌≤◌, ◌↔◌, ◌⊎◌, refl, true, false, List, [], ◌∷◌, Option, none, some, arith, ==_iff,
}
use project_ram_crisis.Driver.Policy.{
  codes, blacklisted, lower, is_ascii_string_equal_ignore_case, matches_none,
  is_process_policy_allowed,
}

-- One letter of ASCII in either case, or the same character.
abbrev pub SameLetter : ℕ → ℕ → Type 0
SameLetter a b =
    (a ≡ b) ⊎ (((65 ≤ a) × (a ≤ 90) × (b ≡ a + 32)) ⊎ ((65 ≤ b) × (b ≤ 90) × (a ≡ b + 32)))

abbrev pub SameSpelling : List ℕ → List ℕ → Type 0
SameSpelling [] [] = Unit
SameSpelling [] (b ∷ right) = ⊥
SameSpelling (a ∷ left) [] = ⊥
SameSpelling (a ∷ left) (b ∷ right) = SameLetter a b × SameSpelling left right

-- The name is one of the list, letter case ignored.
abbrev pub IsListed : List ℕ → List (List ℕ) → Type 0
IsListed image_name [] = ⊥
IsListed image_name (name ∷ rest) = SameSpelling image_name name ⊎ IsListed image_name rest

lower-SameLetter : (a b : ℕ) → (lower a ≡ lower b) ↔ SameLetter a b
unfolding lower
lower-SameLetter a b = ground arith

ignore_case-SameSpelling :
    (left right : List ℕ)
    → (is_ascii_string_equal_ignore_case left right ≡ true) ↔ SameSpelling left right
unfolding is_ascii_string_equal_ignore_case
ignore_case-SameSpelling [] [] = ((λ e. tt), (λ h. refl))
ignore_case-SameSpelling [] (b ∷ right) = ((λ e. cc), (λ h. absurd h))
ignore_case-SameSpelling (a ∷ left) [] = ((λ e. cc), (λ h. absurd h))
ignore_case-SameSpelling (a ∷ left) (b ∷ right) =
    ground
      (arith, ignore_case-SameSpelling left right, ==_iff (lower a) (lower b), lower-SameLetter a b)

matches_none_iff :
    (image_name : List ℕ) (names : List (List ℕ))
    → (matches_none image_name names ≡ false) ↔ IsListed image_name names
unfolding matches_none
matches_none_iff image_name [] = ((λ e. cc), (λ h. absurd h))
matches_none_iff image_name (name ∷ rest) =
    ground (arith, matches_none_iff image_name rest, ignore_case-SameSpelling image_name name)

-- A process without an image name, or whose name is one of nine.
abbrev pub IsRefused : Option (List ℕ) → Type 0
IsRefused none = Unit
IsRefused (some image_name) = IsListed image_name (
    codes "System"
    ∷ codes "smss.exe"
    ∷ codes "csrss.exe"
    ∷ codes "wininit.exe"
    ∷ codes "services.exe"
    ∷ codes "lsass.exe"
    ∷ codes "winlogon.exe"
    ∷ codes "spoolsv.exe"
    ∷ codes "svchost.exe"
    ∷ [])

-- A process is refused exactly when it has no image name, or its name is System, smss.exe, csrss.exe,
-- wininit.exe, services.exe, lsass.exe, winlogon.exe, spoolsv.exe or svchost.exe, character by
-- character, where a letter from A to Z is the same as the one 32 above it.
pub is_process_policy_allowed_iff :
    (name : Option (List ℕ)) → (is_process_policy_allowed name ≡ false) ↔ IsRefused name
unfolding is_process_policy_allowed
is_process_policy_allowed_iff none = ((λ e. tt), (λ h. refl))
is_process_policy_allowed_iff (some image_name) = matches_none_iff image_name blacklisted
