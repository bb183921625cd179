-- ===== src/Driver/Policy.antt =====
-- `IsAsciiStringEqualIgnoreCase` and `IsProcessPolicyAllowed` of driver/deduper.cpp. A string is
-- the list of its characters, up to the terminating zero.
pub mod Laws
use Prim.Native.Char.{code}
use Prim.Native.String.{String}
use project_ram_crisis.Prelude.{
  ℕ, ◌+◌, Bool, true, false, ◌&&◌, List, [], ◌∷◌, map, Option, none, some, leb, ◌==◌, if◌then◌else◌,
}

abbrev pub codes : String → List ℕ
codes String.[] = []
codes (String.◌∷◌ c s) = code c ∷ codes s

-- The two `if`s that lower a letter.
unfoldable pub lower : ℕ → ℕ
lower c = if leb b'A' c && leb c b'Z' then c + 32 else c

unfoldable pub is_ascii_string_equal_ignore_case : List ℕ → List ℕ → Bool
unfolding lower
is_ascii_string_equal_ignore_case [] [] = true
is_ascii_string_equal_ignore_case [] (b ∷ right) = false
is_ascii_string_equal_ignore_case (a ∷ left) [] = false
is_ascii_string_equal_ignore_case (a ∷ left) (b ∷ right) =
    let rest = is_ascii_string_equal_ignore_case left right in
    if lower a == lower b then rest else false

abbrev pub blacklisted : List (List ℕ)
blacklisted =
    codes "System"
    ∷ codes "smss.exe"
    ∷ codes "csrss.exe"
    ∷ codes "wininit.exe"
    ∷ codes "services.exe"
    ∷ codes "lsass.exe"
    ∷ codes "winlogon.exe"
    ∷ codes "spoolsv.exe"
    ∷ codes "svchost.exe"
    ∷ []

-- The loop over the names that are refused.
unfoldable pub matches_none : List ℕ → List (List ℕ) → Bool
unfolding is_ascii_string_equal_ignore_case
matches_none image_name [] = true
matches_none image_name (name ∷ rest) =
    let others = matches_none image_name rest in
    if is_ascii_string_equal_ignore_case image_name name then false else others

-- The name is `none` where PsGetProcessImageFileName returns a null pointer.
unfoldable pub is_process_policy_allowed : Option (List ℕ) → Bool
unfolding matches_none
is_process_policy_allowed none = false
is_process_policy_allowed (some image_name) = matches_none image_name blacklisted
