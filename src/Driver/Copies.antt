-- ===== src/Driver/Copies.antt =====
-- Lists of copies of one number: the keys of a table into which one key goes again and again.
use project_ram_crisis.Prelude.{ℕ, zero, suc, ◌≡◌, refl, ap, List, [], ◌∷◌, length}
use project_ram_crisis.Driver.Kernel.{insert_at}

-- Every number of the list is this one.
abbrev pub AllAre : ℕ → List ℕ → Type 0
AllAre n [] = Unit
AllAre n (x ∷ xs) = (x ≡ n) × AllAre n xs

pub insert_at-AllAre : (n i : ℕ) (xs : List ℕ) → AllAre n xs → AllAre n (insert_at i n xs)
insert_at-AllAre n zero xs all = (refl, all)
insert_at-AllAre n (suc i) [] all = (refl, tt)
insert_at-AllAre n (suc i) (x ∷ xs) all = (all.0, insert_at-AllAre n i xs all.1)

pub length-insert_at :
    {A : Type 0} (i : ℕ) (a : A) (xs : List A) → length (insert_at i a xs) ≡ suc (length xs)
length-insert_at zero a xs = refl
length-insert_at (suc i) a [] = refl
length-insert_at (suc i) a (x ∷ xs) = ap suc (length-insert_at i a xs)
