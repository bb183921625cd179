-- ===== src/Engine/Scan/Agreement.antt =====
-- The loop of `scanRegion` and the reference of Engine/Reference.antt, step by step.
use mathlib.Core.List.{map-append}
use native.Mathlib.Decide.{ℕ_discrete}
use project_ram_crisis.Prelude.{
  append-nil, get_elem?-set_self, get_elem?-set_ne, lt-get_elem?, ℕ, ◌<◌, ◌≡◌, refl, sym, ap, ◌∙◌,
  inl, inr, Bool, true, false, List, [], ◌∷◌, ◌++◌, map, none, some, arith, length, get_elem?, set,
  ◌==◌, ◌&&◌, Bool-cases, list_eq, list_eq_iff, select, select-append, size_max,
}
use project_ram_crisis.Engine.Data.{PageSignature, Page, signature_eq}
use project_ram_crisis.Engine.Signature.{signature_of}
use project_ram_crisis.Engine.SignatureMap.{
  SignatureMap, lookup_list, insert_default, push_back, signature_eq_iff,
  lookup_list-insert_default, lookup_list-push_back,
}
use project_ram_crisis.Engine.Reference.{Seen, first_with}
use project_ram_crisis.Engine.Scan.{same_bytes, pages_are_equal, find_representative}

same_bytes_lem : (xs ys : List ℕ) → (length xs == length ys && same_bytes xs ys) ≡ list_eq xs ys
unfolding same_bytes list_eq
same_bytes_lem [] [] = refl
same_bytes_lem [] (y ∷ ys) = ground arith
same_bytes_lem (x ∷ xs) [] = ground arith
same_bytes_lem (x ∷ xs) (y ∷ ys) = ground (arith, same_bytes_lem xs ys)

pages_are_equal_lem : (a b : Page) → pages_are_equal a b ≡ list_eq a.bytes b.bytes
unfolding pages_are_equal
pages_are_equal_lem a b = same_bytes_lem a.bytes b.bytes

-- Whether a content has this signature.
pub has_signature : PageSignature → ℕ × List ℕ → Bool
has_signature signature (index, bytes) = elim (signature_of bytes) [
  | none ↦ false
  | some s ↦ signature_eq s signature
]

abbrev pub index_of : ℕ × List ℕ → ℕ
index_of (index, bytes) = index

-- Every representative still stands at its index, with its content.
abbrev pub Located : List Page → Seen → Type 0
Located pages [] = Unit
Located pages ((index, bytes) ∷ rest) =
    ((q : Page) × (get_elem? pages index ≡ some q) × (q.bytes ≡ bytes) × (index < size_max))
    × Located pages rest

-- The signature map lists, for each signature, the representatives that have it, in order.
abbrev pub Tracks : SignatureMap → Seen → Type 0
Tracks m seen = (s : PageSignature) → lookup_list s m ≡ map index_of (select (has_signature s) seen)

has_own_signature :
    (s : PageSignature) (index : ℕ) (bytes : List ℕ)
    → signature_of bytes ≡ some s
    → has_signature s (index, bytes) ≡ true
unfolding has_signature
has_own_signature s index bytes e = rw (e, has_signature) ((signature_eq_iff s s).1 refl)

module _ (pages : List Page) (page q : Page) (index : ℕ) (rest : List ℕ) where
  find_hit :
      get_elem? pages index ≡ some q
      → list_eq q.bytes page.bytes ≡ true
      → find_representative pages page (index ∷ rest) ≡ some (some index)
  unfolding find_representative
  find_hit at same = ground (arith, pages_are_equal_lem q page)

  find_miss :
      get_elem? pages index ≡ some q
      → list_eq q.bytes page.bytes ≡ false
      → find_representative pages page (index ∷ rest) ≡ find_representative pages page rest
  unfolding find_representative
  find_miss at other = ground (arith, pages_are_equal_lem q page)

-- Searching one collision list finds the first representative of all with the same content.
pub find_lem :
    (pages : List Page) (page : Page) (s : PageSignature) (seen : Seen)
    → signature_of page.bytes ≡ some s
    → Located pages seen
    → find_representative pages page (map index_of (select (has_signature s) seen))
      ≡ some (first_with page.bytes seen)
unfolding first_with
find_lem pages page s [] e h = unfold find_representative in refl
find_lem pages page s ((index, bytes) ∷ rest) e ((q, at, content, small), h) =
    elim (Bool-cases (list_eq bytes page.bytes)) [
      | inl same ↦
          rw
            (
              has_own_signature s index bytes
                  (ap signature_of ((list_eq_iff bytes page.bytes).0 same) ∙ e),
              same,
            )
            (find_hit pages page q index _ at (rw content same))
      | inr other ↦ rw other (elim (Bool-cases (has_signature s (index, bytes))) [
        | inl chosen ↦
            rw chosen (
              find_miss pages page q index _ at (rw content other) ∙ find_lem pages page s rest e h)
        | inr skipped ↦ rw skipped (find_lem pages page s rest e h)
      ])
    ]

pub first_with-lt-size_max :
    (bytes : List ℕ) (pages : List Page) (seen : Seen) (r : ℕ)
    → Located pages seen
    → first_with bytes seen ≡ some r
    → r < size_max
unfolding first_with
first_with-lt-size_max bytes pages [] r h e = cc
first_with-lt-size_max bytes pages ((index, content) ∷ rest) r ((q, at, same, small), h) e =
    ground (arith, first_with-lt-size_max bytes pages rest r h)

pub Located-set :
    (pages : List Page) (i : ℕ) (p p' : Page) (seen : Seen)
    → get_elem? pages i ≡ some p
    → p'.bytes ≡ p.bytes
    → Located pages seen
    → Located (set pages i p') seen
Located-set pages i p p' [] e b h = tt
Located-set pages i p p' ((index, content) ∷ rest) e b ((q, at, same, small), h) =
    (entry, Located-set pages i p p' rest e b h)
  where
    content_of : some p ≡ some q → p.bytes ≡ content
    content_of c = cc

    entry :
        (q' : Page) × (get_elem? (set pages i p') index ≡ some q')
        × (q'.bytes ≡ content)
        × (index < size_max)
    entry = elim (ℕ_discrete i index) [
      | yes here ↦ (
        p',
        rw (← here) (get_elem?-set_self pages i p' (lt-get_elem? pages i p e)),
        b ∙ content_of (sym e ∙ ap (get_elem? pages) here ∙ at),
        small,
      )
      | no away ↦ (q, get_elem?-set_ne pages i index p' away ∙ at, same, small)
    ]

pub Located-append :
    (pages : List Page) (i : ℕ) (p : Page) (seen : Seen)
    → get_elem? pages i ≡ some p
    → i < size_max
    → Located pages seen
    → Located pages (seen ++ (i, p.bytes) ∷ [])
Located-append pages i p [] e b h = ((p, e, refl, b), tt)
Located-append pages i p ((index, content) ∷ rest) e b h =
    (h.0, Located-append pages i p rest e b h.1)

pub Tracks-insert_default :
    (s : PageSignature) (m : SignatureMap) (seen : Seen)
    → Tracks m seen
    → Tracks (insert_default s m) seen
Tracks-insert_default s m seen h t = lookup_list-insert_default s t m ∙ h t

pub Tracks-push_back :
    (s : PageSignature) (m : SignatureMap) (seen : Seen) (index : ℕ) (bytes : List ℕ)
    → signature_of bytes ≡ some s
    → Tracks m seen
    → Tracks (push_back s index (insert_default s m)) (seen ++ (index, bytes) ∷ [])
unfolding has_signature
Tracks-push_back s m seen index bytes e h t =
    rw (lookup_list-push_back s t index m, select-append (has_signature t) seen, map-append)
      (elim (Bool-cases (signature_eq s t)) [
        | inl same ↦ rw (same, has_at same, (signature_eq_iff s t).0 same, h t) refl
        | inr other ↦ rw (other, has_at other, h t) (sym (append-nil _))
      ])
  where
    has_at : {b : Bool} → signature_eq s t ≡ b → has_signature t (index, bytes) ≡ b
    has_at c = rw (e, has_signature) c
