-- ===== src/Engine/SignatureMap.antt =====
-- The `std::unordered_map` of `scanRegion`, from a signature to the indices of its pages.
use project_ram_crisis.Prelude.{ℕ, ◌≡◌, ◌↔◌, true, List, [], ◌∷◌, ◌++◌, if◌then◌else◌, arith}
use project_ram_crisis.Engine.Data.{PageSignature, signature_eq}

abbrev pub SignatureMap : Type 0
SignatureMap = List (PageSignature × List ℕ)

-- The list that `signatureMap[signature]` refers to; a key that is not there gets an empty one.
unfoldable pub lookup_list : PageSignature → SignatureMap → List ℕ
lookup_list signature [] = []
lookup_list signature ((key, list) ∷ rest) =
    if signature_eq key signature then list else lookup_list signature rest

-- The map after `signatureMap[signature]`.
pub insert_default : PageSignature → SignatureMap → SignatureMap
insert_default signature [] = (signature, []) ∷ []
insert_default signature ((key, list) ∷ rest) =
    if signature_eq key signature
    then (key, list) ∷ rest
    else (key, list) ∷ insert_default signature rest

-- `collisionList.push_back(index)`, for the list of a key that is there.
pub push_back : PageSignature → ℕ → SignatureMap → SignatureMap
push_back signature index [] = []
push_back signature index ((key, list) ∷ rest) =
    if signature_eq key signature
    then (key, list ++ index ∷ []) ∷ rest
    else (key, list) ∷ push_back signature index rest

pub signature_eq_iff : (a b : PageSignature) → (signature_eq a b ≡ true) ↔ (a ≡ b)
unfolding signature_eq
signature_eq_iff a b = ground arith

pub lookup_list-insert_default :
    (s t : PageSignature) (m : SignatureMap) → lookup_list t (insert_default s m) ≡ lookup_list t m
unfolding lookup_list insert_default
lookup_list-insert_default s t [] = ground arith
lookup_list-insert_default s t ((key, list) ∷ rest) =
    ground (arith, lookup_list-insert_default s t rest)

pub lookup_list-push_back :
    (s t : PageSignature) (index : ℕ) (m : SignatureMap)
    → lookup_list t (push_back s index (insert_default s m))
      ≡ (if signature_eq s t then lookup_list s m ++ index ∷ [] else lookup_list t m)
unfolding lookup_list insert_default push_back
lookup_list-push_back s t index [] = ground (arith, signature_eq_iff s s, signature_eq_iff s t)
lookup_list-push_back s t index ((key, list) ∷ rest) = ground (
  arith,
  signature_eq_iff s t,
  signature_eq_iff key s,
  signature_eq_iff key t,
  lookup_list-push_back s t index rest,
)
