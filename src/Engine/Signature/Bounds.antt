-- ===== src/Engine/Signature/Bounds.antt =====
-- Which lengths `computeFingerprint` can sample: it reads three bytes at eight places.
use Prim.Native.Nat.{bit_xor, bit_or}
use project_ram_crisis.Prelude.{
  ℕ, zero, suc, ◌+◌, ◌*◌, ◌/◌, ◌%◌, ◌^◌, ◌<◌, ◌≤◌, ◌≡◌, ◌≢◌, ◌↔◌, ◌⊎◌, ◌∙◌, sym, refl, inl, inr,
  List, none, some, arith, length, get_elem?-lt, get_elem?-ge, Option-cases, mul32, u32_mod,
}
use project_ram_crisis.Engine.Data.{PageSignature, Page, page_size}
use project_ram_crisis.Engine.Signature.{
  fast_hash64, sample, sample_loop, compute_fingerprint, signature_of, make_signature,
}

-- A length at which every sample lies inside the bytes.
abbrev pub IsSampled : ℕ → Type 0
IsSampled n = 2 < n / 8 + n % 8

sample-total :
    (idx : ℕ) (bytes : List ℕ) (acc : ℕ)
    → idx + 2 < length bytes
    → (r : ℕ) × (sample idx bytes acc ≡ some r)
unfolding sample
sample-total idx bytes acc h =
    let (b0, e0) = get_elem?-lt bytes idx (omega arith) in
    let (b1, e1) = get_elem?-lt bytes (idx + 1) (omega arith) in
    let (b2, e2) = get_elem?-lt bytes (idx + 2) h in
    (
      mul32 (bit_xor acc (bit_or (bit_or (b0 * 2 ^ 16 % u32_mod) (b1 * 2 ^ 8 % u32_mod)) b2))
          16777619,
      simp (e0, e1, e2),
    )

sample-none :
    (idx : ℕ) (bytes : List ℕ) (acc : ℕ) → length bytes ≤ idx + 2 → sample idx bytes acc ≡ none
unfolding sample
sample-none idx bytes acc h = ground (arith, get_elem?-ge bytes (idx + 2))

sample_loop-total :
    (rounds i stride : ℕ) (bytes : List ℕ) (acc : ℕ)
    → (i + rounds) * stride + 2 < length bytes + stride
    → (r : ℕ) × (sample_loop rounds i stride bytes acc ≡ some r)
unfolding sample_loop
sample_loop-total zero i stride bytes acc h = (acc, refl)
sample_loop-total (suc rounds) i stride bytes acc h =
    let (next, e) = sample-total (i * stride) bytes acc (omega arith) in
    let (r, rest) = sample_loop-total rounds (i + 1) stride bytes next (omega arith) in
    (r, rw e rest)

sample_loop-none :
    (rounds i stride : ℕ) (bytes : List ℕ) (acc : ℕ)
    → length bytes + stride ≤ (i + suc rounds) * stride + 2
    → sample_loop (suc rounds) i stride bytes acc ≡ none
unfolding sample_loop
sample_loop-none zero i stride bytes acc h = rw (sample-none (i * stride) bytes acc (omega arith))
sample_loop-none (suc rounds) i stride bytes acc h =
    elim (Option-cases (sample (i * stride) bytes acc)) [
      | inl e ↦ rw e
      | inr (next, e) ↦ rw e (sample_loop-none rounds (i + 1) stride bytes next (omega arith))
    ]

-- With such a length every read is inside the bytes, and with any other some read is not.
pub signature_of-total :
    (bytes : List ℕ)
    → IsSampled (length bytes)
    → (s : PageSignature) × (signature_of bytes ≡ some s)
unfolding signature_of compute_fingerprint
signature_of-total bytes h =
    let (r, e) = sample_loop-total 8 0 (length bytes / 8) bytes 0x811C9DC5 (omega arith) in
    (record { hash = fast_hash64 bytes; fingerprint = bit_xor r (length bytes % u32_mod) }, rw e)

pub signature_of-none :
    (bytes : List ℕ) → length bytes / 8 + length bytes % 8 ≤ 2 → signature_of bytes ≡ none
unfolding signature_of compute_fingerprint
signature_of-none bytes h =
    rw (sample_loop-none 7 0 (length bytes / 8) bytes 0x811C9DC5 (omega arith))

-- Pages of `PageSize` bytes can be hashed.
pub page_size-IsSampled : IsSampled page_size
page_size-IsSampled = omega arith

-- `makeSignature` reads inside the page exactly when the last of its samples ends inside it: for a
-- page of n bytes, when n / 8 + n % 8 is more than 2.
pub make_signature-IsSampled :
    (page : Page)
    → ((s : PageSignature) × (make_signature page ≡ some s)) ↔ IsSampled (length page.bytes)
unfolding make_signature
make_signature-IsSampled page = (
  (λ (s, e). elim (le_or_lt (length page.bytes / 8 + length page.bytes % 8)) [
    | inl short ↦ absurd (some≢none s (sym e ∙ signature_of-none page.bytes short))
    | inr enough ↦ enough
  ]),
  signature_of-total page.bytes,
)
  where
    le_or_lt : (n : ℕ) → (n ≤ 2) ⊎ (2 < n)
    le_or_lt n = omega arith

    some≢none : (s : PageSignature) → some s ≢ none
    some≢none s e = cc
