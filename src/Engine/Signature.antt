-- ===== src/Engine/Signature.antt =====
-- `fastHash64`, `computeFingerprint` and `makeSignature` of user/dedupe_engine.cpp.
pub mod Bounds
use Prim.Native.Nat.{bit_xor, bit_or}
use project_ram_crisis.Prelude.{
  ℕ, zero, suc, ◌+◌, ◌*◌, ◌/◌, ◌%◌, ◌^◌, ◌<◌, ◌≡◌, ◌≢◌, refl, List, [], ◌∷◌, Option, none, some,
  arith, length, get_elem?, get_elem?-lt, get_elem?-ge, ◌>>=◌, u32_mod, mul32, mul64, shr,
}
use project_ram_crisis.Engine.Data.{PageSignature, Page}

-- The FNV loop over the bytes.
fnv_loop : ℕ → List ℕ → ℕ
fnv_loop hash [] = hash
fnv_loop hash (byte ∷ rest) = fnv_loop (mul64 (bit_xor hash byte) 1099511628211) rest

-- The three rounds of final mixing.
mix : ℕ → ℕ
mix hash =
    let h1 = mul64 (bit_xor hash (shr hash 33)) 0xff51afd7ed558ccd in
    let h2 = mul64 (bit_xor h1 (shr h1 33)) 0xc4ceb9fe1a85ec53 in bit_xor h2 (shr h2 33)

pub fast_hash64 : List ℕ → ℕ
unfolding fnv_loop mix
fast_hash64 bytes = mix (fnv_loop 1469598103934665603 bytes)

-- One round of `computeFingerprint`, which reads three bytes. A read past the end of the array is
-- undefined, which is `none`.
sample : ℕ → List ℕ → ℕ → Option ℕ
sample idx bytes acc = do
  b0 ← get_elem? bytes idx
  b1 ← get_elem? bytes (idx + 1)
  b2 ← get_elem? bytes (idx + 2)
  let value = bit_or (bit_or (b0 * 2 ^ 16 % u32_mod) (b1 * 2 ^ 8 % u32_mod)) b2
  some (mul32 (bit_xor acc value) 16777619)

-- Its loop, with the rounds left first.
sample_loop : ℕ → ℕ → ℕ → List ℕ → ℕ → Option ℕ
sample_loop zero i stride bytes acc = some acc
sample_loop (suc rounds) i stride bytes acc =
    sample (i * stride) bytes acc >>= sample_loop rounds (i + 1) stride bytes

pub compute_fingerprint : List ℕ → Option ℕ
unfolding sample sample_loop
compute_fingerprint bytes = do
  acc ← sample_loop 8 0 (length bytes / 8) bytes 0x811C9DC5
  some (bit_xor acc (length bytes % u32_mod))

pub signature_of : List ℕ → Option PageSignature
unfolding compute_fingerprint fast_hash64
signature_of bytes = do
  fingerprint ← compute_fingerprint bytes
  some (record { hash = fast_hash64 bytes; fingerprint = fingerprint })

-- `DedupeEngine::makeSignature`.
unfoldable pub make_signature : Page → Option PageSignature
make_signature page = signature_of page.bytes
