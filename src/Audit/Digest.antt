-- ===== src/Audit/Digest.antt =====
-- The padding of the hash, and its text in a record's 32 bytes.
use Prim.Native.Nat.{ℕ, zero, suc, ◌+◌, ◌-◌, ◌*◌, ◌/◌, ◌%◌, ◌^◌, ◌<◌, ◌≤◌}
use ailee_finance_unified_ru.Prelude.{
  ◌≡◌, refl, [], ◌∷◌, ◌++◌, map, length, length-append, length-replicate, replicate, arith,
}
use ailee_finance_unified_ru.Prelude.Bytes.{Bytes}
use ailee_finance_unified_ru.Audit.{digest_to_hex, copy_digest}
use ailee_finance_unified_ru.Audit.Sha256.{
  zeros, pad, digit, hex_word, hex_work, Work, internal_sha256, chunks, words, initial,
}

zeros-enough : (fuel size : ℕ) → (120 - size % 64) % 64 < fuel → (size + zeros fuel size) % 64 ≡ 56
unfolding zeros
zeros-enough zero size h = absurd (omega arith)
zeros-enough (suc fuel) size h = ground (arith, zeros-enough fuel (size + 1))

zeros-few : (fuel size : ℕ) → zeros fuel size ≤ (120 - size % 64) % 64
unfolding zeros
zeros-few zero size = omega arith
zeros-few (suc fuel) size = ground (arith, zeros-few fuel (size + 1))

length-pad : (input : Bytes) → length (pad input) ≡ length input + zeros 64 (length input + 1) + 9
unfolding pad
length-pad input =
    let room : ℕ = zeros 64 (length input + 1) in
    let bits : ℕ = length input * 8 % 2 ^ 64 in
    let size_bytes : Bytes =
      map (λ (i : ℕ). bits / 2 ^ (i * 8) % 256) (7 ∷ 6 ∷ 5 ∷ 4 ∷ 3 ∷ 2 ∷ 1 ∷ 0 ∷ []) in
    omega (
      arith,
      length-append input (128 ∷ replicate room 0),
      length-append (input ++ (128 ∷ replicate room 0)) size_bytes,
      length-replicate {A = ℕ} room 0,
    )

-- The loop that pads the hash's input ends in fewer than 64 rounds: what it leaves is a whole
-- number of chunks of 64 bytes and at most 72 bytes longer than the input.
pub pad-whole :
    (input : Bytes) → (length (pad input) % 64 ≡ 0) × (length (pad input) ≤ length input + 72)
pad-whole input =
    let size : ℕ = length input + 1 in
    omega (arith, zeros-enough 64 size (omega arith), zeros-few 64 size, length-pad input)

-- A text of two digits for each byte.
abbrev Kept : Bytes → Type 0
Kept t = digest_to_hex (copy_digest t) ≡ t

Kept-pair : (x y : ℕ) (t : Bytes) → x < 16 → y < 16 → Kept t → Kept (digit x ∷ digit y ∷ t)
unfolding digest_to_hex copy_digest
Kept-pair x y t hx hy h = ground arith

hex_word-Kept : (v : ℕ) (t : Bytes) → Kept t → Kept (hex_word 8 v ++ t)
unfolding hex_word
hex_word-Kept v t h =
    let low : (n : ℕ) → n % 16 < 16 = λ (n : ℕ). omega arith in
    Kept-pair (v / 268_435_456 % 16) (v / 16_777_216 % 16) _ (low _) (low _) (
      Kept-pair (v / 1_048_576 % 16) (v / 65_536 % 16) _ (low _) (low _) (
        Kept-pair (v / 4_096 % 16) (v / 256 % 16) _ (low _) (low _)
          (Kept-pair (v / 16 % 16) (v / 1 % 16) t (low _) (low _) h)))

hex_work-Kept : (w : Work) → Kept (hex_work w)
unfolding hex_work digest_to_hex copy_digest
hex_work-Kept w = hex_word-Kept w.a _ (
    hex_word-Kept w.b _ (
      hex_word-Kept w.c _ (
        hex_word-Kept w.d _ (
          hex_word-Kept w.e _
            (hex_word-Kept w.f _ (hex_word-Kept w.g _ (hex_word-Kept w.h [] refl)))))))

pub sha256-Kept : (s : Bytes) → Kept (internal_sha256 s)
unfolding internal_sha256 hex_work
sha256-Kept s = hex_work-Kept (chunks (length (pad s) / 64) initial (words (pad s)))
