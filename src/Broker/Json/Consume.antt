-- ===== src/Broker/Json/Consume.antt =====
-- What a reader leaves is shorter than what it was given.
use Prim.Native.Nat.{ℕ, zero, suc, ◌+◌, ◌*◌, ◌%◌, ◌<◌, ◌≤◌}
use ailee_finance_unified_ru.Prelude.{
  ◌≡◌, true, some, Option-cases, inl, inr, [], ◌∷◌, ◌++◌, length, arith,
}
use ailee_finance_unified_ru.Prelude.Bytes.{Bytes, codes}
use ailee_finance_unified_ru.Broker.Json.Text.{
  ws, take, need, hex4, low_half, unicode, escape, lead, follow, multibyte, round, rounds, text,
  prefix?, >>=-eq-some,
}
use ailee_finance_unified_ru.Broker.Json.{
  JsonScalar, digits, integer, some_digits, fraction, exponent, numeral, word, sign,
}

pub ws-length : (s : Bytes) → length (ws s) ≤ length s
unfolding ws
ws-length [] = omega arith
ws-length (c ∷ s) = ground (arith, ws-length s)

pub take-length : (c : ℕ) (s : Bytes) → length (take c s).1 ≤ length s
unfolding take
take-length c s = ground (arith, ws-length s)

pub take-shorter : (c : ℕ) (s : Bytes) → (take c s).0 ≡ true → length (take c s).1 < length s
unfolding take
take-shorter c s h = ground (arith, ws-length s)

pub need-shorter : (c : ℕ) (s r : Bytes) → need c s ≡ some r → length r < length s
unfolding need
need-shorter c s r h = ground (arith, take-shorter c s)

hex4-shorter : (s r : Bytes) (n : ℕ) → hex4 s ≡ some (n, r) → length r < length s
unfolding hex4
hex4-shorter [] r n h = cc
hex4-shorter (a ∷ []) r n h = cc
hex4-shorter (a ∷ b ∷ []) r n h = cc
hex4-shorter (a ∷ b ∷ c ∷ []) r n h = cc
hex4-shorter (a ∷ b ∷ c ∷ d ∷ s) r n h = ground arith

low_half-shorter : (s r : Bytes) (n : ℕ) → low_half s ≡ some (n, r) → length r < length s
unfolding low_half
low_half-shorter [] r n h = cc
low_half-shorter (a ∷ []) r n h = cc
low_half-shorter (a ∷ b ∷ s) r n h = ground (arith, hex4-shorter s r n)

unicode-shorter : (s out r : Bytes) → unicode s ≡ some (out, r) → length r < length s
unfolding unicode
unicode-shorter s out r h =
    let ((high, rest), e, h1) = >>=-eq-some (hex4 s) _ _ h in
    elim (Option-cases (low_half rest)) [
      | inl e' ↦ ground (arith, hex4-shorter s rest high)
      | inr ((low, rest'), e') ↦
          ground (arith, hex4-shorter s rest high, low_half-shorter rest rest' low)
    ]

escape-shorter : (s out r : Bytes) → escape s ≡ some (out, r) → length r < length s
unfolding escape
escape-shorter [] out r h = cc
escape-shorter (c ∷ s) out r h = ground (arith, unicode-shorter s out r)

follow-length : (n p q : ℕ) (s r : Bytes) → follow n p s ≡ some (q, r) → length r ≤ length s
unfolding follow
follow-length zero p q s r h = ground arith
follow-length (suc n) p q [] r h = cc
follow-length (suc n) p q (b ∷ s) r h = ground (arith, follow-length n (p * 64 + b % 64) q s r)

multibyte-length : (c : ℕ) (s out r : Bytes) → multibyte c s ≡ some (out, r) → length r ≤ length s
unfolding multibyte
multibyte-length c s out r h =
    let ((bits, count, least), e, h1) = >>=-eq-some (lead c) _ _ h in
    let ((point, rest), e', h2) = >>=-eq-some (follow count bits s) _ _ h1 in
    ground (arith, follow-length count bits point s rest)

pub round-length : (c : ℕ) (s out r : Bytes) → round c s ≡ some (out, r) → length r ≤ length s
unfolding round
round-length c s out r h = ground (arith, escape-shorter s out r, multibyte-length c s out r)

rounds-length :
    (fuel : ℕ) (out s t r : Bytes) → rounds fuel out s ≡ some (t, r) → length r ≤ length s
unfolding rounds
rounds-length zero out [] t r h = cc
rounds-length (suc fuel) out [] t r h = cc
rounds-length zero out (c ∷ s) t r h = cc
rounds-length (suc fuel) out (c ∷ s) t r h = elim (Option-cases (round c s)) [
  | inl e ↦ ground arith
  | inr ((more, rest), e) ↦
      ground (arith, round-length c s more rest, rounds-length fuel (out ++ more) rest t r)
]

pub text-shorter : (s t r : Bytes) → text s ≡ some (t, r) → length r < length s
unfolding text
text-shorter s t r h = elim (Option-cases (need b'"' s)) [
  | inl e ↦ ground arith
  | inr (rest, e) ↦
      ground (arith, need-shorter b'"' s rest, rounds-length (length rest) [] rest t r)
]

digits-length : (s : Bytes) → length (digits s).1 ≤ length s
unfolding digits
digits-length [] = omega arith
digits-length (c ∷ s) = ground (arith, digits-length s)

integer-shorter : (s t r : Bytes) → integer s ≡ some (t, r) → length r < length s
unfolding integer digits
integer-shorter [] t r h = cc
integer-shorter (c ∷ s) t r h = ground (arith, digits-length s)

some_digits-length : (m s t r : Bytes) → some_digits m s ≡ some (t, r) → length r ≤ length s
unfolding some_digits
some_digits-length m s t r h = ground (arith, digits-length s)

fraction-length : (s t r : Bytes) → fraction s ≡ some (t, r) → length r ≤ length s
unfolding fraction
fraction-length [] t r h = ground arith
fraction-length (c ∷ s) t r h = ground (arith, some_digits-length (c ∷ []) s t r)

exponent-length : (s t r : Bytes) → exponent s ≡ some (t, r) → length r ≤ length s
unfolding exponent
exponent-length [] t r h = ground arith
exponent-length (c ∷ []) t r h = ground arith
exponent-length (c ∷ b ∷ s) t r h =
    ground (arith, some_digits-length (c ∷ b ∷ []) s t r, some_digits-length (c ∷ []) (b ∷ s) t r)

sign-length : (s : Bytes) → length (sign s).1 ≤ length s
unfolding sign
sign-length [] = omega arith
sign-length (c ∷ s) = ground arith

numeral-shorter : (s r : Bytes) (v : JsonScalar) → numeral s ≡ some (v, r) → length r < length s
unfolding numeral
numeral-shorter s r v h =
    let ((whole, s2), e, h1) = >>=-eq-some (integer (sign s).1) _ _ h in
    let ((part, s3), e', h2) = >>=-eq-some (fraction s2) _ _ h1 in
    let ((power, s4), e'', h3) = >>=-eq-some (exponent s3) _ _ h2 in
    ground (
      arith,
      sign-length s,
      integer-shorter (sign s).1 whole s2,
      fraction-length s2 part s3,
      exponent-length s3 power s4,
    )

prefix?-length : (p s r : Bytes) → prefix? p s ≡ some r → length s ≡ length p + length r
prefix?-length [] s r h = ground arith
prefix?-length (a ∷ p) [] r h = cc
prefix?-length (a ∷ p) (b ∷ s) r h = ground (arith, prefix?-length p s r)

pub word-shorter : (s r : Bytes) (v : JsonScalar) → word s ≡ some (v, r) → length r < length s
unfolding word
word-shorter s r v h = ground (
  arith,
  prefix?-length (codes "true") s r,
  prefix?-length (codes "false") s r,
  prefix?-length (codes "null") s r,
  numeral-shorter s r v,
)
