-- ===== src/Broker/Json/Copy.antt =====
-- Texts that are read as they stand.
use Prim.Native.Nat.{ℕ, zero, suc, ◌<◌}
use mathlib.Core.List.{append_assoc, append-nil}
use ailee_finance_unified_ru.Prelude.{
  ◌≡◌, refl, ap, ◌∙◌, Bool, true, some, [], ◌∷◌, ◌++◌, length, length-append, arith, ltb, leb, ◌==◌,
  ◌&&◌, not,
}
use ailee_finance_unified_ru.Prelude.Bytes.{Bytes}
use ailee_finance_unified_ru.Broker.Json.Text.{
  ws, take, need, lead, follow, multibyte, utf8, round, rounds, text,
}

-- A code point beyond ASCII that is accepted is written to the text as the very bytes that
-- were read.
pub multibyte-append :
    (c : ℕ) (s out rest : Bytes) → multibyte c s ≡ some (out, rest) → c ∷ s ≡ out ++ rest
unfolding multibyte lead follow utf8
multibyte-append c [] out rest h = ground arith
multibyte-append c (x ∷ []) out rest h = ground arith
multibyte-append c (x ∷ y ∷ []) out rest h = ground arith
multibyte-append c (x ∷ y ∷ z ∷ s) out rest h = ground arith

-- A byte that stands in a text for itself.
abbrev pub is_plain : ℕ → Bool
is_plain c = leb 32 c && ltb c 128 && not (c == b'"') && not (c == b'\\')

abbrev pub Plain : Bytes → Type 0
Plain [] = Unit
Plain (c ∷ s) = (is_plain c ≡ true) × Plain s

rounds-Plain :
    (fuel : ℕ) (out t rest : Bytes)
    → Plain t
    → length t < fuel
    → rounds fuel out (t ++ (b'"' ∷ rest)) ≡ some (out ++ t, rest)
unfolding rounds round
rounds-Plain (suc fuel) out [] rest h l = rw (append-nil out) refl
rounds-Plain (suc fuel) out (c ∷ t) rest (h, ht) l =
    let later : rounds fuel (out ++ (c ∷ [])) (t ++ (b'"' ∷ rest)) ≡ some (out ++ (c ∷ t), rest) =
      rounds-Plain fuel (out ++ (c ∷ [])) t rest ht (omega arith)
      ∙ ap (λ (x : Bytes). some (x, rest)) (append_assoc out (c ∷ []) t) in
    ground (arith, later)
rounds-Plain zero out t rest h l = absurd (omega arith)

pub text-Plain : (t rest : Bytes) → Plain t → text (b'"' ∷ t ++ (b'"' ∷ rest)) ≡ some (t, rest)
unfolding text need take ws
text-Plain t rest h =
    rounds-Plain (length (t ++ (b'"' ∷ rest))) [] t rest h
      (omega (arith, length-append t (b'"' ∷ rest)))
