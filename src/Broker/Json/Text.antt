-- ===== src/Broker/Json/Text.antt =====
-- Blanks, marks and texts of an answer, ailee_plugins/detail/broker_json.hpp.
use Prim.Native.Nat.{ℕ, zero, suc, ◌+◌, ◌-◌, ◌*◌, ◌/◌, ◌%◌}
use ailee_finance_unified_ru.Prelude.{
  ◌≡◌, refl, Bool, true, false, ◌&&◌, ◌||◌, Option, none, some, [], ◌∷◌, ◌++◌, if◌then◌else◌, ltb,
  leb, length, ◌==◌,
}
use ailee_finance_unified_ru.Prelude.Bytes.{Bytes}

infixl 5 ◌>>=◌
abbrev pub ◌>>=◌ {ℓ κ} : {A : Type ℓ} {B : Type κ} → Option A → (A → Option B) → Option B
none >>= f = none
some a >>= f = f a

-- What a chain that gives something went through.
pub >>=-eq-some {ℓ κ} :
    {A : Type ℓ} {B : Type κ} (o : Option A) (f : A → Option B) (b : B)
    → (o >>= f) ≡ some b
    → (a : A) × (o ≡ some a) × (f a ≡ some b)
>>=-eq-some none f b h = cc
>>=-eq-some (some a) f b h = (a, refl, h)

abbrev is_blank : ℕ → Bool
is_blank c = c == 32 || c == 10 || c == 13 || c == 9

unfoldable pub ws : Bytes → Bytes
ws [] = []
ws (c ∷ s) = let rest = ws s in if is_blank c then rest else c ∷ s

abbrev take_head : ℕ → Bytes → Bool × Bytes
take_head c [] = (false, [])
take_head c (b ∷ s) = if b == c then (true, s) else (false, b ∷ s)

unfoldable pub take : ℕ → Bytes → Bool × Bytes
take c s = take_head c (ws s)

unfoldable pub need : ℕ → Bytes → Option Bytes
need c s = let (found, rest) = take c s in if found then some rest else none

abbrev pub prefix? : Bytes → Bytes → Option Bytes
prefix? [] s = some s
prefix? (_ ∷ _) [] = none
prefix? (a ∷ p) (b ∷ s) = if a == b then prefix? p s else none

unfoldable pub hex_value : ℕ → Option ℕ
hex_value c =
    if leb b'0' c && leb c b'9'
    then some (c - b'0')
    else if leb b'a' c && leb c b'f'
    then some (c - b'a' + 10)
    else if leb b'A' c && leb c b'F'
    then some (c - b'A' + 10)
    else none

unfoldable pub hex4 : Bytes → Option (ℕ × Bytes)
hex4 (a ∷ b ∷ c ∷ d ∷ s) = do
  w ← hex_value a
  x ← hex_value b
  y ← hex_value c
  z ← hex_value d
  some (((w * 16 + x) * 16 + y) * 16 + z, s)
hex4 _ = none

unfoldable pub utf8 : ℕ → Bytes
utf8 c =
    if ltb c 128
    then c ∷ []
    else if ltb c 2_048
    then (192 + c / 64) ∷ (128 + c % 64) ∷ []
    else if ltb c 65_536
    then (224 + c / 4_096) ∷ (128 + c / 64 % 64) ∷ (128 + c % 64) ∷ []
    else (240 + c / 262_144) ∷ (128 + c / 4_096 % 64) ∷ (128 + c / 64 % 64) ∷ (128 + c % 64) ∷ []

-- The bytes that continue a code point, six bits in each.
unfoldable pub follow : ℕ → ℕ → Bytes → Option (ℕ × Bytes)
follow zero point s = some (point, s)
follow (suc n) point [] = none
follow (suc n) point (b ∷ s) =
    let rest = follow n (point * 64 + b % 64) s in if leb 128 b && ltb b 192 then rest else none

-- The lead byte's bits, the bytes that follow it and the least code point that wants them.
unfoldable pub lead : ℕ → Option (ℕ × ℕ × ℕ)
lead c =
    if leb 194 c && leb c 223
    then some (c % 32, 1, 128)
    else if leb 224 c && leb c 239
    then some (c % 16, 2, 2_048)
    else if leb 240 c && leb c 244
    then some (c % 8, 3, 65_536)
    else none

abbrev is_surrogate : ℕ → Bool
is_surrogate point = leb 55_296 point && leb point 57_343

unfoldable pub multibyte : ℕ → Bytes → Option (Bytes × Bytes)
multibyte c s = do
  (bits, count, least) ← lead c
  (point, rest) ← follow count bits s
  if ltb point least || ltb 1_114_111 point || is_surrogate point
      then none
      else some (utf8 point, rest)

unfoldable pub low_half : Bytes → Option (ℕ × Bytes)
low_half (a ∷ b ∷ s) = if a == b'\\' && b == b'u' then hex4 s else none
low_half _ = none

-- `\u`, and the pair of two of them.
unfoldable pub unicode : Bytes → Option (Bytes × Bytes)
unicode s = do
  (high, rest) ← hex4 s
  if leb 55_296 high && leb high 56_319
      then (do
        (low, rest') ← low_half rest
        if leb 56_320 low && leb low 57_343
            then some (utf8 (65_536 + (high - 55_296) * 1_024 + (low - 56_320)), rest')
            else none)
      else if leb 56_320 high && leb high 57_343
      then none
      else some (utf8 high, rest)

unfoldable pub escape : Bytes → Option (Bytes × Bytes)
escape [] = none
escape (c ∷ s) =
    if c == b'"' || c == b'\\' || c == b'/'
    then some (c ∷ [], s)
    else if c == b'b'
    then some (8 ∷ [], s)
    else if c == b'f'
    then some (12 ∷ [], s)
    else if c == b'n'
    then some (10 ∷ [], s)
    else if c == b'r'
    then some (13 ∷ [], s)
    else if c == b't'
    then some (9 ∷ [], s)
    else if c == b'u'
    then unicode s
    else none

-- One round of the loop after its byte `c`, which is no quote.
unfoldable pub round : ℕ → Bytes → Option (Bytes × Bytes)
round c s =
    if ltb c 32
    then none
    else if c == b'\\'
    then escape s
    else if ltb c 128
    then some (c ∷ [], s)
    else multibyte c s

unfoldable pub rounds : ℕ → Bytes → Bytes → Option (Bytes × Bytes)
rounds fuel out [] = none
rounds zero out (c ∷ s) = none
rounds (suc fuel) out (c ∷ s) = elim (c == b'"') [
  | true ↦ some (out, s)
  | false ↦ elim (round c s) [ none ↦ none | some (more, rest) ↦ rounds fuel (out ++ more) rest ]
]

-- `string()`
unfoldable pub text : Bytes → Option (Bytes × Bytes)
text s = need b'"' s >>= λ (r : Bytes). rounds (length r) [] r
