-- ===== src/Broker/Json.antt =====
-- The reader of a broker's answers, ailee_plugins/detail/broker_json.hpp. A position in the source
-- is the text that is left; `none` is the exception. Loops run on fuel, the length of that text.
pub mod Text
pub mod Copy
pub mod Consume
pub mod Shorter
pub mod Refused
pub mod Order
pub mod Print
mod Tests
use Prim.Native.Nat.{ℕ, zero, suc, ◌+◌, ◌-◌, ◌*◌}
use ailee_finance_unified_ru.Prelude.{
  Bool, true, false, not, ◌&&◌, ◌||◌, Option, none, some, List, [], ◌∷◌, ◌++◌, if◌then◌else◌, ltb,
  leb, length, ◌==◌,
}
use ailee_finance_unified_ru.Prelude.Bytes.{Bytes, codes, is_empty, same, less}
use ailee_finance_unified_ru.Broker.Json.Text.{◌>>=◌, ws, take, need, text, prefix?}

pub data Kind : Type 0 where
  string number other : Kind

pub record JsonScalar : Type 0 where
  pub kind : Kind
  pub value : Bytes

abbrev pub opaque : JsonScalar
opaque = record { kind = Kind.other; value = [] }

abbrev pub Members : Type 0
Members = List (Bytes × JsonScalar)

abbrev is_digit : ℕ → Bool
is_digit c = leb b'0' c && leb c b'9'

-- The digits at the start, and what follows them.
unfoldable pub digits : Bytes → Bytes × Bytes
digits [] = ([], [])
digits (c ∷ s) =
    let (taken, rest) = digits s in if is_digit c then (c ∷ taken, rest) else ([], c ∷ s)

-- Each part of a number gives what it took; `none` where the number is none.
unfoldable pub integer : Bytes → Option (Bytes × Bytes)
integer [] = none
integer (c ∷ s) =
    if c == b'0' then some (c ∷ [], s) else if is_digit c then some (digits (c ∷ s)) else none

unfoldable pub some_digits : Bytes → Bytes → Option (Bytes × Bytes)
some_digits mark s =
    let (taken, rest) = digits s in if is_empty taken then none else some (mark ++ taken, rest)

unfoldable pub fraction : Bytes → Option (Bytes × Bytes)
fraction [] = some ([], [])
fraction (c ∷ s) = if c == b'.' then some_digits (c ∷ []) s else some ([], c ∷ s)

abbrev is_sign : ℕ → Bool
is_sign c = c == b'+' || c == b'-'

unfoldable pub exponent : Bytes → Option (Bytes × Bytes)
exponent [] = some ([], [])
exponent (c ∷ []) = if c == b'e' || c == b'E' then none else some ([], c ∷ [])
exponent (c ∷ b ∷ s) =
    if c == b'e' || c == b'E'
    then if is_sign b then some_digits (c ∷ b ∷ []) s else some_digits (c ∷ []) (b ∷ s)
    else some ([], c ∷ b ∷ s)

unfoldable pub sign : Bytes → Bytes × Bytes
sign [] = ([], [])
sign (c ∷ s) = if c == b'-' then (c ∷ [], s) else ([], c ∷ s)

unfoldable pub numeral : Bytes → Option (JsonScalar × Bytes)
numeral s0 =
    let (minus, s1) = sign s0 in
    do
      (whole, s2) ← integer s1
      (part, s3) ← fraction s2
      (power, s4) ← exponent s3
      some (record { kind = Kind.number; value = minus ++ whole ++ part ++ power }, s4)

unfoldable pub word : Bytes → Option (JsonScalar × Bytes)
word s = elim (prefix? (codes "true") s) [
  | some r ↦ some (opaque, r)
  | none ↦ elim (prefix? (codes "false") s) [
    | some r ↦ some (opaque, r)
    | none ↦ elim (prefix? (codes "null") s) [ some r ↦ some (opaque, r) | none ↦ numeral s ]
  ]
]

unfoldable pub find_member : Bytes → Members → Option JsonScalar
find_member k [] = none
find_member k ((j, v) ∷ ms) = if same j k then some v else find_member k ms

-- `std::map::emplace` of a key that does not stand yet, in the order of the keys.
unfoldable pub emplace_member : Bytes → JsonScalar → Members → Members
emplace_member k v [] = (k, v) ∷ []
emplace_member k v ((j, w) ∷ ms) =
    let rest = emplace_member k v ms in if less k j then (k, v) ∷ (j, w) ∷ ms else (j, w) ∷ rest

-- `do ... while (take(','))` of an array, by the reader of its values.
unfoldable pub elements : (Bytes → Option (JsonScalar × Bytes)) → ℕ → Bytes → Option Bytes
elements read zero s = none
elements read (suc fuel) s = do
  (v, s1) ← read s
  let more = take b',' s1
  elim more.0 [ true ↦ elements read fuel more.1 | false ↦ some more.1 ]

unfoldable pub array : (Bytes → Option (JsonScalar × Bytes)) → Bytes → Option (JsonScalar × Bytes)
array read s = do
  s1 ← need b'[' s
  let close = take b']' s1
  elim close.0 [
    | true ↦ some (opaque, close.1)
    | false ↦ do
      s2 ← elements read (suc (length close.1)) close.1
      s3 ← need b']' s2
      some (opaque, s3)
  ]

-- A key that stands already is refused.
unfoldable pub members :
    (Bytes → Option (JsonScalar × Bytes)) → ℕ → Members → Bytes → Option (Members × Bytes)
members read zero ms s = none
members read (suc fuel) ms s = do
  (key, s1) ← text s
  s2 ← need b':' s1
  (v, s3) ← read s2
  elim (find_member key ms) [
    | some _ ↦ none
    | none ↦
        let more = take b',' s3 in
        elim more.0 [
          | true ↦ members read fuel (emplace_member key v ms) more.1
          | false ↦ some (emplace_member key v ms, more.1)
        ]
  ]

unfoldable pub fields : (Bytes → Option (JsonScalar × Bytes)) → Bytes → Option (Members × Bytes)
fields read s = do
  s1 ← need b'{' s
  let close = take b'}' s1
  elim close.0 [
    | true ↦ some ([], close.1)
    | false ↦ do
      (ms, s2) ← members read (suc (length close.1)) [] close.1
      s3 ← need b'}' s2
      some (ms, s3)
  ]

abbrev pub hidden : Option (Members × Bytes) → Option (JsonScalar × Bytes)
hidden none = none
hidden (some (_, s)) = some (opaque, s)

-- By the levels that are left of 32: at `zero` the depth is 33.
unfoldable mutual
  pub value : ℕ → Bytes → Option (JsonScalar × Bytes)
  value zero s = none
  value (suc level) s = elim (ws s) [
    | [] ↦ none
    | c ∷ r ↦ elim (c == b'"') [
      | true ↦ text (c ∷ r) >>= λ (t : Bytes × Bytes).
          some (record { kind = Kind.string; value = t.0 }, t.1)
      | false ↦ elim (c == b'{') [
        | true ↦ hidden (object level (c ∷ r))
        | false ↦ elim (c == b'[') [ true ↦ array (value level) (c ∷ r) | false ↦ word (c ∷ r) ]
      ]
    ]
  ]

  pub object : ℕ → Bytes → Option (Members × Bytes)
  object zero s = none
  object (suc level) s = fields (value level) s

unfoldable pub parse : Bytes → Option Members
parse source = if ltb 262_144 (length source) then none else elim (object 33 source) [
  | none ↦ none
  | some (ms, s) ↦ if is_empty (ws s) then some ms else none
]
