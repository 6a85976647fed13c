-- ===== src/Broker/Json/Print.antt =====
-- An object of texts in print, and its reading.
use Prim.Native.Nat.{ℕ, zero, suc, ◌<◌, ◌≤◌}
use mathlib.Core.List.{Perm}
use mathlib.Core.List.Perm
use ailee_finance_unified_ru.Prelude.{
  ◌≡◌, refl, false, none, some, List, [], ◌∷◌, ◌++◌, length, arith, length-append,
}
use ailee_finance_unified_ru.Prelude.Bytes.{Bytes, same}
use ailee_finance_unified_ru.Broker.Json.Text.{ws, take, need}
use ailee_finance_unified_ru.Broker.Json.{
  Kind, JsonScalar, Members, members, fields, value, object, find_member, parse, emplace_member,
}
use ailee_finance_unified_ru.Broker.Json.Order.{
  IsIncreasing, emplaced, emplaced-perm, emplace_member-IsIncreasing, find_member-emplace_member,
}
use ailee_finance_unified_ru.Broker.Json.Copy.{Plain, text-Plain}

-- A key and a text, without quotes, backslashes and control characters.
abbrev pub Pair : Type 0
Pair = Bytes × Bytes

abbrev pub scalar : Bytes → JsonScalar
scalar t = record { kind = Kind.string; value = t }

abbrev pub quoted : Bytes → Bytes → Bytes
quoted t rest = b'"' ∷ t ++ (b'"' ∷ rest)

abbrev pub print_rest : Pair → List Pair → Bytes
print_rest (k, v) [] = quoted k (b':' ∷ quoted v (b'}' ∷ []))
print_rest (k, v) (p ∷ ps) = quoted k (b':' ∷ quoted v (b',' ∷ print_rest p ps))

abbrev pub print : List Pair → Bytes
print [] = b'{' ∷ b'}' ∷ []
print (p ∷ ps) = b'{' ∷ print_rest p ps

abbrev pub scalars : List Pair → Members
scalars [] = []
scalars ((k, v) ∷ ps) = (k, scalar v) ∷ scalars ps

abbrev pub PlainPairs : List Pair → Type 0
PlainPairs [] = Unit
PlainPairs ((k, v) ∷ ps) = Plain k × Plain v × PlainPairs ps

-- No key stands twice.
abbrev Lacks : Bytes → List Pair → Type 0
Lacks k [] = Unit
Lacks k ((j, _) ∷ ps) = (same k j ≡ false) × Lacks k ps

abbrev pub Distinct : List Pair → Type 0
Distinct [] = Unit
Distinct ((k, v) ∷ ps) = Lacks k ps × Distinct ps

-- No key stands among the members that are read.
abbrev Fresh : Members → List Pair → Type 0
Fresh ms [] = Unit
Fresh ms ((k, v) ∷ ps) = (find_member k ms ≡ none) × Fresh ms ps

Fresh-emplace_member :
    (k : Bytes) (v : JsonScalar) (ms : Members) (ps : List Pair)
    → Lacks k ps
    → Fresh ms ps
    → Fresh (emplace_member k v ms) ps
Fresh-emplace_member k v ms [] h f = tt
Fresh-emplace_member k v ms ((j, _) ∷ ps) (h, hs) (f, fs) =
    (find_member-emplace_member j k v ms h f, Fresh-emplace_member k v ms ps hs fs)

Fresh-none : (ps : List Pair) → Fresh [] ps
unfolding find_member
Fresh-none [] = tt
Fresh-none ((k, v) ∷ ps) = (refl, Fresh-none ps)

emplaced-IsIncreasing :
    (ms : Members) (ps : List Pair)
    → Fresh ms ps
    → Distinct ps
    → IsIncreasing ms
    → IsIncreasing (emplaced ms (scalars ps))
emplaced-IsIncreasing ms [] f d i = i
emplaced-IsIncreasing ms ((k, v) ∷ ps) (f, fs) (d, ds) i =
    emplaced-IsIncreasing (emplace_member k (scalar v) ms) ps
      (Fresh-emplace_member k (scalar v) ms ps d fs) ds
      (emplace_member-IsIncreasing k (scalar v) ms f i)

value-quoted :
    (level : ℕ) (t rest : Bytes)
    → Plain t
    → value (suc level) (quoted t rest) ≡ some (scalar t, rest)
unfolding value ws
value-quoted level t rest h = rw (text-Plain t rest h) refl

members-print_rest :
    (level fuel : ℕ) (ms : Members) (p : Pair) (ps : List Pair)
    → PlainPairs (p ∷ ps)
    → Fresh ms (p ∷ ps)
    → Distinct (p ∷ ps)
    → length ps < fuel
    → members (value (suc level)) fuel ms (print_rest p ps)
      ≡ some (emplaced ms (scalars (p ∷ ps)), b'}' ∷ [])
unfolding members need take ws
members-print_rest level zero ms p ps h f d l = absurd (omega arith)
members-print_rest level (suc fuel) ms (k, v) [] (hk, hv, _) (f, _) d l =
    rw (text-Plain k (b':' ∷ quoted v (b'}' ∷ [])) hk, value-quoted level v (b'}' ∷ []) hv, f) refl
members-print_rest level (suc fuel) ms (k, v) (q ∷ ps) (hk, hv, h) (f, fs) (d, ds) l =
    let rest : Bytes = b',' ∷ print_rest q ps in
    rw
      (
        text-Plain k (b':' ∷ quoted v rest) hk,
        value-quoted level v rest hv,
        f,
        members-print_rest level fuel (emplace_member k (scalar v) ms) q ps h
            (Fresh-emplace_member k (scalar v) ms (q ∷ ps) d fs) ds (omega arith),
      )
      refl

print_rest-length : (p : Pair) (ps : List Pair) → length ps < length (print_rest p ps)
print_rest-length (k, v) [] = omega arith
print_rest-length (k, v) (q ∷ ps) =
    let rest : Bytes = print_rest q ps in
    omega (
      arith,
      print_rest-length q ps,
      length-append k (b'"' ∷ b':' ∷ quoted v (b',' ∷ rest)),
      length-append v (b'"' ∷ b',' ∷ rest),
    )

-- An object of texts without quotes, backslashes, control and non-ASCII bytes, whose keys
-- differ and whose print is in the size limit, is read back as a permutation of its members
-- with strictly increasing keys, as in a map.
pub parse-print :
    (ps : List Pair)
    → PlainPairs ps
    → Distinct ps
    → length (print ps) ≤ 262_144
    → (ms : Members) × (parse (print ps) ≡ some ms) × Perm ms (scalars ps) × IsIncreasing ms
unfolding parse object fields take need ws
parse-print [] h d l = ([], refl, Perm.refl [], tt)
parse-print (p ∷ ps) h d l =
    let fuel : ℕ = suc (length (print_rest p ps)) in
    let ms : Members = emplaced [] (scalars (p ∷ ps)) in
    let read : members (value 32) fuel [] (print_rest p ps) ≡ some (ms, b'}' ∷ []) =
      members-print_rest 31 fuel [] p ps h (Fresh-none (p ∷ ps)) d
        (omega (arith, print_rest-length p ps)) in
    (
      ms,
      ground (arith, read),
      emplaced-perm [] (scalars (p ∷ ps)),
      emplaced-IsIncreasing [] (p ∷ ps) (Fresh-none (p ∷ ps)) d tt,
    )
