-- ===== src/Broker/Json/Order.antt =====
-- The members of an object in the order of a `std::map`, detail/broker_json.hpp: by their keys.
use mathlib.Core.List.{Perm, perm_middle, append-nil}
use mathlib.Core.List.Perm
use ailee_finance_unified_ru.Prelude.{
  ◌≡◌, true, false, none, [], ◌∷◌, ◌++◌, arith, Bool-cases, inl, inr,
}
use ailee_finance_unified_ru.Prelude.Bytes.{Bytes, same, less}
use ailee_finance_unified_ru.Broker.Json.{JsonScalar, Members, find_member, emplace_member}

-- The keys are strictly increasing.
abbrev pub IsIncreasing : Members → Type 0
IsIncreasing [] = Unit
IsIncreasing ((k, v) ∷ []) = Unit
IsIncreasing ((k, v) ∷ (j, w) ∷ ms) = (less k j ≡ true) × IsIncreasing ((j, w) ∷ ms)

less_total : (s t : Bytes) → less s t ≡ false → same t s ≡ false → less t s ≡ true
unfolding less same
less_total [] [] h h' = ground arith
less_total [] (b ∷ t) h h' = ground arith
less_total (a ∷ s) [] h h' = ground arith
less_total (a ∷ s) (b ∷ t) h h' = ground (arith, less_total s t)

pub emplace_member-IsIncreasing :
    (k : Bytes) (v : JsonScalar) (ms : Members)
    → find_member k ms ≡ none
    → IsIncreasing ms
    → IsIncreasing (emplace_member k v ms)
unfolding emplace_member find_member
emplace_member-IsIncreasing k v [] h i = tt
emplace_member-IsIncreasing k v ((j, w) ∷ []) h i = ground (arith, less_total k j)
emplace_member-IsIncreasing k v ((j, w) ∷ (l, u) ∷ ms) h i =
    ground (arith, less_total k j, emplace_member-IsIncreasing k v ((l, u) ∷ ms))

pub find_member-emplace_member :
    (j k : Bytes) (v : JsonScalar) (ms : Members)
    → same k j ≡ false
    → find_member j ms ≡ none
    → find_member j (emplace_member k v ms) ≡ none
unfolding emplace_member find_member
find_member-emplace_member j k v [] h h' = ground arith
find_member-emplace_member j k v ((l, w) ∷ ms) h h' =
    ground (arith, find_member-emplace_member j k v ms)

emplace_member-perm :
    (k : Bytes) (v : JsonScalar) (ms : Members) → Perm (emplace_member k v ms) ((k, v) ∷ ms)
unfolding emplace_member
emplace_member-perm k v [] = Perm.refl _
emplace_member-perm k v ((j, w) ∷ ms) = elim (Bool-cases (less k j)) [
  | inl before ↦ rw (before) (Perm.refl _)
  | inr after ↦
      rw (after)
        (Perm.trans (Perm.cons (j, w) (emplace_member-perm k v ms)) (Perm.swap (k, v) (j, w) ms))
]

-- All the members of `xs`, emplaced one after the other.
abbrev pub emplaced : Members → Members → Members
emplaced ms [] = ms
emplaced ms ((k, v) ∷ xs) = emplaced (emplace_member k v ms) xs

pub emplaced-perm : (ms xs : Members) → Perm (emplaced ms xs) (ms ++ xs)
emplaced-perm ms [] = rw (append-nil ms) (Perm.refl ms)
emplaced-perm ms ((k, v) ∷ xs) =
    Perm.trans (emplaced-perm (emplace_member k v ms) xs) (
      Perm.trans (Perm.append_right xs (emplace_member-perm k v ms))
        (Perm.symm (perm_middle ms xs)))
