-- ===== src/Broker/Json/Refused.antt =====
-- What the loops of the reader of answers refuse, ailee_plugins/detail/broker_json.hpp, without fuel.
use Prim.Native.Nat.{ℕ, zero, suc, ◌<◌, ◌≤◌}
use ailee_finance_unified_ru.Prelude.{
  ◌≡◌, ◌≢◌, ◌↔◌, refl, true, false, none, some, Option-cases, Bool-cases, inl, inr, [], ◌∷◌, ◌++◌,
  length, arith, ◌==◌,
}
use ailee_finance_unified_ru.Prelude.Bytes.{Bytes}
use ailee_finance_unified_ru.Broker.Json.Text.{take, need, text, round, rounds}
use ailee_finance_unified_ru.Broker.Json.{
  JsonScalar, Members, elements, members, value, find_member, emplace_member,
}
use ailee_finance_unified_ru.Broker.Json.Consume.{
  take-length, need-shorter, text-shorter, round-length,
}
use ailee_finance_unified_ru.Broker.Json.Shorter.{Reader, Shortens, value-shorter}

-- A text that ends before its quote, or has a byte or an escape that is refused.
pub data IsBadText : Bytes → Type 0 where
  unfinished : IsBadText []
  bad_byte : (c : ℕ) (s : Bytes) → (c == b'"') ≡ false → round c s ≡ none → IsBadText (c ∷ s)
  later :
      (c : ℕ) (s more rest : Bytes)
      → (c == b'"') ≡ false
      → round c s ≡ some (more, rest)
      → IsBadText rest
      → IsBadText (c ∷ s)

-- Values of which one is refused.
pub data IsBadArray (read : Reader) : Bytes → Type 0 where
  bad_value : (s : Bytes) → read s ≡ none → IsBadArray read s
  later :
      (s rest : Bytes) (v : JsonScalar)
      → read s ≡ some (v, rest)
      → (take b',' rest).0 ≡ true
      → IsBadArray read (take b',' rest).1
      → IsBadArray read s

-- Members of which one has no key, no colon or no value, or a key that stands already.
pub data IsBadObject (read : Reader) : Members → Bytes → Type 0 where
  bad_key : (ms : Members) (s : Bytes) → text s ≡ none → IsBadObject read ms s
  bad_colon :
      (ms : Members) (s key s1 : Bytes)
      → text s ≡ some (key, s1)
      → need b':' s1 ≡ none
      → IsBadObject read ms s
  bad_value :
      (ms : Members) (s key s1 s2 : Bytes)
      → text s ≡ some (key, s1)
      → need b':' s1 ≡ some s2
      → read s2 ≡ none
      → IsBadObject read ms s
  twice :
      (ms : Members) (s key s1 s2 s3 : Bytes) (v : JsonScalar)
      → text s ≡ some (key, s1)
      → need b':' s1 ≡ some s2
      → read s2 ≡ some (v, s3)
      → find_member key ms ≢ none
      → IsBadObject read ms s
  later :
      (ms : Members) (s key s1 s2 s3 : Bytes) (v : JsonScalar)
      → text s ≡ some (key, s1)
      → need b':' s1 ≡ some s2
      → read s2 ≡ some (v, s3)
      → find_member key ms ≡ none
      → (take b',' s3).0 ≡ true
      → IsBadObject read (emplace_member key v ms) (take b',' s3).1
      → IsBadObject read ms s

rounds-IsBadText : (fuel : ℕ) (out s : Bytes) → IsBadText s → rounds fuel out s ≡ none
unfolding rounds
rounds-IsBadText fuel out _ unfinished = refl
rounds-IsBadText zero out _ (bad_byte c s q e) = refl
rounds-IsBadText (suc fuel) out _ (bad_byte c s q e) = ground arith
rounds-IsBadText zero out _ (later c s more rest q e bad) = refl
rounds-IsBadText (suc fuel) out _ (later c s more rest q e bad) =
    ground (arith, rounds-IsBadText fuel (out ++ more) rest bad)

rounds-refused :
    (fuel : ℕ) (out s : Bytes) → length s ≤ fuel → rounds fuel out s ≡ none → IsBadText s
unfolding rounds
rounds-refused fuel out [] h r = unfinished
rounds-refused zero out (c ∷ s) h r = absurd (omega arith)
rounds-refused (suc fuel) out (c ∷ s) h r = elim (Bool-cases (c == b'"')) [
  | inl quote ↦ absurd (ground (arith, quote))
  | inr other ↦ elim (Option-cases (round c s)) [
    | inl e ↦ bad_byte c s other e
    | inr ((more, rest), e) ↦ later c s more rest other e (
        rounds-refused fuel (out ++ more) rest (omega (arith, round-length c s more rest e))
          (ground arith))
  ]
]

module _ (read : Reader) where
  elements-IsBadArray : (fuel : ℕ) (s : Bytes) → IsBadArray read s → elements read fuel s ≡ none
  unfolding elements
  elements-IsBadArray zero s bad = refl
  elements-IsBadArray (suc fuel) _ (bad_value s e) = ground arith
  elements-IsBadArray (suc fuel) _ (later s rest v e more bad) =
      ground (arith, elements-IsBadArray fuel (take b',' rest).1 bad)

  members-IsBadObject :
      (fuel : ℕ) (ms : Members) (s : Bytes) → IsBadObject read ms s → members read fuel ms s ≡ none
  unfolding members
  members-IsBadObject zero ms s bad = refl
  members-IsBadObject (suc fuel) _ _ (bad_key ms s e) = ground arith
  members-IsBadObject (suc fuel) _ _ (bad_colon ms s key s1 e e') = ground arith
  members-IsBadObject (suc fuel) _ _ (bad_value ms s key s1 s2 e e' e'') = ground arith
  members-IsBadObject (suc fuel) _ _ (twice ms s key s1 s2 s3 v e e' e'' t) = ground arith
  members-IsBadObject (suc fuel) _ _ (later ms s key s1 s2 s3 v e e' e'' t more bad) =
      ground (arith, members-IsBadObject fuel (emplace_member key v ms) (take b',' s3).1 bad)

module _ (read : Reader) (short : Shortens read) where
  elements-refused :
      (fuel : ℕ) (s : Bytes) → length s < fuel → elements read fuel s ≡ none → IsBadArray read s
  unfolding elements
  elements-refused zero s h r = absurd (omega arith)
  elements-refused (suc fuel) s h r = elim (Option-cases (read s)) [
    | inl e ↦ bad_value s e
    | inr ((v, rest), e) ↦ elim (Bool-cases (take b',' rest).0) [
      | inl more ↦ later s rest v e more (
          elements-refused fuel (take b',' rest).1
            (omega (arith, short s rest v e, take-length b',' rest)) (ground arith))
      | inr last ↦ absurd (ground arith)
    ]
  ]

  members-refused :
      (fuel : ℕ) (ms : Members) (s : Bytes)
      → length s < fuel
      → members read fuel ms s ≡ none
      → IsBadObject read ms s
  unfolding members
  members-refused zero ms s h r = absurd (omega arith)
  members-refused (suc fuel) ms s h r = elim (Option-cases (text s)) [
    | inl e ↦ bad_key ms s e
    | inr ((key, s1), e) ↦ elim (Option-cases (need b':' s1)) [
      | inl e' ↦ bad_colon ms s key s1 e e'
      | inr (s2, e') ↦ elim (Option-cases (read s2)) [
        | inl e'' ↦ bad_value ms s key s1 s2 e e' e''
        | inr ((v, s3), e'') ↦ elim (Option-cases (find_member key ms)) [
          | inl fresh ↦ elim (Bool-cases (take b',' s3).0) [
            | inl more ↦ later ms s key s1 s2 s3 v e e' e'' fresh more (
                members-refused fuel (emplace_member key v ms) (take b',' s3).1
                  (omega (
                    arith,
                    text-shorter s key s1 e,
                    need-shorter b':' s1 s2 e',
                    short s2 s3 v e'',
                    take-length b',' s3,
                  ))
                  (ground arith))
            | inr last ↦ absurd (ground arith)
          ]
          | inr (u, known) ↦ twice ms s key s1 s2 s3 v e e' e'' (λ n. ground arith)
        ]
      ]
    ]
  ]

-- With the fuel that the reader gives them, the loop over a text's bytes refuses where and
-- only where the text ends before its quote or a byte or an escape is refused, the one over an
-- array's values where and only where a value is, and the one over an object's members where
-- and only where a key, a colon or a value is or a key stands already: none of them ends for
-- want of fuel.
pub loops_refuse_iff :
    (level : ℕ) (ms : Members) (out s : Bytes)
    → ((rounds (length s) out s ≡ none) ↔ IsBadText s)
      × ((elements (value level) (suc (length s)) s ≡ none) ↔ IsBadArray (value level) s)
      × ((members (value level) (suc (length s)) ms s ≡ none) ↔ IsBadObject (value level) ms s)
loops_refuse_iff level ms out s = (
  (rounds-refused (length s) out s (omega arith), rounds-IsBadText (length s) out s),
  (
    elements-refused (value level) (value-shorter level) (suc (length s)) s (omega arith),
    elements-IsBadArray (value level) (suc (length s)) s,
  ),
  (
    members-refused (value level) (value-shorter level) (suc (length s)) ms s (omega arith),
    members-IsBadObject (value level) (suc (length s)) ms s,
  ),
)
