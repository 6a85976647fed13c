-- ===== src/Broker/Json/Shorter.antt =====
-- Reading a value takes at least one byte from the text that is left.
use Prim.Native.Nat.{ℕ, zero, suc, ◌<◌}
use ailee_finance_unified_ru.Prelude.{
  ◌≡◌, Bool, Option, some, Option-cases, inl, inr, [], length, arith,
}
use ailee_finance_unified_ru.Prelude.Bytes.{Bytes}
use ailee_finance_unified_ru.Broker.Json.Text.{ws, take, need, text, >>=-eq-some}
use ailee_finance_unified_ru.Broker.Json.{
  JsonScalar, Members, elements, array, members, fields, value, object, hidden, emplace_member,
}
use ailee_finance_unified_ru.Broker.Json.Consume.{
  ws-length, take-length, need-shorter, text-shorter, word-shorter,
}

abbrev pub Reader : Type 0
Reader = Bytes → Option (JsonScalar × Bytes)

abbrev pub Shortens : Reader → Type 0
Shortens read = (s r : Bytes) (v : JsonScalar) → read s ≡ some (v, r) → length r < length s

module _ (read : Reader) (short : Shortens read) where
  elements-shorter : (fuel : ℕ) (s r : Bytes) → elements read fuel s ≡ some r → length r < length s
  unfolding elements
  elements-shorter zero s r h = cc
  elements-shorter (suc fuel) s r h =
      let ((v, s1), e, h1) = >>=-eq-some (read s) _ _ h in
      ground (arith, short s s1 v, take-length b',' s1, elements-shorter fuel (take b',' s1).1 r)

  array-shorter : (s r : Bytes) (v : JsonScalar) → array read s ≡ some (v, r) → length r < length s
  unfolding array
  array-shorter s r v h =
      let (s1, e, h1) = >>=-eq-some (need b'[' s) _ _ h in
      let close : Bool × Bytes = take b']' s1 in
      elim (Option-cases (elements read (suc (length close.1)) close.1)) [
        | inl e' ↦ ground (arith, need-shorter b'[' s s1, take-length b']' s1)
        | inr (s2, e') ↦ ground (
          arith,
          need-shorter b'[' s s1,
          take-length b']' s1,
          elements-shorter (suc (length close.1)) close.1 s2,
          need-shorter b']' s2 r,
        )
      ]

  members-shorter :
      (fuel : ℕ) (ms ms' : Members) (s r : Bytes)
      → members read fuel ms s ≡ some (ms', r)
      → length r < length s
  unfolding members
  members-shorter zero ms ms' s r h = cc
  members-shorter (suc fuel) ms ms' s r h =
      let ((key, s1), e, h1) = >>=-eq-some (text s) _ _ h in
      let (s2, e', h2) = >>=-eq-some (need b':' s1) _ _ h1 in
      let ((v, s3), e'', h3) = >>=-eq-some (read s2) _ _ h2 in
      ground (
        arith,
        text-shorter s key s1,
        need-shorter b':' s1 s2,
        short s2 s3 v,
        take-length b',' s3,
        members-shorter fuel (emplace_member key v ms) ms' (take b',' s3).1 r,
      )

  fields-shorter : (s r : Bytes) (ms : Members) → fields read s ≡ some (ms, r) → length r < length s
  unfolding fields
  fields-shorter s r ms h =
      let (s1, e, h1) = >>=-eq-some (need b'{' s) _ _ h in
      let close : Bool × Bytes = take b'}' s1 in
      elim (Option-cases (members read (suc (length close.1)) [] close.1)) [
        | inl e' ↦ ground (arith, need-shorter b'{' s s1, take-length b'}' s1)
        | inr ((ms', s2), e') ↦ ground (
          arith,
          need-shorter b'{' s s1,
          take-length b'}' s1,
          members-shorter (suc (length close.1)) [] ms' close.1 s2,
          need-shorter b'}' s2 r,
        )
      ]

mutual
  unfolding value object

  pub value-shorter : (level : ℕ) → Shortens (value level)
  value-shorter zero s r v h = cc
  value-shorter (suc level) s r v h = ground (
    arith,
    ws-length s,
    text-shorter (ws s) v.value r,
    object-shorter level (ws s) r v,
    array-shorter (value level) (value-shorter level) (ws s) r v,
    word-shorter (ws s) r v,
  )

  object-shorter :
      (level : ℕ) (s r : Bytes) (v : JsonScalar)
      → hidden (object level s) ≡ some (v, r)
      → length r < length s
  object-shorter zero s r v h = cc
  object-shorter (suc level) s r v h = elim (Option-cases (fields (value level) s)) [
    | inl e ↦ ground arith
    | inr ((ms, r'), e) ↦ ground (arith, fields-shorter (value level) (value-shorter level) s r' ms)
  ]
