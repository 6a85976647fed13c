-- ===== src/Audit/Append.antt =====
-- A record put behind the records of an audit trail.
use Prim.Native.Nat.{ℕ, suc, ◌+◌}
use ailee_finance_unified_ru.Prelude.{
  ◌≡◌, refl, true, some, List, [], ◌∷◌, ◌++◌, length, arith, if◌then◌else◌, ◌==◌, ◌&&◌,
}
use ailee_finance_unified_ru.Prelude.Bytes.{Bytes, same}
use ailee_finance_unified_ru.Float.{Float}
use ailee_finance_unified_ru.Audit.{
  AuditRecord, Printing, digest_to_hex, no_digest, genesis, all_zero, previous_digest_to_string,
  compute_hash, verify_from, are_sound, last_of,
}

module _ {F : Type 0} ⦃f : Float F⦄ ⦃p : Printing F⦄ where
  -- The text that the next record must name.
  abbrev pub expected_after : Bytes → List (AuditRecord F) → Bytes
  expected_after e [] = e
  expected_after e (r ∷ rs) = expected_after (digest_to_hex r.hash) rs

  pub verify_from-append :
      (e : Bytes) (rs : List (AuditRecord F)) (r : AuditRecord F) (h : Bytes)
      → verify_from e rs ≡ true
      → same (previous_digest_to_string r) (expected_after e rs) ≡ true
      → compute_hash r ≡ some h
      → same (digest_to_hex r.hash) h ≡ true
      → verify_from e (rs ++ (r ∷ [])) ≡ true
  unfolding verify_from
  verify_from-append e [] r h v a b c = ground arith
  verify_from-append e (x ∷ rs) r h v a b c =
      ground (arith, verify_from-append (digest_to_hex x.hash) rs r h)

  pub are_sound-append :
      (n : ℕ) (rs : List (AuditRecord F)) (r : AuditRecord F)
      → are_sound n rs ≡ true
      → f.is_finite r.final_value ≡ true
      → f.is_finite r.confidence ≡ true
      → r.decision_id ≡ n + length rs
      → are_sound n (rs ++ (r ∷ [])) ≡ true
  unfolding are_sound
  are_sound-append n [] r s a b c = ground arith
  are_sound-append n (x ∷ rs) r s a b c = ground (arith, are_sound-append (suc n) rs r)

  pub last_of-append :
      (h : Bytes) (rs : List (AuditRecord F)) (r : AuditRecord F)
      → last_of h (rs ++ (r ∷ [])) ≡ r.hash
  last_of-append h [] r = refl
  last_of-append h (x ∷ rs) r = last_of-append x.hash rs r

  expected_last :
      (r : AuditRecord F) (rs : List (AuditRecord F)) (e h : Bytes)
      → expected_after e (r ∷ rs) ≡ digest_to_hex (last_of h (r ∷ rs))
  expected_last r [] e h = refl
  expected_last r (x ∷ rs) e h = expected_last x rs (digest_to_hex r.hash) r.hash

  pub previous_of :
      (rs : List (AuditRecord F)) (n : ℕ) (h : Bytes)
      → n ≡ suc (length rs)
      → h ≡ last_of no_digest rs
      → (if n == 1 && all_zero h then genesis else digest_to_hex h) ≡ expected_after genesis rs
  unfolding all_zero
  previous_of [] n h p q = rw (p, q) refl
  previous_of (r ∷ rs) n h p q = ground (arith, expected_last r rs genesis no_digest)
