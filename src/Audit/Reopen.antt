-- ===== src/Audit/Reopen.antt =====
-- The file of the audit logger, aille_audit.cpp: what opening it again gives after any calls.
use Prim.Native.Nat.{ℕ, suc}
use ailee_finance_unified_ru.Prelude.{
  ◌≡◌, ◌≢◌, ◌⊎◌, true, false, none, some, List, [], ◌∷◌, length, length-append, arith, Bool-cases,
  inl, inr, ◌==◌,
}
use ailee_finance_unified_ru.Prelude.Bytes.{Bytes}
use ailee_finance_unified_ru.Float.{Float}
use ailee_finance_unified_ru.Engine.{Decision}
use ailee_finance_unified_ru.Audit.{
  AuditRecord, AuditLogger, Printing, Write, no_digest, push_back, log_decision, last_of,
  open_audit,
}
use ailee_finance_unified_ru.Audit.Chain.{IsChained, log_decision-IsChained}
use ailee_finance_unified_ru.Audit.Append.{last_of-append}

-- The arguments of a call, with what becomes of its write.
pub record Call (F : Type 0) : Type 0 where
  pub write : Write
  pub decision : Decision F
  pub symbol : Bytes
  pub strategy_id : Bytes
  pub user_id : Bytes

module _ {F : Type 0} ⦃f : Float F⦄ ⦃p : Printing F⦄ where
  -- Any calls, one after the other.
  unfoldable pub log_all : AuditLogger F → List (Call F) → AuditLogger F
  log_all l [] = l
  log_all l (c ∷ calls) =
      log_all (log_decision c.write l c.decision c.symbol c.strategy_id c.user_id).0 calls

  log_all-IsChained :
      (l : AuditLogger F) (calls : List (Call F)) → IsChained l → IsChained (log_all l calls)
  unfolding log_all
  log_all-IsChained l [] h = h
  log_all-IsChained l (c ∷ calls) h =
      log_all-IsChained (log_decision c.write l c.decision c.symbol c.strategy_id c.user_id).0 calls
        (log_decision-IsChained c.write l c.decision c.symbol c.strategy_id c.user_id h)

  open_audit-IsChained :
      (records : List (AuditRecord F)) (torn : ℕ) (l : AuditLogger F)
      → open_audit records torn ≡ some l
      → IsChained l
  unfolding open_audit
  open_audit-IsChained records torn l h = record {
    verified = ground arith;
    sound = ground arith;
    numbered = ground arith;
    last = ground arith;
    persistent = ground arith;
    journal_verified = ground arith;
    journal_sound = ground arith;
    held = inl (ground arith);
    whole = inr (ground arith);
    fits = ground arith;
  }

  open_audit-torn :
      (records : List (AuditRecord F)) (torn : ℕ) → torn ≢ 0 → open_audit records torn ≡ none
  unfolding open_audit
  open_audit-torn records torn h = ground arith

  open_audit-whole :
      (l : AuditLogger F)
      → IsChained l
      → l.torn ≡ 0
      → open_audit l.journal l.torn
        ≡ some (record l {
          audit_trail = l.journal;
          next_decision_id = suc (length l.journal);
          last_hash = last_of no_digest l.journal;
          is_open = true;
        })
  unfolding open_audit
  open_audit-whole l h whole =
      ground (arith, h.journal_verified, h.journal_sound, h.fits, h.persistent)

  -- What the file of a logger gives when it is opened again: the logger; with the record of a
  -- write that was not synchronised; or nothing where a write was cut off.
  abbrev pub IsReopened : AuditLogger F → Type 0
  IsReopened l =
      (open_audit l.journal l.torn ≡ some (record l { is_open = true }))
      ⊎ ((l.is_open ≡ false)
          × ((r : AuditRecord F) × (open_audit l.journal l.torn
                ≡ some (record (push_back l r) { is_open = true }))))
      ⊎ ((l.is_open ≡ false) × (l.torn ≢ 0) × (open_audit l.journal l.torn ≡ none))

  IsChained-IsReopened : (l : AuditLogger F) → IsChained l → IsReopened l
  IsChained-IsReopened l h = elim (Bool-cases (l.torn == 0)) [
    | inl whole ↦
        let again = open_audit-whole l h (ground (arith, whole)) in
        elim h.held [
          | inl same ↦ inl (ground (arith, again, same, h.numbered, h.last))
          | inr (shut, _, (r, more)) ↦
              let more_by_one = length-append l.audit_trail (r ∷ []) in
              let last = last_of-append no_digest l.audit_trail r in
              inr (inl (shut, (r, ground (arith, again, more, h.numbered, more_by_one, last))))
        ]
    | inr cut ↦
        let torn : l.torn ≢ 0 = λ e. ground (arith, e, cut) in
        inr (inr (ground (arith, h.whole, torn), torn, open_audit-torn l.journal l.torn torn))
  ]

  -- After any calls of a logger that was opened on a file, whatever becomes of their writes,
  -- opening the file again gives the logger's trail, next number and last hash; or, the logger
  -- being closed, the same with one record more, whose write was not synchronised; or, the
  -- logger being closed and a part of a record being left, it is refused.
  pub log_all-reopens :
      (records : List (AuditRecord F)) (l : AuditLogger F) (calls : List (Call F))
      → open_audit records 0 ≡ some l
      → IsReopened (log_all l calls)
  log_all-reopens records l calls h =
      IsChained-IsReopened (log_all l calls)
        (log_all-IsChained l calls (open_audit-IsChained records 0 l h))
