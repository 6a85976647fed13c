-- ===== src/Audit/Tests.antt =====
-- The hash at the standard's first example, and the logger at a decision.
use Prim.Native.Nat.{ℕ}
use ailee_finance_unified_ru.Prelude.{◌≡◌, refl, true, false, some, [], ◌∷◌, inl, inr, arith}
use ailee_finance_unified_ru.Prelude.Int.{ℤ, pos}
use ailee_finance_unified_ru.Prelude.Bytes.{codes}
use ailee_finance_unified_ru.Float.Fixed.{Fixed, fixed_float}
use ailee_finance_unified_ru.Engine.{Decision, Status, Reason}
use ailee_finance_unified_ru.Audit.{
  AuditLogger, Printing, Write, no_digest, verify_integrity, verify_from, are_sound, open_audit,
  log_decision,
}
use ailee_finance_unified_ru.Audit.Sha256.{
  zeros, pad, words, rotate_right, schedule, work_round, work_rounds, compress, chunks,
  round_constants, hex_word, hex_work, internal_sha256,
}
use ailee_finance_unified_ru.Audit.Chain.{IsChained, log_decision-IsChained}
use ailee_finance_unified_ru.Audit.Reopen.{Call, IsReopened, log_all, log_all-reopens}

abc-run :
    internal_sha256 (codes "abc")
    ≡ codes "ba7816bf8f01cfea414140de5dae2223b00361a396177a9cb410ff61f20015ad"
unfolding zeros pad words rotate_right schedule work_round work_rounds compress chunks
    round_constants hex_word hex_work internal_sha256
abc-run = refl

instance abbrev some_printing : Printing Fixed
some_printing = record {
  ten_digits = λ (a : Fixed). codes "0.5";
  int_text = λ (i : ℤ). codes "1";
  nat_text = λ (n : ℕ). codes "2";
  reason_text = λ (r : Reason). codes "Consensus";
}

abbrev decision : Decision Fixed
decision = record {
  final_value = some (pos 5_000);
  status = Status.decision_valid;
  confidence = some (pos 8_000);
  models_agreed = 2;
  fallback_used = false;
  timestamp_ns = 1_000;
  contributing_models = pos 1 ∷ pos 2 ∷ [];
  reasoning = Reason.consensus_of 2;
}

abbrev started : AuditLogger Fixed
started = record {
  audit_trail = [];
  next_decision_id = 1;
  last_hash = no_digest;
  persistence_required = true;
  is_open = true;
  journal = [];
  torn = 0;
}

started-run : open_audit [] 0 ≡ some started
unfolding open_audit are_sound verify_integrity verify_from
started-run = refl

started-IsChained : IsChained started
unfolding are_sound verify_integrity verify_from
started-IsChained = record {
  verified = refl;
  sound = refl;
  numbered = refl;
  last = refl;
  persistent = refl;
  journal_verified = refl;
  journal_sound = refl;
  held = inl refl;
  whole = inr refl;
  fits = omega arith;
}

abbrev logged : AuditLogger Fixed
logged =
    (log_decision Write.unsynced started decision (codes "BTC") (codes "momentum") (codes "desk")).0

log_decision-IsChained_example : IsChained logged
log_decision-IsChained_example =
    log_decision-IsChained Write.unsynced started decision (codes "BTC") (codes "momentum")
      (codes "desk") started-IsChained

abbrev call : Write → Call Fixed
call write = record {
  write = write;
  decision = decision;
  symbol = codes "BTC";
  strategy_id = codes "momentum";
  user_id = codes "desk";
}

log_all-reopens_example :
    IsReopened (log_all started (call Write.synced ∷ call (Write.short 100) ∷ []))
log_all-reopens_example =
    log_all-reopens [] started (call Write.synced ∷ call (Write.short 100) ∷ []) started-run
