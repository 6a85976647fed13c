-- ===== src/Audit.antt =====
-- The audit logger, aille_audit.cpp: a journal in which each record carries the hash of the one
-- before. What becomes of a write is given to the call; the CSV export is not modelled. The file is
-- its whole records, and the number of bytes that a write that was cut off left behind them.
pub mod Sha256
pub mod Digest
pub mod Append
pub mod Chain
pub mod Reopen
mod Tests
use Prim.Native.Nat.{ℕ, zero, suc, ◌+◌, ◌-◌, ◌*◌, ◌/◌, ◌%◌}
use ailee_finance_unified_ru.Prelude.{
  Bool, true, false, not, ◌&&◌, ◌||◌, Option, none, some, List, [], ◌∷◌, ◌++◌, map, length, take,
  replicate, if◌then◌else◌, ltb, leb, ◌==◌,
}
use ailee_finance_unified_ru.Prelude.Int.{ℤ, pos}
use ailee_finance_unified_ru.Prelude.Bytes.{Bytes, codes, is_empty, same}
use ailee_finance_unified_ru.Float.{Float, nought, one}
use ailee_finance_unified_ru.Engine.{Decision, Status, Reason}
use ailee_finance_unified_ru.Audit.Sha256.{internal_sha256}

-- The texts of numbers, and of a decision's reasoning.
pub record Printing (F : Type 0) : Type 0 where
  pub ten_digits : F → Bytes
  pub int_text : ℤ → Bytes
  pub nat_text : ℕ → Bytes
  pub reason_text : Reason → Bytes

-- A text stands for a buffer up to its first NUL.
pub record AuditRecord (F : Type 0) : Type 0 where
  pub timestamp_ns : ℕ
  pub decision_id : ℕ
  pub status : Status
  pub final_value : F
  pub confidence : F
  pub models_agreed : ℕ
  pub fallback_used : Bool
  pub reasoning : Bytes
  pub contributing_models : List ℤ
  pub symbol : Bytes
  pub strategy_id : Bytes
  pub user_id : Bytes
  pub prev_hash : Bytes
  pub hash : Bytes

pub record AuditLogger (F : Type 0) : Type 0 where
  pub audit_trail : List (AuditRecord F)
  pub next_decision_id : ℕ
  pub last_hash : Bytes
  pub persistence_required : Bool
  pub is_open : Bool
  pub journal : List (AuditRecord F)
  pub torn : ℕ

-- What becomes of a record: it is written and synchronised, written whole but not synchronised, or
-- cut off after some bytes.
pub data Write : Type 0 where
  synced unsynced : Write
  short : ℕ → Write

pub data Fault : Type 0 where
  unavailable invalid_evidence full control_character persistence : Fault

abbrev pub hex_digit : ℕ → ℕ
hex_digit n = if ltb n 10 then 48 + n else 87 + n

unfoldable pub digest_to_hex : Bytes → Bytes
digest_to_hex [] = []
digest_to_hex (b ∷ bs) = hex_digit (b / 16 % 16) ∷ hex_digit (b % 16) ∷ digest_to_hex bs

abbrev digit_value : ℕ → ℕ
digit_value c = if ltb c 58 then c - 48 else c - 87

-- Of the text of a hash, whose digits are of lower case.
unfoldable pub copy_digest : Bytes → Bytes
copy_digest (a ∷ b ∷ s) = (digit_value a * 16 + digit_value b) ∷ copy_digest s
copy_digest _ = []

-- `sizeof(AuditRecord)` and the length of the file's header.
abbrev pub record_size : ℕ
record_size = 256

abbrev pub header_size : ℕ
header_size = 19

abbrev pub no_digest : Bytes
no_digest = replicate 32 0

abbrev pub genesis : Bytes
genesis = replicate 16 b'0'

unfoldable pub all_zero : Bytes → Bool
all_zero [] = true
all_zero (b ∷ bs) = b == 0 && all_zero bs

unfoldable pub has_control : Bytes → Bool
has_control [] = false
has_control (c ∷ s) = ltb c 32 || c == 127 || has_control s

unfoldable pub until_nul : Bytes → Bytes
until_nul [] = []
until_nul (c ∷ s) = let rest = until_nul s in if c == 0 then [] else c ∷ rest

-- What a buffer of `n` bytes keeps of a text.
abbrev buffered : ℕ → Bytes → Bytes
buffered n s = until_nul (take (n - 1) s)

abbrev ten : List ℤ → List ℤ
ten xs = take 10 (xs ++ replicate 10 (pos 0))

unfoldable pub status_code : Status → Bytes
status_code Status.decision_valid = codes "0"
status_code Status.rejected_low_confidence = codes "1"
status_code Status.rejected_no_consensus = codes "2"
status_code Status.fallback_activated = codes "3"
status_code Status.error_no_models = codes "4"

unfoldable pub join_models : (ℤ → Bytes) → List ℤ → Bytes
join_models print [] = []
join_models print (x ∷ []) = print x
join_models print (x ∷ y ∷ xs) = print x ++ (b',' ∷ join_models print (y ∷ xs))

abbrev entry : Bytes → Bytes → Bytes → Bytes
entry name text rest = name ++ (b'=' ∷ text) ++ (31 ∷ rest)

module _ {F : Type 0} where
  unfoldable pub previous_digest_to_string : AuditRecord F → Bytes
  previous_digest_to_string r =
      if r.decision_id == 1 && all_zero r.prev_hash then genesis else digest_to_hex r.prev_hash

module _ {F : Type 0} ⦃p : Printing F⦄ where
  unfoldable pub canonical : AuditRecord F → Bytes
  canonical r = entry (codes "timestamp_ns") (p.nat_text r.timestamp_ns) (
      entry (codes "decision_id") (p.nat_text r.decision_id) (
        entry (codes "status") (status_code r.status) (
          entry (codes "final_value") (p.ten_digits r.final_value) (
            entry (codes "confidence") (p.ten_digits r.confidence) (
              entry (codes "models_agreed") (p.nat_text r.models_agreed) (
                entry (codes "fallback_used") (if r.fallback_used then codes "1" else codes "0") (
                  entry (codes "reasoning") r.reasoning (
                    entry (codes "symbol") r.symbol (
                      entry (codes "strategy_id") r.strategy_id (
                        entry (codes "user_id") r.user_id (
                          entry (codes "prev_hash") (previous_digest_to_string r) (
                            codes "contributing_models="
                            ++ join_models p.int_text r.contributing_models))))))))))))

  unfoldable pub serialize_record : AuditRecord F → Option Bytes
  serialize_record r =
      if has_control r.reasoning
        || has_control r.symbol
        || has_control r.strategy_id
        || has_control r.user_id
      then none
      else some (canonical r)

  unfoldable pub compute_hash : AuditRecord F → Option Bytes
  compute_hash r = elim (serialize_record r) [ none ↦ none | some s ↦ some (internal_sha256 s) ]

  unfoldable pub verify_from : Bytes → List (AuditRecord F) → Bool
  verify_from expected [] = true
  verify_from expected (r ∷ rs) =
      let rest = verify_from (digest_to_hex r.hash) rs in
      if not (same (previous_digest_to_string r) expected) then false else elim (compute_hash r) [
        | none ↦ false
        | some h ↦ if not (same (digest_to_hex r.hash) h) then false else rest
      ]

  unfoldable pub verify_integrity : List (AuditRecord F) → Bool
  verify_integrity trail = verify_from genesis trail

module _ {F : Type 0} ⦃f : Float F⦄ ⦃p : Printing F⦄ where
  unfoldable pub is_bad_evidence : Decision F → Bool
  is_bad_evidence c =
      not (f.is_finite c.final_value)
      || not (f.is_finite c.confidence)
      || f.lt c.confidence nought
      || f.lt one c.confidence
      || ltb 64 c.models_agreed
      || ltb 10 (length c.contributing_models)

  abbrev pub draft : AuditLogger F → Decision F → Bytes → Bytes → Bytes → AuditRecord F
  draft l c symbol strategy_id user_id = record {
    timestamp_ns = c.timestamp_ns;
    decision_id = l.next_decision_id;
    status = c.status;
    final_value = c.final_value;
    confidence = c.confidence;
    models_agreed = c.models_agreed;
    fallback_used = c.fallback_used;
    reasoning = buffered 64 (p.reason_text c.reasoning);
    contributing_models = ten c.contributing_models;
    symbol = buffered 12 symbol;
    strategy_id = buffered 16 strategy_id;
    user_id = buffered 16 user_id;
    prev_hash = l.last_hash;
    hash = no_digest;
  }

  abbrev pub sealed : AuditRecord F → Bytes → AuditRecord F
  sealed r h = record r { hash = copy_digest h }

  -- `write` and `fsync`, and `close` where one of them fails.
  unfoldable pub persist : Write → AuditLogger F → AuditRecord F → AuditLogger F × Bool
  persist write l r = if not l.is_open then (l, true) else elim write [
    | synced ↦ (record l { journal = l.journal ++ (r ∷ []) }, true)
    | unsynced ↦ (record l { journal = l.journal ++ (r ∷ []); is_open = false }, false)
    | short n ↦ (record l { torn = n % record_size; is_open = false }, false)
  ]

  abbrev pub push_back : AuditLogger F → AuditRecord F → AuditLogger F
  push_back l r = record l {
    audit_trail = l.audit_trail ++ (r ∷ []);
    next_decision_id = suc l.next_decision_id;
    last_hash = r.hash;
  }

  unfoldable pub log_decision :
      Write → AuditLogger F → Decision F → Bytes → Bytes → Bytes → AuditLogger F × Option Fault
  log_decision write l c symbol strategy_id user_id =
      let r = draft l c symbol strategy_id user_id in
      if l.persistence_required && not l.is_open
      then (l, some Fault.unavailable)
      else if is_bad_evidence c
      then (l, some Fault.invalid_evidence)
      else if l.is_open && ltb 262_143 l.next_decision_id
      then (l, some Fault.full)
      else elim (compute_hash r) [
        | none ↦ (l, some Fault.control_character)
        | some h ↦
            let (l', kept) = persist write l (sealed r h) in
            if kept then (push_back l' (sealed r h), none) else (l', some Fault.persistence)
      ]

  unfoldable pub are_sound : ℕ → List (AuditRecord F) → Bool
  are_sound n [] = true
  are_sound n (r ∷ rs) =
      f.is_finite r.final_value
      && f.is_finite r.confidence
      && r.decision_id == n
      && are_sound (suc n) rs

  abbrev pub last_of : Bytes → List (AuditRecord F) → Bytes
  last_of h [] = h
  last_of h (r ∷ rs) = last_of r.hash rs

  -- A file that stands: its records, and the bytes after the last whole one.
  unfoldable pub open_audit : List (AuditRecord F) → ℕ → Option (AuditLogger F)
  open_audit records torn =
      if ltb (64 * 1_024 * 1_024) (header_size + record_size * length records + torn)
        || not (torn == 0)
        || not (are_sound 1 records)
        || not (verify_integrity records)
      then none
      else some (record {
        audit_trail = records;
        next_decision_id = suc (length records);
        last_hash = last_of no_digest records;
        persistence_required = true;
        is_open = true;
        journal = records;
        torn = 0;
      })
