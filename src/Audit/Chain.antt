-- ===== src/Audit/Chain.antt =====
-- The chain of hashes in an audit trail.
use Prim.Native.Nat.{ℕ, suc, ◌≤◌, ◌%◌}
use ailee_finance_unified_ru.Prelude.{
  ◌≡◌, refl, sym, ◌∙◌, Bool, true, false, none, some, List, [], ◌∷◌, ◌++◌, length, length-append,
  arith, Option-cases, Bool-cases, inl, inr, if◌then◌else◌, not, ◌||◌, ltb, ◌⊎◌,
}
use ailee_finance_unified_ru.Prelude.Bytes.{Bytes, same, same_refl}
use ailee_finance_unified_ru.Float.{Float}
use ailee_finance_unified_ru.Engine.{Decision}
use ailee_finance_unified_ru.Audit.{
  AuditRecord, AuditLogger, Printing, digest_to_hex, no_digest, genesis, previous_digest_to_string,
  compute_hash, verify_integrity, is_bad_evidence, draft, sealed, Write, record_size, persist,
  push_back, log_decision, are_sound, last_of, serialize_record, canonical,
}
use ailee_finance_unified_ru.Audit.Append.{
  expected_after, verify_from-append, are_sound-append, last_of-append, previous_of,
}
use ailee_finance_unified_ru.Audit.Sha256.{internal_sha256}
use ailee_finance_unified_ru.Audit.Digest.{sha256-Kept}

module _ {F : Type 0} ⦃f : Float F⦄ ⦃p : Printing F⦄ where
  -- A file's records, in a logger that has the trail: these, or one more after it was closed.
  abbrev pub IsHeld : AuditLogger F → Type 0
  IsHeld l =
      (l.journal ≡ l.audit_trail)
      ⊎ ((l.is_open ≡ false)
          × (l.torn ≡ 0)
          × ((r : AuditRecord F) × (l.journal ≡ l.audit_trail ++ (r ∷ []))))

  -- A trail and a file that verify and are numbered from one, and what the file holds.
  pub record IsChained (l : AuditLogger F) : Type 0 where
    pub verified : verify_integrity l.audit_trail ≡ true
    pub sound : are_sound 1 l.audit_trail ≡ true
    pub numbered : l.next_decision_id ≡ suc (length l.audit_trail)
    pub last : l.last_hash ≡ last_of no_digest l.audit_trail
    pub persistent : l.persistence_required ≡ true
    pub journal_verified : verify_integrity l.journal ≡ true
    pub journal_sound : are_sound 1 l.journal ≡ true
    pub held : IsHeld l
    pub whole : (l.is_open ≡ false) ⊎ (l.torn ≡ 0)
    pub fits : length l.journal ≤ 262_143

  -- A record's own hash is no part of its text.
  serialize_record-sealed :
      (r : AuditRecord F) (h : Bytes) → serialize_record (sealed r h) ≡ serialize_record r
  unfolding serialize_record canonical previous_digest_to_string
  serialize_record-sealed r h = refl

  compute_hash-of :
      (r : AuditRecord F) (text : Bytes)
      → serialize_record r ≡ some text
      → compute_hash r ≡ some (internal_sha256 text)
  unfolding compute_hash
  compute_hash-of r text h = rw (h, compute_hash) refl

  module _ (l : AuditLogger F) (c : Decision F) (symbol strategy_id user_id text : Bytes)
      (h : IsChained l)
      (shown : serialize_record (draft l c symbol strategy_id user_id) ≡ some text)
      (good : is_bad_evidence c ≡ false) where
    abbrev next : AuditRecord F
    next = sealed (draft l c symbol strategy_id user_id) (internal_sha256 text)

    next_verified : verify_integrity (l.audit_trail ++ (next ∷ [])) ≡ true
    unfolding verify_integrity previous_digest_to_string
    next_verified =
        let e : Bytes = expected_after genesis l.audit_trail in
        let named : previous_digest_to_string next ≡ e =
          previous_of l.audit_trail l.next_decision_id l.last_hash h.numbered h.last in
        let hashed : compute_hash next ≡ some (internal_sha256 text) = compute_hash-of next text (
          serialize_record-sealed (draft l c symbol strategy_id user_id) (internal_sha256 text)
          ∙ shown) in
        let kept : same (digest_to_hex next.hash) (internal_sha256 text) ≡ true =
          rw (sha256-Kept text) (same_refl (internal_sha256 text)) in
        verify_from-append genesis l.audit_trail next (internal_sha256 text) h.verified
          (rw named (same_refl e)) hashed kept

    next_sound : are_sound 1 (l.audit_trail ++ (next ∷ [])) ≡ true
    unfolding is_bad_evidence
    next_sound =
        are_sound-append 1 l.audit_trail next h.sound (ground (arith, good)) (ground (arith, good))
          (omega (arith, h.numbered))

  abbrev is_stopped : AuditLogger F → Decision F → Bool
  is_stopped l c = not l.is_open || is_bad_evidence c || ltb 262_143 l.next_decision_id

  -- With the file open, what a write leaves.
  module _ (l : AuditLogger F) (c : Decision F) (symbol strategy_id user_id text : Bytes)
      (h : IsChained l)
      (shown : serialize_record (draft l c symbol strategy_id user_id) ≡ some text)
      (good : is_bad_evidence c ≡ false) (opened : l.is_open ≡ true)
      (room : ltb 262_143 l.next_decision_id ≡ false) where
    abbrev grown : List (AuditRecord F)
    grown = l.audit_trail ++ (next l c symbol strategy_id user_id text h shown good ∷ [])

    same_journal : l.journal ≡ l.audit_trail
    same_journal = ground (arith, h.held, opened)

    no_torn : l.torn ≡ 0
    no_torn = ground (arith, h.whole, opened)

    grown-fits : length grown ≤ 262_143
    grown-fits = ground (
      arith,
      h.numbered,
      room,
      length-append l.audit_trail (next l c symbol strategy_id user_id text h shown good ∷ []),
    )

    synced-IsChained :
        IsChained (record (push_back l (next l c symbol strategy_id user_id text h shown good)) {
          journal = l.journal ++ (next l c symbol strategy_id user_id text h shown good ∷ []);
        })
    synced-IsChained =
        let verified = next_verified l c symbol strategy_id user_id text h shown good in
        let sound = next_sound l c symbol strategy_id user_id text h shown good in
        record {
          verified = verified;
          sound = sound;
          numbered = omega (arith, h.numbered, length-append l.audit_trail (_ ∷ []));
          last = sym (last_of-append no_digest l.audit_trail _);
          persistent = h.persistent;
          journal_verified = rw same_journal verified;
          journal_sound = rw same_journal sound;
          held = inl (rw same_journal refl);
          whole = inr no_torn;
          fits = rw same_journal grown-fits;
        }

    unsynced-IsChained : IsChained (record l {
      journal = l.journal ++ (next l c symbol strategy_id user_id text h shown good ∷ []);
      is_open = false;
    })
    unsynced-IsChained = record {
      verified = h.verified;
      sound = h.sound;
      numbered = h.numbered;
      last = h.last;
      persistent = h.persistent;
      journal_verified =
          rw same_journal (next_verified l c symbol strategy_id user_id text h shown good);
      journal_sound = rw same_journal (next_sound l c symbol strategy_id user_id text h shown good);
      held = inr (
        refl,
        no_torn,
        (next l c symbol strategy_id user_id text h shown good, rw same_journal refl),
      );
      whole = inl refl;
      fits = rw same_journal grown-fits;
    }

    short-IsChained : (n : ℕ) → IsChained (record l { torn = n; is_open = false })
    short-IsChained n = record {
      verified = h.verified;
      sound = h.sound;
      numbered = h.numbered;
      last = h.last;
      persistent = h.persistent;
      journal_verified = h.journal_verified;
      journal_sound = h.journal_sound;
      held = inl same_journal;
      whole = inl refl;
      fits = h.fits;
    }

    pushed-IsChained :
        (write : Write)
        → let r = next l c symbol strategy_id user_id text h shown good in
          let (l', kept) = persist write l r in IsChained (if kept then push_back l' r else l')
    unfolding persist
    pushed-IsChained Write.synced = rw opened (rw (opened) at synced-IsChained)
    pushed-IsChained Write.unsynced = rw opened unsynced-IsChained
    pushed-IsChained (Write.short n) = rw opened (short-IsChained (n % record_size))

  -- A call that stops before the write changes nothing.
  log_decision-stopped :
      (write : Write) (l : AuditLogger F) (c : Decision F) (symbol strategy_id user_id : Bytes)
      → (is_stopped l c ≡ true) ⊎ (serialize_record (draft l c symbol strategy_id user_id) ≡ none)
      → l.persistence_required ≡ true
      → (log_decision write l c symbol strategy_id user_id).0 ≡ l
  unfolding log_decision compute_hash
  log_decision-stopped write l c symbol strategy_id user_id s k = ground arith

  log_decision-pushed :
      (write : Write) (l : AuditLogger F) (c : Decision F) (symbol strategy_id user_id hash : Bytes)
      → is_stopped l c ≡ false
      → compute_hash (draft l c symbol strategy_id user_id) ≡ some hash
      → let r = sealed (draft l c symbol strategy_id user_id) hash in
        let (l', kept) = persist write l r in
        (log_decision write l c symbol strategy_id user_id).0
        ≡ (if kept then push_back l' r else l')
  unfolding log_decision
  log_decision-pushed write l c symbol strategy_id user_id hash s e = ground arith

  -- Whatever a call logs and whether its write is synchronised, not synchronised or cut off, a
  -- logger stays one whose trail and whose file's whole records verify and are numbered from
  -- one, and whose next number and last hash are the trail's; whose file holds the trail's
  -- records or, closed, one more; and whose file has at most 262143 whole records and, while
  -- it is open, no part of one.
  pub log_decision-IsChained :
      (write : Write) (l : AuditLogger F) (c : Decision F) (symbol strategy_id user_id : Bytes)
      → IsChained l
      → IsChained (log_decision write l c symbol strategy_id user_id).0
  log_decision-IsChained write l c symbol strategy_id user_id h =
      let r : AuditRecord F = draft l c symbol strategy_id user_id in
      elim (Option-cases (serialize_record r)) [
        | inl e ↦
            rw (log_decision-stopped write l c symbol strategy_id user_id (inr e) h.persistent) h
        | inr (text, e) ↦ elim (Bool-cases (is_stopped l c)) [
          | inl s ↦
              rw (log_decision-stopped write l c symbol strategy_id user_id (inl s) h.persistent) h
          | inr s ↦
              rw
                (log_decision-pushed write l c symbol strategy_id user_id (internal_sha256 text) s
                  (compute_hash-of r text e))
                (pushed-IsChained l c symbol strategy_id user_id text h e (ground arith)
                  (ground arith) (ground arith) write)
        ]
      ]
