-- ===== src/Broker/Journal/Dash.antt =====
-- An order that the broker named `-`, the mark of a reservation.
use mathlib.Core.List.{append_assoc}
use ailee_finance_unified_ru.Prelude.{◌≡◌, refl, sym, ◌∙◌, none, some, [], ◌∷◌, ◌++◌, arith}
use ailee_finance_unified_ru.Prelude.Bytes.{Bytes, Lacks, same, same_refl, pieces, append-Lacks}
use ailee_finance_unified_ru.Float.{Float, IsIeee}
use ailee_finance_unified_ru.Broker.Journal.{
  Codec, Hash, Entry, Book, IntentJournal, Disk, tab, newline, header, intent_digest, core_of,
  find_entry, acknowledge,
}
use ailee_finance_unified_ru.Broker.Journal.Replay.{
  Fields, fields_of, transition, read_record, step, replay, new_book, open_journal, read_journal,
}
use ailee_finance_unified_ru.Broker.Journal.Lines.{
  IsCodec, IsField, hex-unbroken, core_of-unbroken, pieces-core_of, split_last-line,
}
use ailee_finance_unified_ru.Broker.Journal.Durable.{IsDurable, pieces-body, replay-append}
use ailee_finance_unified_ru.Broker.Journal.Written.{
  IsWritten, IsOrder, IsWritten-IsDurable, acknowledge-written,
}

abbrev dash : Bytes
dash = b'-' ∷ []

module _ {D : Type 0} ⦃d : Float D⦄ ⦃hash : Hash⦄ ⦃codec : Codec D⦄ where
  step-refused :
      (b : Book D) (core : Bytes) (r : Fields)
      → fields_of (pieces tab core) ≡ some r
      → read_record b r ≡ none
      → step b (core ++ (tab ∷ intent_digest (b.previous ++ (newline ∷ core)))) ≡ none
  unfolding step
  step-refused b core r hf hr = ground (
    arith,
    split_last-line core (b.previous ++ (newline ∷ core)),
    same_refl (intent_digest (b.previous ++ (newline ∷ core))),
  )

  dash-refused :
      (b : Book D) (ref : Bytes) (e : Entry D) (amount : Bytes)
      → find_entry ref b.entries ≡ some e
      → read_record b (record {
        state = b'A' ∷ [];
        ref = ref;
        fingerprint = e.fingerprint;
        id = dash;
        symbol = e.symbol;
        amount = amount;
      })
        ≡ none
  unfolding read_record transition same
  dash-refused b ref e amount h = ground arith

  unread-refused :
      (disk : Disk) (body : Bytes)
      → replay {D = D} new_book (pieces newline body) ≡ none
      → open_journal {D = D} disk (header ++ body) ≡ none
  unfolding open_journal read_journal
  unread-refused disk body h = ground arith

  module _ (ieee : IsIeee D) (laws : IsCodec D) where
    -- When a reserved order is acknowledged under the identifier `-`, the next process refuses
    -- the journal's file.
    pub acknowledge-refused :
        (disk : Disk) (j k : IntentJournal D) (ref : Bytes) (e : Entry D)
        → IsWritten j
        → IsOrder ref e.fingerprint e.symbol e.notional
        → find_entry ref j.book.entries ≡ some e
        → acknowledge Disk.stored j ref e.fingerprint dash ≡ (k, none)
        → open_journal {D = D} disk k.file ≡ none
    unfolding intent_digest
    acknowledge-refused disk j k ref e w o p h =
        let old : IsDurable j = IsWritten-IsDurable ieee laws j w in
        let core : Bytes = core_of b'A' ref e.fingerprint dash e.symbol e.notional in
        let checksum : Bytes = intent_digest (j.book.previous ++ (newline ∷ core)) in
        let line : Bytes = core ++ (tab ∷ checksum) in
        let field : IsField dash = record {
          no_tab = (refl, tt);
          no_newline = (refl, tt);
          filled = refl;
        } in
        let plain : Lacks newline line =
          append-Lacks newline core (tab ∷ checksum)
            (core_of-unbroken laws b'A' ref e.fingerprint dash e.symbol e.notional (refl, tt)
              o.ref_ok o.print_newline field o.symbol_ok o.finite)
            (refl, hex-unbroken (hash.sha256 (j.book.previous ++ (newline ∷ core)))) in
        let (shape, sized) = acknowledge-written j k ref e.fingerprint dash e old.in_capacity p h in
        let amount : Bytes = codec.amount_text e.notional in
        let r : Fields = record {
          state = b'A' ∷ [];
          ref = ref;
          fingerprint = e.fingerprint;
          id = dash;
          symbol = e.symbol;
          amount = amount;
        } in
        let parsed : fields_of (pieces tab core) ≡ some r =
          rw
            (pieces-core_of laws b'A' ref e.fingerprint dash e.symbol e.notional (refl, tt) o.ref_ok
              o.print_tab field o.symbol_ok o.finite)
            refl in
        let unread : replay new_book (pieces newline (old.body ++ (line ++ (newline ∷ []))))
            ≡ none =
          rw (pieces-body old.body line old.closed plain) (
            replay-append new_book j.book (pieces newline old.body) line old.replayed
            ∙ step-refused j.book core r parsed (dash-refused j.book ref e amount p)) in
        rw (shape, old.file_eq, sym (append_assoc core (tab ∷ checksum) (newline ∷ [])))
          (unread-refused disk (old.body ++ (line ++ (newline ∷ []))) unread)
