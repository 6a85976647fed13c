-- ===== src/Broker/Journal/Replayed.antt =====
-- The replay of a line that `reserve` or `acknowledge` wrote.
use Prim.Native.Nat.{suc, ◌<◌, ◌≤◌}
use ailee_finance_unified_ru.Prelude.{
  ◌≡◌, refl, true, false, none, some, List, [], ◌∷◌, ◌++◌, length, arith, if◌then◌else◌,
}
use ailee_finance_unified_ru.Prelude.Bytes.{
  Bytes, Lacks, is_empty, same, same_refl, same_eq, pieces,
}
use ailee_finance_unified_ru.Float.{Float, IsFinite, nought, eq}
use ailee_finance_unified_ru.Broker.Journal.{
  Codec, Hash, Entry, Book, tab, newline, intent_digest, core_of, find_entry, emplace, set_id,
  max_entries,
}
use ailee_finance_unified_ru.Broker.Journal.Replay.{
  Fields, fields_of, transition, read_record, step, pending_entry,
}
use ailee_finance_unified_ru.Broker.Journal.Lines.{
  IsCodec, IsField, IsSound, pieces-core_of, split_last-line,
}

module _ {D : Type 0} where
  pub length-emplace :
      (k : Bytes) (v : Entry D) (es : List (Bytes × Entry D))
      → length (emplace k v es) ≤ suc (length es)
  unfolding emplace
  length-emplace k v [] = omega arith
  length-emplace k v (_ ∷ es) = ground (arith, length-emplace k v es)

  pub length-set_id :
      (k id : Bytes) (es : List (Bytes × Entry D)) → length (set_id k id es) ≡ length es
  unfolding set_id
  length-set_id k id [] = refl
  length-set_id k id (_ ∷ es) = ground (arith, length-set_id k id es)

  pub find_entry-emplace :
      (k i : Bytes) (v : Entry D) (es : List (Bytes × Entry D))
      → find_entry k es ≡ none
      → find_entry i (emplace k v es) ≡ (if same k i then some v else find_entry i es)
  unfolding find_entry emplace
  find_entry-emplace k i v [] h = ground arith
  find_entry-emplace k i v ((j, e) ∷ es) h =
      ground (arith, find_entry-emplace k i v es, same_eq j i, same_eq k i, same_refl j)

module _ {D : Type 0} ⦃d : Float D⦄ ⦃hash : Hash⦄ ⦃codec : Codec D⦄ where
  -- A line of six fields is read as its record.
  pub step-line :
      (b b' : Book D) (core : Bytes) (r : Fields)
      → fields_of (pieces tab core) ≡ some r
      → read_record b r ≡ some b'
      → length b'.entries ≤ max_entries
      → step b (core ++ (tab ∷ intent_digest (b.previous ++ (newline ∷ core))))
        ≡ some (record b' { previous = intent_digest (b.previous ++ (newline ∷ core)) })
  unfolding step
  step-line b b' core r hf hr hl =
      let sum = intent_digest (b.previous ++ (newline ∷ core)) in
      ground (arith, split_last-line core (b.previous ++ (newline ∷ core)), same_refl sum)

  module _ (laws : IsCodec D) where
    open laws use {read_back}

    pub step-reserved :
        (b : Book D) (ref fingerprint symbol : Bytes) (a : D)
        → IsField ref
        → Lacks tab fingerprint
        → length fingerprint ≡ 64
        → IsField symbol
        → IsFinite a
        → d.le a nought ≡ false
        → find_entry ref b.entries ≡ none
        → length b.entries < max_entries
        → let core = core_of b'P' ref fingerprint (b'-' ∷ []) symbol a in
          step b (core ++ (tab ∷ intent_digest (b.previous ++ (newline ∷ core))))
          ≡ some (record {
            entries =
                emplace ref
                  (record { fingerprint = fingerprint; id = []; symbol = symbol; notional = a })
                  b.entries;
            previous = intent_digest (b.previous ++ (newline ∷ core));
          })
    unfolding read_record transition same
    step-reserved b ref fingerprint symbol a hr hf hn hs ha hp ho hl =
        let core : Bytes = core_of b'P' ref fingerprint (b'-' ∷ []) symbol a in
        let r : Fields = record {
          state = b'P' ∷ [];
          ref = ref;
          fingerprint = fingerprint;
          id = b'-' ∷ [];
          symbol = symbol;
          amount = codec.amount_text a;
        } in
        let b' : Book D = record b { entries = emplace ref (pending_entry r a) b.entries } in
        let parsed : fields_of (pieces tab core) ≡ some r =
          rw
            (pieces-core_of laws b'P' ref fingerprint (b'-' ∷ []) symbol a (refl, tt) hr hf
              (record { no_tab = (refl, tt); no_newline = (refl, tt); filled = refl }) hs ha)
            refl in
        let accepted : read_record b r ≡ some b' =
          ground (arith, read_back a ha, hr.filled, hs.filled) in
        step-line b b' core r parsed accepted
          (omega (arith, hl, length-emplace ref (pending_entry r a) b.entries))

    pub step-acknowledged :
        (b : Book D) (ref id : Bytes) (e : Entry D)
        → IsField ref
        → Lacks tab e.fingerprint
        → length e.fingerprint ≡ 64
        → IsSound e
        → IsField id
        → same id (b'-' ∷ []) ≡ false
        → is_empty e.id ≡ true
        → eq e.notional e.notional ≡ true
        → find_entry ref b.entries ≡ some e
        → length b.entries ≤ max_entries
        → let core = core_of b'A' ref e.fingerprint id e.symbol e.notional in
          step b (core ++ (tab ∷ intent_digest (b.previous ++ (newline ∷ core))))
          ≡ some (record {
            entries = set_id ref id b.entries;
            previous = intent_digest (b.previous ++ (newline ∷ core));
          })
    unfolding read_record transition same
    step-acknowledged b ref id e hr hf hn he hi hd hp hq ho hl =
        let core : Bytes = core_of b'A' ref e.fingerprint id e.symbol e.notional in
        let r : Fields = record {
          state = b'A' ∷ [];
          ref = ref;
          fingerprint = e.fingerprint;
          id = id;
          symbol = e.symbol;
          amount = codec.amount_text e.notional;
        } in
        let b' : Book D = record b { entries = set_id ref id b.entries } in
        let parsed : fields_of (pieces tab core) ≡ some r =
          rw
            (pieces-core_of laws b'A' ref e.fingerprint id e.symbol e.notional (refl, tt) hr hf hi
              he.symbol_ok he.finite)
            refl in
        let accepted : read_record b r ≡ some b' = ground (
          arith,
          read_back e.notional he.finite,
          hr.filled,
          he.symbol_ok.filled,
          hi.filled,
          he.positive,
          same_refl e.fingerprint,
          same_refl e.symbol,
        ) in
        step-line b b' core r parsed accepted (omega (arith, hl, length-set_id ref id b.entries))
