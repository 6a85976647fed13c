-- ===== src/Broker/Alpaca/Kept.antt =====
-- The plugin's reservations, as the next process reads them.
use ailee_finance_unified_ru.Prelude.{
  ◌≡◌, refl, Bool, true, false, none, some, List, [], ◌∷◌, ◌++◌, arith, ◌||◌, not, Option-cases,
  Bool-cases, inl, inr,
}
use ailee_finance_unified_ru.Prelude.Bytes.{Bytes, codes, same, same_refl, is_empty}
use ailee_finance_unified_ru.Float.{Float, IsIeee, Widening, nought}
use ailee_finance_unified_ru.Execution.{OrderRequest}
use ailee_finance_unified_ru.Broker.Journal.{
  Codec, Hash, IntentJournal, Disk, find_entry, lookup, reserve, acknowledge, contains_symbol,
  reserved, newline,
}
use ailee_finance_unified_ru.Broker.Journal.Replay.{open_journal}
use ailee_finance_unified_ru.Broker.Journal.Lines.{IsCodec}
use ailee_finance_unified_ru.Broker.Journal.Replayed.{find_entry-emplace}
use ailee_finance_unified_ru.Broker.Journal.Durable.{durable-opens}
use ailee_finance_unified_ru.Broker.Journal.Written.{IsWritten, IsOrder, IsId, IsWritten-IsDurable}
use ailee_finance_unified_ru.Broker.Journal.Kept.{reserve-entries, pending}
use ailee_finance_unified_ru.Broker.Alpaca.Checks.{confirmed_id}
use ailee_finance_unified_ru.Broker.Alpaca.{
  AlpacaExecution, Surroundings, FloatText, trigger_lockout, is_malformed, notional_of, is_beyond,
  fingerprint_of, body_of, send, reserve_and_send, place, submit_order, is_buy,
}
use ailee_finance_unified_ru.Broker.Alpaca.Sound.{
  IsHash, IsCalm, AllCalm, token-IsField, confirmed_token, digest-fits, acknowledge-IsWritten,
  reserve-IsWritten,
}

module _ {F D : Type 0} ⦃f : Float F⦄ ⦃d : Float D⦄ ⦃w : Widening F D⦄ ⦃hash : Hash⦄
    ⦃codec : Codec D⦄ ⦃t : FloatText F⦄ where
  abbrev pub Kept : AlpacaExecution F D → Type 0
  Kept a = (j : IntentJournal D) × (a.journal ≡ some j) × IsWritten j

  -- The plugin after a sequence of calls.
  unfoldable pub after :
      AlpacaExecution F D → List (Surroundings × OrderRequest F) → AlpacaExecution F D
  after a [] = a
  after a ((env, r) ∷ calls) = after (submit_order env a r).0 calls

  module _ (sized : IsHash) where
    malformed-IsOrder :
        (a : AlpacaExecution F D) (r : OrderRequest F)
        → is_malformed r ≡ false
        → is_beyond {D = D} a.config (notional_of r) ≡ false
        → is_empty (codes r.client_ref) ≡ false
        → d.le (notional_of {D = D} r) nought ≡ false
        → IsOrder (codes r.client_ref) (fingerprint_of a r) (codes r.symbol) (notional_of {D = D} r)
    unfolding is_malformed is_beyond fingerprint_of
    malformed-IsOrder a r h b c p =
        let text : Bytes =
          a.broker_origin ++ (newline ∷ a.config.api_key_id ++ (newline ∷ body_of r)) in
        let (print_tab, print_newline, print_size) = digest-fits sized text in
        record {
          ref_ok = token-IsField 48 (codes r.client_ref) (ground arith);
          print_tab = print_tab;
          print_newline = print_newline;
          print_size = print_size;
          symbol_ok = token-IsField 32 (codes r.symbol) (ground arith);
          finite = ground arith;
          positive = p;
        }

    send-Kept :
        (env : Surroundings) (a : AlpacaExecution F D) (j : IntentJournal D) (r : OrderRequest F)
        → IsCalm D env r
        → IsWritten j
        → IsOrder (codes r.client_ref) (fingerprint_of a r) (codes r.symbol) (notional_of {D = D} r)
        → find_entry (codes r.client_ref) j.book.entries
          ≡ some (pending (fingerprint_of a r) (codes r.symbol) (notional_of r))
        → Kept (send env a j r).0
    unfolding send trigger_lockout
    send-Kept env a j r c h o e =
        let key : Bytes = codes r.client_ref in
        let print : Bytes = fingerprint_of a r in
        let id : Bytes = confirmed_id (env.answer (body_of r)) in
        elim (Bool-cases (is_empty id)) [
          | inl n ↦ rw n (j, refl, h)
          | inr n ↦
              let id_ok : IsId id = record {
                id_ok = token-IsField 128 id (confirmed_token (env.answer (body_of r)) n);
                no_dash = c.named;
              } in
              let k : IntentJournal D = (acknowledge Disk.stored j key print id).0 in
              let h' : IsWritten k =
                acknowledge-IsWritten j key id (pending print (codes r.symbol) (notional_of r)) h o
                  id_ok refl e in
              (k, rw (c.stored_then, n) (ground arith), h')
        ]

    reserve_and_send-Kept :
        (env : Surroundings) (a : AlpacaExecution F D) (j : IntentJournal D) (r : OrderRequest F)
        → IsCalm D env r
        → a.journal ≡ some j
        → IsWritten j
        → IsOrder (codes r.client_ref) (fingerprint_of a r) (codes r.symbol) (notional_of {D = D} r)
        → find_entry (codes r.client_ref) j.book.entries ≡ none
        → Kept (reserve_and_send env a j r).0
    unfolding reserve_and_send trigger_lockout
    reserve_and_send-Kept env a j r c p h o n =
        let key : Bytes = codes r.client_ref in
        let print : Bytes = fingerprint_of a r in
        let name : Bytes = codes r.symbol in
        let notional : D = notional_of r in
        let k : IntentJournal D = (reserve env.at_reserve j key print name notional).0 in
        let h' : IsWritten k =
          reserve-IsWritten env.at_reserve j key print name notional c.stored_first h o n in
        elim (Bool-cases (contains_symbol name j.book.entries)) [
          | inl e ↦ rw e (j, p, h)
          | inr e ↦
              elim (Bool-cases (
                d.lt (w.widen a.config.max_position_usd)
                  (d.add (reserved name j.book.entries) notional))) [
                    | inl e' ↦ rw (e, e') (j, p, h)
                    | inr e' ↦
                        elim (Option-cases (reserve env.at_reserve j key print name notional).1) [
                          | inl m ↦
                              let found : find_entry key k.book.entries
                                  ≡ some (pending print name notional) =
                                ground (
                                  arith,
                                  reserve-entries env.at_reserve j key print name notional,
                                  find_entry-emplace key key (pending print name notional)
                                      j.book.entries,
                                  same_refl key,
                                ) in
                              rw (e, e', m) (send-Kept env a k r c h' o found)
                          | inr (x, m) ↦ rw (e, e', m) (k, refl, h')
                        ]
                  ]
        ]

    place-Kept :
        (env : Surroundings) (a : AlpacaExecution F D) (j : IntentJournal D) (r : OrderRequest F)
        → IsCalm D env r
        → a.journal ≡ some j
        → IsWritten j
        → IsOrder (codes r.client_ref) (fingerprint_of a r) (codes r.symbol) (notional_of {D = D} r)
        → Kept (place env a j r).0
    unfolding lookup trigger_lockout place
    place-Kept env a j r c p h o =
        elim (Option-cases (find_entry (codes r.client_ref) j.book.entries)) [
          | inl n ↦ rw (n, place) (reserve_and_send-Kept env a j r c p h o n)
          | inr (x, n) ↦ elim (Bool-cases (same x.fingerprint (fingerprint_of a r))) [
            | inl m ↦ rw (n, m, place) (j, p, h)
            | inr m ↦ rw (n, m, place) (j, p, h)
          ]
        ]

    -- The guards before the journal is asked.
    abbrev is_stopped : AlpacaExecution F D → OrderRequest F → Bool
    is_stopped a r =
        not a.is_enabled
        || a.locked_out
        || is_malformed r
        || is_beyond {D = D} a.config (notional_of r)
        || a.config.mock_mode
        || not (is_buy r.side)
        || f.le r.limit_price nought
        || is_empty (codes r.client_ref)

    submit_order-stopped :
        (env : Surroundings) (a : AlpacaExecution F D) (r : OrderRequest F)
        → is_stopped a r ≡ true
        → (submit_order env a r).0.journal ≡ a.journal
    unfolding submit_order
    submit_order-stopped env a r h = ground arith

    submit_order-placed :
        (env : Surroundings) (a : AlpacaExecution F D) (j : IntentJournal D) (r : OrderRequest F)
        → is_stopped a r ≡ false
        → a.journal ≡ some j
        → submit_order env a r ≡ place env a j r
    unfolding submit_order
    submit_order-placed env a j r h p = ground arith

    submit_order-Kept :
        (env : Surroundings) (a : AlpacaExecution F D) (r : OrderRequest F)
        → IsCalm D env r
        → Kept a
        → Kept (submit_order env a r).0
    submit_order-Kept env a r c (j, p, h) = elim (Bool-cases (is_stopped a r)) [
      | inl s ↦ rw (submit_order-stopped env a r s) (j, p, h)
      | inr s ↦
          let o : IsOrder (codes r.client_ref) (fingerprint_of a r) (codes r.symbol)
              (notional_of {D = D} r) =
            malformed-IsOrder a r (ground arith) (ground arith) (ground arith) c.lasting in
          rw (submit_order-placed env a j r s p) (place-Kept env a j r c p h o)
    ]

    after-Kept :
        (a : AlpacaExecution F D) (calls : List (Surroundings × OrderRequest F))
        → AllCalm D calls
        → Kept a
        → Kept (after a calls)
    unfolding after
    after-Kept a [] c h = h
    after-Kept a ((env, r) ∷ calls) (c, cs) h =
        after-Kept (submit_order env a r).0 calls cs (submit_order-Kept env a r c h)

    module _ (ieee : IsIeee D) (laws : IsCodec D) where
      -- After any sequence of calls whose writes are stored, whose notionals are positive and
      -- whose answers name no `-`, from a written journal, the file that the plugin leaves is
      -- read by the next process as exactly the journal that the plugin holds.
      pub after-reopens :
          (disk : Disk) (a : AlpacaExecution F D) (j : IntentJournal D)
          (calls : List (Surroundings × OrderRequest F))
          → a.journal ≡ some j
          → IsWritten j
          → AllCalm D calls
          → (k : IntentJournal D) × ((after a calls).journal ≡ some k)
            × (open_journal disk k.file ≡ some k)
      after-reopens disk a j calls p h c =
          let (k, q, h') = after-Kept a calls c (j, p, h) in
          (k, q, durable-opens disk k (IsWritten-IsDurable ieee laws k h'))
