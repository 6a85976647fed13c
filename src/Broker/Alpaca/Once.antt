-- ===== src/Broker/Alpaca/Once.antt =====
-- What is posted to the broker, and how often.
use Prim.Native.Nat.{ℕ, ◌+◌, ◌≤◌}
use ailee_finance_unified_ru.Prelude.{
  ◌≡◌, refl, Bool, true, false, none, some, List, [], ◌∷◌, arith, ◌||◌, ◌&&◌, not, if◌then◌else◌,
  Option-cases, Bool-cases, inl, inr,
}
use ailee_finance_unified_ru.Prelude.Bytes.{Bytes, codes, same, same_eq, is_empty}
use ailee_finance_unified_ru.Float.{Float, Widening, nought}
use ailee_finance_unified_ru.Execution.{OrderRequest, OrderSide}
use ailee_finance_unified_ru.Broker.Journal.{
  Codec, Hash, IntentJournal, find_entry, contains_symbol, lookup, reserve,
}
use ailee_finance_unified_ru.Broker.Journal.Kept.{has_entry, acknowledge-kept, reserve-kept}
use ailee_finance_unified_ru.Broker.Alpaca.Checks.{confirmed_id}
use ailee_finance_unified_ru.Broker.Alpaca.{
  AlpacaExecution, Surroundings, FloatText, trigger_lockout, is_malformed, notional_of, is_beyond,
  fingerprint_of, body_of, send, reserve_and_send, place, submit_order,
}

module _ {F D : Type 0} where
  unfoldable pub knows : Bytes → Bytes → AlpacaExecution F D → Bool × Bool
  knows ref symbol a = elim a.journal [
    | none ↦ (false, false)
    | some j ↦ (has_entry ref j.book.entries, contains_symbol symbol j.book.entries)
  ]

  fresh_ref :
      (a : AlpacaExecution F D) (key ref name symbol : Bytes)
      → knows key name a ≡ (false, false)
      → (same key ref && (knows ref symbol a).0) ≡ false
  unfolding knows
  fresh_ref a key ref name symbol h = elim (Bool-cases (same key ref)) [
    | inl e ↦ let shown : key ≡ ref = same_eq key ref e in ground (arith, rw shown at h)
    | inr e ↦ rw e refl
  ]

  fresh_symbol :
      (a : AlpacaExecution F D) (key ref name symbol : Bytes)
      → knows key name a ≡ (false, false)
      → (same name symbol && (knows ref symbol a).1) ≡ false
  unfolding knows
  fresh_symbol a key ref name symbol h = elim (Bool-cases (same name symbol)) [
    | inl e ↦ let shown : name ≡ symbol = same_eq name symbol e in ground (arith, rw shown at h)
    | inr e ↦ rw e refl
  ]

module _ {F D : Type 0} ⦃f : Float F⦄ ⦃d : Float D⦄ ⦃w : Widening F D⦄ ⦃hash : Hash⦄
    ⦃codec : Codec D⦄ ⦃t : FloatText F⦄ where
  -- What held of a request whose body was posted.
  pub record IsPosted (a : AlpacaExecution F D) (r : OrderRequest F) (posted : List Bytes)
      : Type 0 where
    pub alone : posted ≡ body_of r ∷ []
    pub enabled : a.is_enabled ≡ true
    pub unlocked : a.locked_out ≡ false
    pub real : a.config.mock_mode ≡ false
    pub well_formed : is_malformed r ≡ false
    pub bought : r.side ≡ OrderSide.buy
    pub limited : f.le r.limit_price nought ≡ false
    pub within : is_beyond {D = D} a.config (notional_of r) ≡ false
    pub unknown : knows (codes r.client_ref) (codes r.symbol) a ≡ (false, false)
    pub journaled : (j : IntentJournal D) × (a.journal ≡ some j)

  send-known :
      (env : Surroundings) (a : AlpacaExecution F D) (j : IntentJournal D) (r : OrderRequest F)
      (ref symbol : Bytes)
      → knows ref symbol (send env a j r).0
        ≡ (has_entry ref j.book.entries, contains_symbol symbol j.book.entries)
  unfolding send knows trigger_lockout
  send-known env a j r ref symbol =
      let id : Bytes = confirmed_id (env.answer (body_of r)) in
      ground (
        arith,
        acknowledge-kept env.at_acknowledge j (codes r.client_ref) (fingerprint_of a r) id ref
            symbol,
      )

  send-posted :
      (env : Surroundings) (a : AlpacaExecution F D) (j : IntentJournal D) (r : OrderRequest F)
      → (send env a j r).1.posted ≡ body_of r ∷ []
  unfolding send
  send-posted env a j r = ground arith

  reserve_and_send-known :
      (env : Surroundings) (a : AlpacaExecution F D) (j : IntentJournal D) (r : OrderRequest F)
      (ref symbol : Bytes)
      → a.journal ≡ some j
      → find_entry (codes r.client_ref) j.book.entries ≡ none
      → let (a', sub) = reserve_and_send env a j r in
        knows ref symbol a' ≡ (
          not (is_empty sub.posted) && same (codes r.client_ref) ref
              || has_entry ref j.book.entries,
          not (is_empty sub.posted) && same (codes r.symbol) symbol
              || contains_symbol symbol j.book.entries,
        )
  unfolding reserve_and_send trigger_lockout knows
  reserve_and_send-known env a j r ref symbol h n =
      let print : Bytes = fingerprint_of a r in
      let key : Bytes = codes r.client_ref in
      let name : Bytes = codes r.symbol in
      let j' : IntentJournal D = (reserve env.at_reserve j key print name (notional_of r)).0 in
      ground (
        arith,
        reserve-kept env.at_reserve j key print name (notional_of r) ref symbol,
        send-known env a j' r ref symbol,
        send-posted env a j' r,
      )

  submit_order-known :
      (env : Surroundings) (a : AlpacaExecution F D) (r : OrderRequest F) (ref symbol : Bytes)
      → let (a', sub) = submit_order env a r in
        let posted = not (is_empty sub.posted) in
        knows ref symbol a' ≡ (
          posted && same (codes r.client_ref) ref || (knows ref symbol a).0,
          posted && same (codes r.symbol) symbol || (knows ref symbol a).1,
        )
  unfolding submit_order place lookup knows trigger_lockout
  submit_order-known env a r ref symbol = elim (Option-cases a.journal) [
    | inl e ↦ ground arith
    | inr (j, e) ↦ ground (arith, reserve_and_send-known env a j r ref symbol e)
  ]

  -- When a body is posted it is the one body of this request, and the plugin was enabled, not
  -- locked out and not in mock mode, the request well formed, a buy with a positive limit
  -- whose notional is in the cap, a journal was open and neither the reference nor the symbol
  -- stood in it.
  pub submit_order-IsPosted :
      (env : Surroundings) (a : AlpacaExecution F D) (r : OrderRequest F)
      → is_empty (submit_order env a r).1.posted ≡ false
      → IsPosted a r (submit_order env a r).1.posted
  unfolding submit_order place reserve_and_send lookup knows has_entry
  submit_order-IsPosted env a r h = elim (Option-cases a.journal) [
    | inl e ↦ ground arith
    | inr (j, e) ↦
        let j' : IntentJournal D =
          (reserve env.at_reserve j (codes r.client_ref) (fingerprint_of a r) (codes r.symbol)
            (notional_of r)).0 in
        ground (arith, send-posted env a j' r)
  ]

  -- A reference or a symbol that stands in the journal is not posted again.
  submit_order-fresh :
      (env : Surroundings) (a : AlpacaExecution F D) (r : OrderRequest F) (ref symbol : Bytes)
      → let posted = not (is_empty (submit_order env a r).1.posted) in
        ((posted && same (codes r.client_ref) ref && (knows ref symbol a).0) ≡ false)
        × ((posted && same (codes r.symbol) symbol && (knows ref symbol a).1) ≡ false)
  submit_order-fresh env a r ref symbol =
      elim (Bool-cases (is_empty (submit_order env a r).1.posted)) [
        | inl e ↦ rw e (refl, refl)
        | inr e ↦
            let p : IsPosted a r (submit_order env a r).1.posted =
              submit_order-IsPosted env a r e in
            rw e (
              fresh_ref a (codes r.client_ref) ref (codes r.symbol) symbol p.unknown,
              fresh_symbol a (codes r.client_ref) ref (codes r.symbol) symbol p.unknown,
            )
      ]

  -- How many bodies a sequence of calls posts for a reference, and for a symbol.
  unfoldable pub posts :
      Bytes → Bytes → AlpacaExecution F D → List (Surroundings × OrderRequest F) → ℕ × ℕ
  posts ref symbol a [] = (0, 0)
  posts ref symbol a ((env, r) ∷ calls) =
      let (a', sub) = submit_order env a r in
      let (refs, symbols) = posts ref symbol a' calls in
      let posted = not (is_empty sub.posted) in
      (
        (if posted && same (codes r.client_ref) ref then 1 else 0) + refs,
        (if posted && same (codes r.symbol) symbol then 1 else 0) + symbols,
      )

  posts_left :
      (ref symbol : Bytes) (a : AlpacaExecution F D) (calls : List (Surroundings × OrderRequest F))
      → ((posts ref symbol a calls).0 ≤ (if (knows ref symbol a).0 then 0 else 1))
        × ((posts ref symbol a calls).1 ≤ (if (knows ref symbol a).1 then 0 else 1))
  unfolding posts
  posts_left ref symbol a [] = ground arith
  posts_left ref symbol a ((env, r) ∷ calls) =
      let a' : AlpacaExecution F D = (submit_order env a r).0 in
      ground (
        arith,
        posts_left ref symbol a' calls,
        submit_order-known env a r ref symbol,
        submit_order-fresh env a r ref symbol,
      )

  -- Along any sequence of calls, whatever the disk and the broker do in each, at most one body
  -- is posted for a client reference and at most one for a symbol.
  pub posts_once :
      (ref symbol : Bytes) (a : AlpacaExecution F D) (calls : List (Surroundings × OrderRequest F))
      → ((posts ref symbol a calls).0 ≤ 1) × ((posts ref symbol a calls).1 ≤ 1)
  posts_once ref symbol a calls = ground (arith, posts_left ref symbol a calls)
