-- ===== src/Broker/Alpaca/Settled.antt =====
-- How a post ends.
use ailee_finance_unified_ru.Prelude.{
  ◌≡◌, refl, true, false, none, some, List, [], ◌∷◌, arith, ◌⊎◌, inl, inr, Option-cases, Bool-cases,
}
use ailee_finance_unified_ru.Prelude.Bytes.{Bytes, codes, is_empty}
use ailee_finance_unified_ru.Float.{Float, Widening}
use ailee_finance_unified_ru.Execution.{OrderRequest}
use ailee_finance_unified_ru.Broker.Journal.{
  Codec, Hash, IntentJournal, lookup, acknowledge, reserve,
}
use ailee_finance_unified_ru.Broker.Alpaca.Checks.{confirmed_id}
use ailee_finance_unified_ru.Broker.Alpaca.{
  AlpacaExecution, Surroundings, Submission, FloatText, notional_of, trigger_lockout,
  fingerprint_of, body_of, send, reserve_and_send, place, submit_order,
}
use ailee_finance_unified_ru.Broker.Alpaca.Once.{posts}

module _ {F D : Type 0} ⦃f : Float F⦄ ⦃d : Float D⦄ ⦃w : Widening F D⦄ ⦃hash : Hash⦄
    ⦃codec : Codec D⦄ ⦃t : FloatText F⦄ where
  -- The broker named the order, and the name is what the caller gets.
  pub record IsConfirmed (env : Surroundings) (r : OrderRequest F) (a : AlpacaExecution F D)
      (s : Submission) : Type 0 where
    pub named : is_empty s.reply ≡ false
    pub answered : s.reply ≡ confirmed_id (env.answer (body_of r))
    pub open_still : a.locked_out ≡ false

  -- Nothing is told, and nothing is posted from then on.
  pub record IsShut (calls : List (Surroundings × OrderRequest F)) (ref symbol : Bytes)
      (a : AlpacaExecution F D) (s : Submission) : Type 0 where
    pub untold : s.reply ≡ []
    pub locked : a.locked_out ≡ true
    pub idle : posts ref symbol a calls ≡ (0, 0)

  locked-idle :
      (ref symbol : Bytes) (a : AlpacaExecution F D) (calls : List (Surroundings × OrderRequest F))
      → a.locked_out ≡ true
      → posts ref symbol a calls ≡ (0, 0)
  unfolding posts submit_order
  locked-idle ref symbol a [] h = refl
  locked-idle ref symbol a ((env, r) ∷ calls) h = ground (arith, locked-idle ref symbol a calls)

  send-settled :
      (env : Surroundings) (a : AlpacaExecution F D) (j : IntentJournal D) (r : OrderRequest F)
      (calls : List (Surroundings × OrderRequest F)) (ref symbol : Bytes)
      → a.locked_out ≡ false
      → let (a', sub) = send env a j r in IsConfirmed env r a' sub ⊎ IsShut calls ref symbol a' sub
  unfolding send trigger_lockout
  send-settled env a j r calls ref symbol h =
      let id : Bytes = confirmed_id (env.answer (body_of r)) in
      elim (Bool-cases (is_empty id)) [
        | inl e ↦ inr (
            rw e
              record { untold = refl; locked = refl; idle = locked-idle ref symbol _ calls refl })
        | inr e ↦
            elim (Option-cases
              (acknowledge env.at_acknowledge j (codes r.client_ref) (fingerprint_of a r) id).1) [
                | inl m ↦ inl (rw (e, m) record { named = e; answered = refl; open_still = h })
                | inr (x, m) ↦ inr (
                    rw (e, m)
                      record {
                        untold = refl;
                        locked = refl;
                        idle = locked-idle ref symbol _ calls refl;
                      })
              ]
      ]

  unjournaled :
      (env : Surroundings) (a : AlpacaExecution F D) (r : OrderRequest F)
      → a.journal ≡ none
      → is_empty (submit_order env a r).1.posted ≡ true
  unfolding submit_order
  unjournaled env a r e = ground arith

  submit_order-sent :
      (env : Surroundings) (a : AlpacaExecution F D) (j : IntentJournal D) (r : OrderRequest F)
      → a.journal ≡ some j
      → is_empty (submit_order env a r).1.posted ≡ false
      → (submit_order env a r
          ≡ send env a
              (reserve env.at_reserve j
                (codes r.client_ref)
                (fingerprint_of a r)
                (codes r.symbol)
                (notional_of r)).0
              r)
        × (a.locked_out ≡ false)
  unfolding submit_order place reserve_and_send lookup
  submit_order-sent env a j r e h = ground arith

  -- A post ends in one of two ways: the caller gets the identifier that the answer confirms
  -- and the plugin stays open, or the caller gets nothing, the plugin is locked out and posts
  -- nothing in any later calls.
  pub submit_order-settled :
      (env : Surroundings) (a : AlpacaExecution F D) (r : OrderRequest F)
      (calls : List (Surroundings × OrderRequest F)) (ref symbol : Bytes)
      → is_empty (submit_order env a r).1.posted ≡ false
      → let (a', sub) = submit_order env a r in
        IsConfirmed env r a' sub ⊎ IsShut calls ref symbol a' sub
  submit_order-settled env a r calls ref symbol h = elim (Option-cases a.journal) [
    | inl e ↦ ground (arith, unjournaled env a r e)
    | inr (j, e) ↦
        let (shown, free) = submit_order-sent env a j r e h in
        rw shown (send-settled env a _ r calls ref symbol free)
  ]
