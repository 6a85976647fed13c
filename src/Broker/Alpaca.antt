-- ===== src/Broker/Alpaca.antt =====
-- The execution plugin for one broker, plugins/execution/alpaca/AlpacaExecution.cpp, over one store
-- of reservations. What the network and the disk do in a call is given to it.
pub mod Checks
pub mod Once
pub mod Sound
pub mod Kept
pub mod Settled
pub mod Destination
pub mod Start
pub mod Account
mod Tests
use Prim.Native.String.{String}
use Prim.Native.Nat.{ℕ, suc, ◌+◌, ◌%◌, ◌^◌}
use ailee_finance_unified_ru.Prelude.{
  Bool, true, false, not, ◌&&◌, ◌||◌, Option, none, some, List, [], ◌∷◌, ◌++◌, if◌then◌else◌, ltb,
  leb, length, ◌==◌,
}
use ailee_finance_unified_ru.Prelude.Bytes.{Bytes, codes, is_empty, same}
use ailee_finance_unified_ru.Float.{Float, Widening, nought, one}
use ailee_finance_unified_ru.Execution.{OrderSide, OrderRequest}
use ailee_finance_unified_ru.Broker.Journal.{
  IntentJournal, Codec, Hash, Disk, Fault, Lookup, intent_digest, lookup, contains_symbol, reserved,
  has_pending, reserve, acknowledge, newline,
}
use ailee_finance_unified_ru.Broker.Alpaca.Checks.{
  token, confirmed_id, has_lower, is_credential, Answer,
}

pub record AlpacaConfig (F : Type 0) : Type 0 where
  pub api_key_id : Bytes
  pub secret_key : Bytes
  pub base_url : Bytes
  pub is_live : Bool
  pub mock_mode : Bool
  pub max_position_usd : F
  pub max_daily_drawdown : F
  pub intent_journal_path : Bytes
  pub live_authorized : Bool

-- Why the plugin locked itself; a reason by hand is `operator`.
pub data Lockout : Type 0 where
  pending_intent unconfirmed reused_ref operator : Lockout
  journal_fault : Fault → Lockout

pub record AlpacaExecution (F D : Type 0) : Type 0 where
  pub config : AlpacaConfig F
  pub is_enabled : Bool
  pub locked_out : Bool
  pub lockout_reason : Option Lockout
  pub order_counter : ℕ
  pub journal : Option (IntentJournal D)
  pub broker_origin : Bytes

-- What a call meets: the disk at its two writes, and what `Post` gives for a body.
pub record Surroundings : Type 0 where
  pub at_reserve : Disk
  pub at_acknowledge : Disk
  pub answer : Bytes → Option Answer

-- The reply, and the bodies that were posted.
pub record Submission : Type 0 where
  pub reply : Bytes
  pub posted : List Bytes

-- The text of a `float` with nine digits.
pub record FloatText (F : Type 0) : Type 0 where
  pub float_text : F → Bytes
  pub count_text : ℕ → Bytes

abbrev pub refused : Submission
refused = record { reply = []; posted = [] }

abbrev pub silent : Bytes → Submission
silent id = record { reply = id; posted = [] }

module _ {F D : Type 0} where
  unfoldable pub trigger_lockout : Lockout → AlpacaExecution F D → AlpacaExecution F D
  trigger_lockout reason a = record a { locked_out = true; lockout_reason = some reason }

  unfoldable pub can_submit : AlpacaExecution F D → Bool
  can_submit a =
      a.is_enabled
      && not a.locked_out
      && (a.config.mock_mode || elim a.journal [ none ↦ false | some _ ↦ true ])

  abbrev keep_journal : IntentJournal D → AlpacaExecution F D → AlpacaExecution F D
  keep_journal j a = record a { journal = some j }

unfoldable pub side_to_string : OrderSide → Bytes
side_to_string OrderSide.buy = codes "buy"
side_to_string OrderSide.sell = codes "sell"
side_to_string OrderSide.flat = codes "flat"

module _ {F : Type 0} ⦃t : FloatText F⦄ where
  unfoldable pub body_of : OrderRequest F → Bytes
  body_of r =
      codes "{\"symbol\":\""
      ++ codes r.symbol
      ++ codes "\",\"qty\":"
      ++ t.float_text r.quantity
      ++ codes ",\"side\":\""
      ++ side_to_string r.side
      ++ codes "\",\"type\":\"limit\",\"limit_price\":"
      ++ t.float_text r.limit_price
      ++ codes ",\"time_in_force\":\"day\",\"client_order_id\":\""
      ++ codes r.client_ref
      ++ codes "\"}"

abbrev is_directed : OrderSide → Bool
is_directed OrderSide.flat = false
is_directed _ = true

abbrev pub is_buy : OrderSide → Bool
is_buy OrderSide.buy = true
is_buy _ = false

module _ {F : Type 0} ⦃f : Float F⦄ where
  -- The guards that every order passes.
  unfoldable pub is_malformed : OrderRequest F → Bool
  is_malformed r =
      not (token 32 (codes r.symbol))
      || has_lower (codes r.symbol)
      || not (f.is_finite r.quantity)
      || f.le r.quantity nought
      || not (f.is_finite r.limit_price)
      || f.lt r.limit_price nought
      || not (is_directed r.side)
      || (not (is_empty (codes r.client_ref)) && not (token 48 (codes r.client_ref)))

module _ {F D : Type 0} ⦃f : Float F⦄ ⦃d : Float D⦄ ⦃w : Widening F D⦄ where
  abbrev pub notional_of : OrderRequest F → D
  notional_of r = d.mul (w.widen r.quantity) (w.widen r.limit_price)

  unfoldable pub is_beyond : AlpacaConfig F → D → Bool
  is_beyond c notional = not (d.is_finite notional) || d.lt (w.widen c.max_position_usd) notional

module _ {F D : Type 0} ⦃f : Float F⦄ ⦃d : Float D⦄ ⦃w : Widening F D⦄ ⦃hash : Hash⦄
    ⦃codec : Codec D⦄ ⦃t : FloatText F⦄ where
  unfoldable pub fingerprint_of : AlpacaExecution F D → OrderRequest F → Bytes
  fingerprint_of a r =
      intent_digest (a.broker_origin ++ (newline ∷ a.config.api_key_id ++ (newline ∷ body_of r)))

  -- After the reservation: the post, and the acknowledgment of its identifier.
  unfoldable pub send :
      Surroundings
      → AlpacaExecution F D
      → IntentJournal D
      → OrderRequest F
      → AlpacaExecution F D × Submission
  send env a j r =
      let body = body_of r in
      let id = confirmed_id (env.answer body) in
      if is_empty id
      then (
        trigger_lockout Lockout.unconfirmed (keep_journal j a),
        record { reply = []; posted = body ∷ [] },
      )
      else let (j', fault) =
          acknowledge env.at_acknowledge j (codes r.client_ref) (fingerprint_of a r) id in
        elim fault [
          | none ↦ (keep_journal j' a, record { reply = id; posted = body ∷ [] })
          | some e ↦ (
            trigger_lockout (Lockout.journal_fault e) (keep_journal j' a),
            record { reply = []; posted = body ∷ [] },
          )
        ]

  unfoldable pub reserve_and_send :
      Surroundings
      → AlpacaExecution F D
      → IntentJournal D
      → OrderRequest F
      → AlpacaExecution F D × Submission
  reserve_and_send env a j r =
      let notional : D = notional_of r in
      if contains_symbol (codes r.symbol) j.book.entries
      then (a, refused)
      else if d.lt (w.widen a.config.max_position_usd)
          (d.add (reserved (codes r.symbol) j.book.entries) notional)
      then (a, refused)
      else let (j', fault) =
          reserve env.at_reserve j (codes r.client_ref) (fingerprint_of a r) (codes r.symbol)
            notional in
        elim fault [
          | none ↦ send env a j' r
          | some e ↦ (trigger_lockout (Lockout.journal_fault e) (keep_journal j' a), refused)
        ]

  unfoldable pub place :
      Surroundings
      → AlpacaExecution F D
      → IntentJournal D
      → OrderRequest F
      → AlpacaExecution F D × Submission
  place env a j r = elim (lookup j (codes r.client_ref) (fingerprint_of a r)) [
    | Lookup.known id ↦ (a, silent id)
    | Lookup.unknown ↦ reserve_and_send env a j r
    | Lookup.clashing ↦ (trigger_lockout Lockout.reused_ref a, refused)
  ]

  unfoldable pub submit_order :
      Surroundings → AlpacaExecution F D → OrderRequest F → AlpacaExecution F D × Submission
  submit_order env a r =
      if not a.is_enabled || a.locked_out
      then (a, refused)
      else if is_malformed r || is_beyond {D = D} a.config (notional_of r)
      then (a, refused)
      else if a.config.mock_mode
      then (
        record a { order_counter = (a.order_counter + 1) % 2 ^ 64 },
        silent (codes "MOCK-ALPACA-" ++ t.count_text a.order_counter),
      )
      else if not (is_buy r.side) || f.le r.limit_price nought || is_empty (codes r.client_ref)
      then (a, refused)
      else elim a.journal [ none ↦ (a, refused) | some j ↦ place env a j r ]
