-- ===== src/Broker/Alpaca/Start.antt =====
-- The plugin's construction: its credentials and the journal of the last process,
-- plugins/execution/alpaca/AlpacaExecution.cpp.
use Prim.Native.Nat.{◌≤◌}
use ailee_finance_unified_ru.Prelude.{
  ◌≡◌, Bool, true, false, not, ◌&&◌, ◌||◌, Option, none, some, [], arith, if◌then◌else◌, ◌⊎◌, inl,
  inr, Option-cases, Bool-cases,
}
use ailee_finance_unified_ru.Prelude.Bytes.{is_empty}
use ailee_finance_unified_ru.Float.{Float, nought, one}
use ailee_finance_unified_ru.Broker.Journal.{IntentJournal, has_pending}
use ailee_finance_unified_ru.Broker.Alpaca.Checks.{is_credential}
use ailee_finance_unified_ru.Broker.Alpaca.{
  AlpacaConfig, AlpacaExecution, FloatText, Lockout, trigger_lockout,
}
use ailee_finance_unified_ru.Broker.Alpaca.Destination.{
  Host, Origin, is_loopback, validate_destination, origin_text, validated, live_host,
}

module _ {F : Type 0} ⦃f : Float F⦄ where
  abbrev is_bad_limit : AlpacaConfig F → Bool
  is_bad_limit c =
      not (f.is_finite c.max_position_usd)
      || f.le c.max_position_usd nought
      || not (f.is_finite c.max_daily_drawdown)
      || f.le c.max_daily_drawdown nought
      || f.lt one c.max_daily_drawdown

module _ {F D : Type 0} ⦃f : Float F⦄ ⦃t : FloatText F⦄ where
  abbrev idle : AlpacaConfig F → AlpacaExecution F D
  idle c = record {
    config = c;
    is_enabled = false;
    locked_out = false;
    lockout_reason = none;
    order_counter = 1;
    journal = none;
    broker_origin = [];
  }

  -- The journal is what its own constructor gives, nothing where that throws.
  unfoldable pub keep_opened : Option (IntentJournal D) → AlpacaExecution F D → AlpacaExecution F D
  keep_opened opened a = elim opened [
    | none ↦ record a { is_enabled = false }
    | some j ↦
        let a' : AlpacaExecution F D = record a { journal = some j } in
        if has_pending j.book.entries then trigger_lockout Lockout.pending_intent a' else a'
  ]

  unfoldable pub start : AlpacaConfig F → Option (IntentJournal D) → AlpacaExecution F D
  start c opened =
      if is_bad_limit c
      then idle c
      else if c.mock_mode
      then record (idle c) { is_enabled = true }
      else elim (validate_destination c) [
        | none ↦ idle c
        | some o ↦
            let a : AlpacaExecution F D = record (idle c) {
              broker_origin = origin_text t.count_text o;
            } in
            if is_credential c.api_key_id && is_credential c.secret_key
            then (let a' : AlpacaExecution F D = record a { is_enabled = true } in
                if is_empty c.intent_journal_path then a' else keep_opened opened a')
            else a
      ]

  -- What a plugin that reaches a broker was given.
  pub record IsCleared (c : AlpacaConfig F) (a : AlpacaExecution F D) : Type 0 where
    pub finite_cap : f.is_finite c.max_position_usd ≡ true
    pub positive_cap : f.le c.max_position_usd nought ≡ false
    pub consent : (c.is_live ≡ false) ⊎ (c.live_authorized ≡ true)
    pub keyed : (is_credential c.api_key_id && is_credential c.secret_key) ≡ true
    pub destination : Origin
    pub named : a.broker_origin ≡ origin_text t.count_text destination
    pub in_range : (1 ≤ destination.port) × (destination.port ≤ 65_535)
    pub reached :
        (is_loopback destination.host ≡ true)
        ⊎ ((destination.secure ≡ true)
            × (destination.port ≡ 443)
            × (destination.host ≡ (if c.is_live then Host.live else Host.paper)))

  -- A plugin that is enabled and not in mock mode has a positive finite cap, usable
  -- credentials, consent where it is live, and an origin that is a loopback host or, over TLS
  -- at port 443, the live host exactly when it is live and the paper host otherwise.
  pub start-IsCleared :
      (c : AlpacaConfig F) (opened : Option (IntentJournal D))
      → (start c opened).is_enabled ≡ true
      → c.mock_mode ≡ false
      → IsCleared c (start c opened)
  unfolding start keep_opened trigger_lockout
  start-IsCleared c opened h m = elim (Option-cases (validate_destination c)) [
    | inl e ↦ ground arith
    | inr (o, e) ↦
        let (agreed, least, most, guarded) = validated c o e in
        record {
          finite_cap = ground arith;
          positive_cap = ground arith;
          consent = elim (Bool-cases c.is_live) [ inl n ↦ inr (ground arith) | inr n ↦ inl n ];
          keyed = ground arith;
          destination = o;
          named = ground arith;
          in_range = (least, most);
          reached = elim (Bool-cases (is_loopback o.host)) [
            | inl n ↦ inl n
            | inr n ↦ inr (ground arith, ground arith, live_host c.is_live o.host n (ground arith))
          ];
        }
  ]

  -- With a journal that it opened, the plugin starts locked out exactly when an entry is pending.
  pub start-locked :
      (c : AlpacaConfig F) (j : IntentJournal D)
      → (start c (some j)).journal ≡ some j
      → (start c (some j)).locked_out ≡ has_pending j.book.entries
  unfolding start keep_opened trigger_lockout
  start-locked c j h = ground arith
