-- ===== src/Broker/Alpaca/Tests.antt =====
-- The plugin at orders of fixed-point numbers.
use Prim.Native.Nat.{ℕ, ◌≤◌}
use ailee_finance_unified_ru.Prelude.{◌≡◌, refl, true, false, Option, none, some, [], ◌∷◌, ◌⊎◌}
use ailee_finance_unified_ru.Prelude.Int.{pos, ◌+ℤ◌}
use ailee_finance_unified_ru.Prelude.Bytes.{Bytes, codes, same, less}
use ailee_finance_unified_ru.Float.Fixed.{Fixed, fixed_float, Fixed-IsIeee, fixed_widening}
use ailee_finance_unified_ru.Broker.Journal.{
  IntentJournal, Disk, reserve, acknowledge, append, write_all, hex, intent_digest, core_of,
  find_entry, emplace, set_id, contains_symbol, reserved_from, lookup, has_pending,
}
use ailee_finance_unified_ru.Broker.Journal.Replay.{open_journal}
use ailee_finance_unified_ru.Broker.Sample.{
  some_hash, some_codec, some-IsCodec, fresh, fresh-IsWritten,
}
use ailee_finance_unified_ru.Execution.{OrderSide, OrderRequest}
use ailee_finance_unified_ru.Broker.Json.Text.{ws, take, need, round, rounds, text}
use ailee_finance_unified_ru.Broker.Json.{
  find_member, emplace_member, members, fields, value, object, parse,
}
use ailee_finance_unified_ru.Broker.Alpaca.Checks.{
  Answer, all_of, has_dots, token, has_lower, is_credential, id_in, acknowledged_id, confirmed_id,
}
use ailee_finance_unified_ru.Broker.Alpaca.{
  AlpacaConfig, AlpacaExecution, Surroundings, FloatText, body_of, is_malformed, is_beyond,
  fingerprint_of, send, reserve_and_send, place, submit_order,
}
use ailee_finance_unified_ru.Broker.Alpaca.Account.{remove, cancel_order}
use ailee_finance_unified_ru.Broker.Alpaca.Once.{IsPosted, posts, submit_order-IsPosted, posts_once}
use ailee_finance_unified_ru.Broker.Alpaca.Sound.{IsHash, IsCalm}
use ailee_finance_unified_ru.Broker.Alpaca.Kept.{after, after-reopens}
use ailee_finance_unified_ru.Broker.Alpaca.Settled.{IsConfirmed, IsShut, submit_order-settled}
use ailee_finance_unified_ru.Broker.Alpaca.Destination.{
  to_lower, trim_slash, port_of, host_of, scheme_of, match_origin, validate_destination,
  origin_text,
}
use ailee_finance_unified_ru.Broker.Alpaca.Start.{IsCleared, keep_opened, start, start-IsCleared}

instance abbrev some_text : FloatText Fixed
some_text = record { float_text = λ (a : Fixed). codes "0.5"; count_text = λ (n : ℕ). codes "443" }

some-IsHash : IsHash
some-IsHash = record { size = λ (s : Bytes). refl }

abbrev config : AlpacaConfig Fixed
config = record {
  api_key_id = codes "KEY";
  secret_key = codes "SECRET";
  base_url = codes "https://Paper-API.alpaca.markets/";
  is_live = false;
  mock_mode = false;
  max_position_usd = some (pos 500_000);
  max_daily_drawdown = some (pos 500);
  intent_journal_path = codes "intents";
  live_authorized = false;
}

abbrev order : OrderRequest Fixed
order = record {
  symbol = "BTC";
  side = OrderSide.buy;
  quantity = some (pos 5_000);
  limit_price = some (pos 4);
  client_ref = "A1";
  timestamp_ns = 7;
}

abbrev plugin : AlpacaExecution Fixed Fixed
plugin = record {
  config = config;
  is_enabled = true;
  locked_out = false;
  lockout_reason = none;
  order_counter = 1;
  journal = some fresh;
  broker_origin = codes "https://paper-api.alpaca.markets:443";
}

abbrev world : Surroundings
world = record {
  at_reserve = Disk.stored;
  at_acknowledge = Disk.stored;
  answer = λ (body : Bytes). some (record { status = 200; body = codes "{\"id\":\"7f\"}" });
}

started-run : start config (some fresh) ≡ plugin
unfolding start keep_opened validate_destination match_origin scheme_of host_of port_of trim_slash
    to_lower origin_text is_credential all_of has_pending
started-run = refl

start-IsCleared_example : IsCleared config (start config (some fresh))
unfolding start keep_opened validate_destination match_origin scheme_of host_of port_of trim_slash
    to_lower origin_text is_credential all_of has_pending
start-IsCleared_example = start-IsCleared config (some fresh) refl refl

sent-run :
    (submit_order world plugin order).1 ≡ record { reply = codes "7f"; posted = body_of order ∷ [] }
unfolding submit_order place lookup reserve_and_send send is_malformed token all_of has_dots
    has_lower is_beyond find_entry contains_symbol reserved_from reserve append write_all
    acknowledge emplace set_id same less confirmed_id acknowledged_id id_in find_member
    emplace_member parse object value fields members text rounds round need take ws ◌+ℤ◌ core_of
    fingerprint_of intent_digest hex
sent-run = refl

submit_order-IsPosted_example : IsPosted plugin order (submit_order world plugin order).1.posted
submit_order-IsPosted_example = submit_order-IsPosted world plugin order (rw sent-run refl)

posts_once_example :
    ((posts (codes "A1") (codes "BTC") plugin ((world, order) ∷ (world, order) ∷ [])).0 ≤ 1)
    × ((posts (codes "A1") (codes "BTC") plugin ((world, order) ∷ (world, order) ∷ [])).1 ≤ 1)
posts_once_example =
    posts_once (codes "A1") (codes "BTC") plugin ((world, order) ∷ (world, order) ∷ [])

calm : IsCalm Fixed world order
unfolding confirmed_id acknowledged_id id_in find_member emplace_member parse object value fields
    members text rounds round need take ws token all_of has_dots same
calm = record { stored_first = refl; stored_then = refl; lasting = refl; named = refl }

after-reopens_example :
    (k : IntentJournal Fixed) × ((after plugin ((world, order) ∷ [])).journal ≡ some k)
    × (open_journal Disk.stored k.file ≡ some k)
after-reopens_example =
    after-reopens some-IsHash Fixed-IsIeee some-IsCodec Disk.stored plugin fresh
      ((world, order) ∷ []) refl fresh-IsWritten (calm, tt)

submit_order-settled_example :
    IsConfirmed world order (submit_order world plugin order).0 (submit_order world plugin order).1
    ⊎ IsShut
        ((world, order) ∷ [])
        (codes "A1")
        (codes "BTC")
        (submit_order world plugin order).0
        (submit_order world plugin order).1
submit_order-settled_example =
    submit_order-settled world plugin order ((world, order) ∷ []) (codes "A1") (codes "BTC")
      (rw sent-run refl)

abbrev network : Bytes → Option Answer
network path = some (record { status = 204; body = [] })

cancelled-run : cancel_order network plugin (codes "7f") ≡ (true, codes "/v2/orders/7f" ∷ [])
unfolding cancel_order remove token all_of has_dots
cancelled-run = refl
