-- ===== src/Broker/Alpaca/Account.antt =====
-- Cancellations, closes and the equity, plugins/execution/alpaca/AlpacaExecution.cpp: what a call
-- gives, and the path that it requests.
use Prim.Native.Nat.{ℕ}
use ailee_finance_unified_ru.Prelude.{
  ◌≡◌, Bool, true, false, not, ◌||◌, Option, none, some, List, [], ◌∷◌, ◌++◌, arith, if◌then◌else◌,
  ◌==◌,
}
use ailee_finance_unified_ru.Prelude.Bytes.{Bytes, Lacks, codes, is_empty}
use ailee_finance_unified_ru.Float.{Float, Widening, nought, one, of_nat}
use ailee_finance_unified_ru.Broker.Json.{Kind, find_member, parse}
use ailee_finance_unified_ru.Broker.Journal.{Codec}
use ailee_finance_unified_ru.Broker.Alpaca.Checks.{Answer, token, all_of, has_dots, is_token_byte}
use ailee_finance_unified_ru.Broker.Alpaca.{AlpacaExecution}

abbrev is_done : Option Answer → Bool
is_done none = false
is_done (some r) = r.status == 200 || r.status == 204

token-unslashed : (s : Bytes) → all_of is_token_byte s ≡ true → Lacks b'/' s
unfolding all_of
token-unslashed [] h = tt
token-unslashed (c ∷ s) h = (ground arith, token-unslashed s (ground arith))

module _ {F D : Type 0} where
  -- `Delete` of a path, by what the network gives for it.
  unfoldable pub remove :
      (Bytes → Option Answer) → AlpacaExecution F D → Bytes → ℕ → Bytes → Bool × List Bytes
  remove network a endpoint maximum name =
      if not a.is_enabled || not (token maximum name)
      then (false, [])
      else if a.config.mock_mode
      then (true, [])
      else (is_done (network (endpoint ++ name)), (endpoint ++ name) ∷ [])

  unfoldable pub cancel_order :
      (Bytes → Option Answer) → AlpacaExecution F D → Bytes → Bool × List Bytes
  cancel_order network a order_id = remove network a (codes "/v2/orders/") 128 order_id

  unfoldable pub flatten_position :
      (Bytes → Option Answer) → AlpacaExecution F D → Bytes → Bool × List Bytes
  flatten_position network a symbol = remove network a (codes "/v2/positions/") 32 symbol

  -- A request that stays below its endpoint.
  pub record IsScoped (a : AlpacaExecution F D) (endpoint name : Bytes) (sent : List Bytes)
      : Type 0 where
    pub enabled : a.is_enabled ≡ true
    pub real : a.config.mock_mode ≡ false
    pub path : sent ≡ (endpoint ++ name) ∷ []
    pub no_slash : Lacks b'/' name
    pub no_dots : has_dots name ≡ false
    pub filled : is_empty name ≡ false

  remove-IsScoped :
      (network : Bytes → Option Answer) (a : AlpacaExecution F D) (endpoint : Bytes) (maximum : ℕ)
      (name : Bytes)
      → is_empty (remove network a endpoint maximum name).1 ≡ false
      → IsScoped a endpoint name (remove network a endpoint maximum name).1
  unfolding remove token
  remove-IsScoped network a endpoint maximum name h = record {
    enabled = ground arith;
    real = ground arith;
    path = ground arith;
    no_slash = token-unslashed name (ground arith);
    no_dots = ground arith;
    filled = ground arith;
  }

  -- A cancellation that is sent comes of an enabled plugin that is not in mock mode, and its
  -- path is that of the orders followed by a name that is not empty and has no slash and no
  -- two dots in a row.
  pub cancel_order-IsScoped :
      (network : Bytes → Option Answer) (a : AlpacaExecution F D) (name : Bytes)
      → is_empty (cancel_order network a name).1 ≡ false
      → IsScoped a (codes "/v2/orders/") name (cancel_order network a name).1
  unfolding cancel_order
  cancel_order-IsScoped network a name h =
      remove-IsScoped network a (codes "/v2/orders/") 128 name h

module _ {F : Type 0} ⦃f : Float F⦄ where
  abbrev unknown : F
  unknown = f.neg one

module _ {F D : Type 0} ⦃f : Float F⦄ ⦃d : Float D⦄ ⦃w : Widening F D⦄ ⦃codec : Codec D⦄ where
  -- `largest`: the greatest finite `float`, as a `double`.
  unfoldable pub equity_in : D → Bytes → F
  equity_in largest text = elim (codec.read_amount text) [
    | none ↦ unknown
    | some x ↦
        if not (d.is_finite x) || d.lt x nought || d.lt largest x then unknown else w.narrow x
  ]

  unfoldable pub get_account_equity : D → AlpacaExecution F D → Option Answer → F
  get_account_equity largest a answer =
      if not a.is_enabled
      then unknown
      else if a.config.mock_mode
      then of_nat 100_000
      else elim answer [
        | none ↦ unknown
        | some r ↦ if not (r.status == 200) then unknown else elim (parse r.body) [
          | none ↦ unknown
          | some ms ↦ elim (find_member (codes "equity") ms) [
            | none ↦ unknown
            | some v ↦ elim v.kind [ Kind.other ↦ unknown | k ↦ equity_in largest v.value ]
          ]
        ]
      ]
