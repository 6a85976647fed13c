-- ===== src/Broker/Alpaca/Destination.antt =====
-- Where the plugin may send, `validateDestination` of
-- plugins/execution/alpaca/AlpacaExecution.cpp.
use Prim.Native.Nat.{ℕ, suc, zero, ◌+◌, ◌-◌, ◌*◌, ◌≤◌}
use ailee_finance_unified_ru.Prelude.{
  ◌≡◌, Bool, true, false, not, ◌&&◌, ◌||◌, Option, none, some, [], ◌∷◌, ◌++◌, arith, if◌then◌else◌,
  ltb, leb, ◌==◌, map,
}
use ailee_finance_unified_ru.Prelude.Bytes.{Bytes, codes, is_empty}
use ailee_finance_unified_ru.Broker.Json.Text.{prefix?}
use ailee_finance_unified_ru.Broker.Alpaca.{AlpacaConfig}

unfoldable pub to_lower : ℕ → ℕ
to_lower c = if leb b'A' c && leb c b'Z' then c + 32 else c

pub data Host : Type 0 where
  paper live localhost ipv4 ipv6 : Host

abbrev pub host_text : Host → Bytes
host_text Host.paper = codes "paper-api.alpaca.markets"
host_text Host.live = codes "api.alpaca.markets"
host_text Host.localhost = codes "localhost"
host_text Host.ipv4 = codes "127.0.0.1"
host_text Host.ipv6 = codes "[::1]"

pub record Origin : Type 0 where
  pub secure : Bool
  pub host : Host
  pub port : ℕ

abbrev is_digit : ℕ → Bool
is_digit c = leb b'0' c && leb c b'9'

-- One to five digits, `none` at any other byte.
unfoldable pub port_number : ℕ → ℕ → Bytes → Option ℕ
port_number room total [] = some total
port_number zero total (_ ∷ _) = none
port_number (suc room) total (c ∷ s) =
    let rest = port_number room (total * 10 + (c - b'0')) s in if is_digit c then rest else none

-- A slash at the end is no part of the port.
unfoldable pub trim_slash : Bytes → Bytes
trim_slash [] = []
trim_slash (c ∷ []) = if c == b'/' then [] else c ∷ []
trim_slash (c ∷ b ∷ s) = c ∷ trim_slash (b ∷ s)

unfoldable pub port_of : Bool → Bytes → Option ℕ
port_of secure [] = some (if secure then 443 else 80)
port_of secure (c ∷ s) =
    if c == b':' then (if is_empty s then none else port_number 5 0 s) else none

abbrev try_host : Bytes → Host → Option (Host × Bytes) → Option (Host × Bytes)
try_host s h later = elim (prefix? (host_text h) s) [ some r ↦ some (h, r) | none ↦ later ]

unfoldable pub host_of : Bytes → Option (Host × Bytes)
host_of s = try_host s Host.paper (
    try_host s Host.live
      (try_host s Host.localhost (try_host s Host.ipv4 (try_host s Host.ipv6 none))))

unfoldable pub scheme_of : Bytes → Option (Bool × Bytes)
scheme_of s = elim (prefix? (codes "https://") s) [
  | some r ↦ some (true, r)
  | none ↦ elim (prefix? (codes "http://") s) [ some r ↦ some (false, r) | none ↦ none ]
]

-- What the regular expression takes of a URL in lower case.
unfoldable pub match_origin : Bytes → Option Origin
match_origin url = elim (scheme_of url) [
  | none ↦ none
  | some (secure, s) ↦ elim (host_of s) [
    | none ↦ none
    | some (host, r) ↦ elim (port_of secure (trim_slash r)) [
      | none ↦ none
      | some port ↦ some (record { secure = secure; host = host; port = port })
    ]
  ]
]

abbrev pub is_loopback : Host → Bool
is_loopback Host.paper = false
is_loopback Host.live = false
is_loopback _ = true

abbrev pub is_live_host : Host → Bool
is_live_host Host.live = true
is_live_host _ = false

abbrev pub same_bool : Bool → Bool → Bool
same_bool true b = b
same_bool false b = not b

unfoldable pub origin_text : (ℕ → Bytes) → Origin → Bytes
origin_text count_text o =
    (if o.secure then codes "https" else codes "http")
    ++ codes "://"
    ++ host_text o.host
    ++ (b':' ∷ count_text o.port)

module _ {F : Type 0} where
  unfoldable pub validate_destination : AlpacaConfig F → Option Origin
  validate_destination c =
      if c.is_live && not c.live_authorized
      then none
      else elim (match_origin (map to_lower c.base_url)) [
        | none ↦ none
        | some o ↦
            if ltb o.port 1 || ltb 65_535 o.port
            then none
            else if not (is_loopback o.host)
                && (not o.secure
                    || not (o.port == 443)
                    || not (same_bool c.is_live (is_live_host o.host)))
            then none
            else some o
      ]

pub live_host :
    (real : Bool) (h : Host)
    → is_loopback h ≡ false
    → same_bool real (is_live_host h) ≡ true
    → h ≡ (if real then Host.live else Host.paper)
live_host real h l s = ground arith

module _ {F : Type 0} where
  pub validated :
      (c : AlpacaConfig F) (o : Origin)
      → validate_destination c ≡ some o
      → ((c.is_live && not c.live_authorized) ≡ false)
        × (1 ≤ o.port)
        × (o.port ≤ 65_535)
        × ((not (is_loopback o.host)
              && (not o.secure
                  || not (o.port == 443)
                  || not (same_bool c.is_live (is_live_host o.host))))
            ≡ false)
  unfolding validate_destination
  validated c o h = ground arith
