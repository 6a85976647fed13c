-- ===== src/Broker/Alpaca/Checks.antt =====
-- Tokens, credentials and acknowledgments, plugins/execution/alpaca/AlpacaExecution.cpp.
use Prim.Native.Nat.{ℕ}
use ailee_finance_unified_ru.Prelude.{
  Bool, true, false, not, ◌&&◌, ◌||◌, Option, none, some, [], ◌∷◌, leb, length, ◌==◌, if◌then◌else◌,
}
use ailee_finance_unified_ru.Prelude.Bytes.{Bytes, codes, is_empty, same}
use ailee_finance_unified_ru.Broker.Json.{Kind, JsonScalar, Members, find_member, parse}

abbrev pub is_token_byte : ℕ → Bool
is_token_byte c =
    leb b'a' c && leb c b'z'
    || leb b'A' c && leb c b'Z'
    || leb b'0' c && leb c b'9'
    || c == b'-'
    || c == b'_'
    || c == b'.'

unfoldable pub all_of : (ℕ → Bool) → Bytes → Bool
all_of p [] = true
all_of p (c ∷ s) = p c && all_of p s

unfoldable pub has_dots : Bytes → Bool
has_dots [] = false
has_dots (_ ∷ []) = false
has_dots (a ∷ b ∷ s) = (a == b'.' && b == b'.') || has_dots (b ∷ s)

unfoldable pub token : ℕ → Bytes → Bool
token maximum s =
    not (is_empty s) && leb (length s) maximum && all_of is_token_byte s && not (has_dots s)

abbrev is_lower : ℕ → Bool
is_lower c = leb b'a' c && leb c b'z'

unfoldable pub has_lower : Bytes → Bool
has_lower [] = false
has_lower (c ∷ s) = is_lower c || has_lower s

abbrev is_graphic : ℕ → Bool
is_graphic c = leb 33 c && leb c 126

unfoldable pub is_credential : Bytes → Bool
is_credential s = not (is_empty s) && leb (length s) 4_096 && all_of is_graphic s

-- The status and the body of an answer.
pub record Answer : Type 0 where
  pub status : ℕ
  pub body : Bytes

unfoldable pub is_accepted : Bytes → Bool
is_accepted s =
    same s (codes "accepted")
    || same s (codes "new")
    || same s (codes "pending_new")
    || same s (codes "accepted_for_bidding")
    || same s (codes "partially_filled")
    || same s (codes "filled")

abbrev is_string : JsonScalar → Bool
is_string v = elim v.kind [ Kind.string ↦ true | _ ↦ false ]

unfoldable pub id_in : Members → Bytes
id_in ms = elim (find_member (codes "id") ms) [
  | none ↦ []
  | some id ↦
      if not (is_string id) || not (token 128 id.value)
      then []
      else elim (find_member (codes "status") ms) [
        | none ↦ id.value
        | some state ↦
            if not (is_string state) || not (is_accepted state.value) then [] else id.value
      ]
]

-- Nothing where the body cannot be read.
unfoldable pub acknowledged_id : Bytes → Bytes
acknowledged_id body = elim (parse body) [ none ↦ [] | some ms ↦ id_in ms ]

unfoldable pub confirmed_id : Option Answer → Bytes
confirmed_id none = []
confirmed_id (some r) = if r.status == 200 || r.status == 201 then acknowledged_id r.body else []
