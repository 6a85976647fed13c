-- ===== src/Broker/Json/Tests.antt =====
-- The reader of answers at some texts.
use mathlib.Core.List.{Perm}
use ailee_finance_unified_ru.Prelude.{◌≡◌, ◌↔◌, refl, none, some, List, [], ◌∷◌, arith}
use ailee_finance_unified_ru.Prelude.Bytes.{codes, same, less}
use ailee_finance_unified_ru.Broker.Json.Text.{
  ws, take, need, hex_value, hex4, utf8, follow, lead, multibyte, low_half, unicode, escape, round,
  rounds, text,
}
use ailee_finance_unified_ru.Broker.Json.{
  Kind, digits, integer, some_digits, fraction, exponent, sign, numeral, word, find_member, Members,
  emplace_member, elements, array, members, fields, value, object, parse,
}
use ailee_finance_unified_ru.Broker.Json.Refused.{
  IsBadText, IsBadArray, IsBadObject, loops_refuse_iff,
}
use ailee_finance_unified_ru.Broker.Json.Order.{IsIncreasing}
use ailee_finance_unified_ru.Broker.Json.Print.{Pair, print, scalars, parse-print}

abbrev answer : List Pair
answer = (codes "status", codes "new") ∷ (codes "id", codes "7f") ∷ []

parse-print_example :
    (ms : Members) × (parse (print answer) ≡ some ms) × Perm ms (scalars answer) × IsIncreasing ms
unfolding same
parse-print_example = parse-print answer (ground arith) ((refl, tt), (tt, tt)) (omega arith)

loops_refuse_iff_example :
    ((rounds 2 [] (codes "a\"") ≡ none) ↔ IsBadText (codes "a\""))
    × ((elements (value 2) 3 (codes "a\"") ≡ none) ↔ IsBadArray (value 2) (codes "a\""))
    × ((members (value 2) 3 [] (codes "a\"") ≡ none) ↔ IsBadObject (value 2) [] (codes "a\""))
loops_refuse_iff_example = loops_refuse_iff 2 [] [] (codes "a\"")

euro : multibyte 226 (130 ∷ 172 ∷ 33 ∷ []) ≡ some (226 ∷ 130 ∷ 172 ∷ [], 33 ∷ [])
unfolding multibyte lead follow utf8
euro = refl

nested-run :
    parse (codes "{\"n\": 0.25, \"id\" : \"x\\u00e9\", \"legs\":[{\"id\":\"no\"}, -1.5e3]}")
    ≡ some (
        (codes "id", record { kind = Kind.string; value = b'x' ∷ 195 ∷ 169 ∷ [] })
        ∷ (codes "legs", record { kind = Kind.other; value = [] })
        ∷ (codes "n", record { kind = Kind.number; value = codes "0.25" })
        ∷ [])
unfolding parse object value fields members array elements word numeral sign exponent fraction
    some_digits integer digits find_member emplace_member same less text rounds round escape unicode
    low_half hex4 hex_value utf8 need take ws
nested-run = refl

twice-run : parse (codes "{\"id\":1,\"id\":2}") ≡ none
unfolding parse object value fields members array elements word numeral sign exponent fraction
    some_digits integer digits find_member emplace_member same less text rounds round escape unicode
    low_half hex4 hex_value utf8 need take ws
twice-run = refl
