-- ===== src/Broker/Journal/Tests.antt =====
-- The journal's theorems at an order of fixed-point numbers.
use ailee_finance_unified_ru.Prelude.{◌≡◌, refl, none, some, [], ◌∷◌, ◌++◌, arith}
use ailee_finance_unified_ru.Prelude.Int.{pos}
use ailee_finance_unified_ru.Prelude.Bytes.{codes, same, less}
use ailee_finance_unified_ru.Float.Fixed.{Fixed, fixed_float, Fixed-IsIeee, fixed_widening}
use ailee_finance_unified_ru.Broker.Journal.{
  Entry, IntentJournal, Disk, Fault, reserve, acknowledge, append, write_all, hex, intent_digest,
  core_of, find_entry, emplace, set_id, tab,
}
use ailee_finance_unified_ru.Broker.Journal.Replay.{open_journal}
use ailee_finance_unified_ru.Broker.Sample.{
  some_hash, some_codec, some-IsCodec, print, fresh, fresh-IsWritten, first-IsOrder, booked,
  booked-IsWritten,
}
use ailee_finance_unified_ru.Broker.Journal.Written.{open_journal-IsWritten}
use ailee_finance_unified_ru.Broker.Journal.Torn.{reserve-refused}
use ailee_finance_unified_ru.Broker.Journal.Dash.{acknowledge-refused}

open_journal-IsWritten_example : open_journal Disk.stored booked.file ≡ some booked
open_journal-IsWritten_example =
    open_journal-IsWritten Fixed-IsIeee some-IsCodec Disk.stored booked booked-IsWritten

abbrev halved : IntentJournal Fixed
halved = record fresh { file = fresh.file ++ (b'P' ∷ tab ∷ b'A' ∷ b'1' ∷ []) }

halved-run :
    reserve (Disk.torn 4) fresh (codes "A1") print (codes "BTC") (some (pos 3))
    ≡ (halved, some Fault.persistence)
unfolding reserve append write_all core_of intent_digest hex
halved-run = refl

abbrev first : Entry Fixed
first = record { fingerprint = print; id = []; symbol = codes "BTC"; notional = some (pos 3) }

unfoldable dashed : IntentJournal Fixed
dashed = (acknowledge Disk.stored booked (codes "A1") print (b'-' ∷ [])).0

dashed-run : acknowledge Disk.stored booked (codes "A1") print (b'-' ∷ []) ≡ (dashed, none)
unfolding dashed booked reserve acknowledge append write_all core_of intent_digest hex emplace
    set_id find_entry same less
dashed-run = refl

booked-finds : find_entry (codes "A1") booked.book.entries ≡ some first
unfolding booked reserve append write_all core_of intent_digest hex emplace find_entry same
booked-finds = refl

acknowledge-refused_example : open_journal {D = Fixed} Disk.stored dashed.file ≡ none
acknowledge-refused_example =
    acknowledge-refused Fixed-IsIeee some-IsCodec Disk.stored booked dashed (codes "A1") first
      booked-IsWritten first-IsOrder booked-finds dashed-run

reserve-refused_example :
    (halved.book ≡ fresh.book) × (open_journal {D = Fixed} Disk.stored halved.file ≡ none)
unfolding core_of
reserve-refused_example =
    reserve-refused Fixed-IsIeee some-IsCodec Disk.stored fresh halved (codes "A1") print
      (codes "BTC") (some (pos 3)) 4 fresh-IsWritten first-IsOrder (omega arith) (omega arith)
      halved-run
