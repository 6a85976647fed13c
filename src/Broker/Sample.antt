-- ===== src/Broker/Sample.antt =====
-- A hash, a text of numbers and a journal, at which the broker's parts can be run.
use Prim.Native.Nat.{ℕ, zero, suc, ◌%◌, ◌≤◌}
use ailee_finance_unified_ru.Prelude.{
  ◌≡◌, refl, true, false, Option, none, some, [], ◌∷◌, ◌++◌, length, replicate, length-replicate,
  arith, if◌then◌else◌, ◌==◌,
}
use ailee_finance_unified_ru.Prelude.Int.{pos, negsuc}
use ailee_finance_unified_ru.Prelude.Bytes.{Bytes, codes, Lacks, is_empty}
use ailee_finance_unified_ru.Float.Fixed.{Fixed, fixed_float, fixed_widening}
use ailee_finance_unified_ru.Broker.Journal.{
  Codec, Hash, IntentJournal, Disk, reserve, append, write_all, hex, intent_digest, core_of,
  find_entry, emplace, tab, newline,
}
use ailee_finance_unified_ru.Broker.Journal.Replay.{new_journal}
use ailee_finance_unified_ru.Broker.Journal.Lines.{IsCodec}
use ailee_finance_unified_ru.Broker.Journal.Written.{IsWritten, IsOrder}

-- A hash of 32 bytes, and a text of as many strokes as the number counts.
instance abbrev pub some_hash : Hash
some_hash = record { sha256 = λ (s : Bytes). (length s % 256) ∷ replicate 31 7 }

abbrev pub strokes : Fixed → Bytes
strokes none = []
strokes (some (pos n)) = b'+' ∷ replicate n b'1'
strokes (some (negsuc n)) = b'-' ∷ replicate n b'1'

abbrev pub count : Bytes → Option Fixed
count [] = none
count (c ∷ s) = if c == b'+' then some (some (pos (length s))) else some (some (negsuc (length s)))

instance abbrev pub some_codec : Codec Fixed
some_codec = record { amount_text = strokes; read_amount = count }

replicate-Lacks : (d n c : ℕ) → ((c == d) ≡ false) → Lacks d (replicate n c)
replicate-Lacks d zero c h = tt
replicate-Lacks d (suc n) c h = (h, replicate-Lacks d n c h)

count-strokes : (a : Fixed) → fixed_float.is_finite a ≡ true → count (strokes a) ≡ some a
count-strokes none h = cc
count-strokes (some (pos n)) h = rw (length-replicate {A = ℕ} n b'1') refl
count-strokes (some (negsuc n)) h = rw (length-replicate {A = ℕ} n b'1') refl

strokes-Lacks : (d : ℕ) (a : Fixed) → d ≤ 10 → fixed_float.is_finite a ≡ true → Lacks d (strokes a)
strokes-Lacks d none l h = cc
strokes-Lacks d (some (pos n)) l h = (ground arith, replicate-Lacks d n b'1' (ground arith))
strokes-Lacks d (some (negsuc n)) l h = (ground arith, replicate-Lacks d n b'1' (ground arith))

strokes-filled : (a : Fixed) → fixed_float.is_finite a ≡ true → is_empty (strokes a) ≡ false
strokes-filled a h = ground arith

pub some-IsCodec : IsCodec Fixed
some-IsCodec = record {
  read_back = count-strokes;
  text_tab = λ (a : Fixed) h. strokes-Lacks tab a (omega arith) h;
  text_newline = λ (a : Fixed) h. strokes-Lacks newline a (omega arith) h;
  text_filled = strokes-filled;
}

abbrev pub print : Bytes
print = replicate 64 b'a'

abbrev pub fresh : IntentJournal Fixed
fresh = record {
  book = record { entries = []; previous = [] };
  bytes_written = 16;
  file = codes "AILEE-INTENT-V1" ++ (newline ∷ []);
}

fresh-run : new_journal Disk.stored ≡ some fresh
unfolding new_journal write_all
fresh-run = refl

pub first-IsOrder : IsOrder (codes "A1") print (codes "BTC") (some (pos 3))
first-IsOrder = ground arith

unfoldable pub booked : IntentJournal Fixed
booked = (reserve Disk.stored fresh (codes "A1") print (codes "BTC") (some (pos 3))).0

pub booked-run :
    reserve Disk.stored fresh (codes "A1") print (codes "BTC") (some (pos 3)) ≡ (booked, none)
unfolding booked reserve append write_all core_of intent_digest hex emplace
booked-run = refl

pub fresh-IsWritten : IsWritten fresh
fresh-IsWritten = IsWritten.opened fresh-run

pub booked-IsWritten : IsWritten booked
unfolding find_entry
booked-IsWritten =
    IsWritten.reserved (codes "A1") print (codes "BTC") (some (pos 3)) fresh-IsWritten first-IsOrder
      refl booked-run
