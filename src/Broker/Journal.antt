-- ===== src/Broker/Journal.antt =====
-- The durable reservations of orders, ailee_plugins/detail/intent_journal.hpp. The file is the
-- bytes that reached it; a write that fails may have left a part of its text there.
pub mod Replay
pub mod Lines
pub mod Replayed
pub mod Durable
pub mod Written
pub mod Torn
pub mod Kept
pub mod Dash
mod Tests
use Prim.Native.Nat.{ℕ, ◌+◌, ◌-◌, ◌*◌, ◌/◌, ◌%◌}
use ailee_finance_unified_ru.Prelude.{
  Bool, true, false, not, ◌&&◌, ◌||◌, Option, none, some, List, [], ◌∷◌, ◌++◌, if◌then◌else◌, ltb,
  leb, length, ◌==◌, take,
}
use ailee_finance_unified_ru.Prelude.Bytes.{Bytes, codes, is_empty, same, less, pieces, split_last}
use ailee_finance_unified_ru.Float.{Float, nought, eq}

abbrev pub tab : ℕ
tab = 9

abbrev pub newline : ℕ
newline = 10

abbrev pub capacity : ℕ
capacity = 16_777_216

abbrev pub max_entries : ℕ
max_entries = 100_000

abbrev pub header : Bytes
header = codes "AILEE-INTENT-V1" ++ (newline ∷ [])

-- SHA-256 of the library, in bytes.
pub record Hash : Type 0 where
  pub sha256 : Bytes → Bytes

-- The text of a `double` with 17 digits, and what is read of one.
pub record Codec (D : Type 0) : Type 0 where
  pub amount_text : D → Bytes
  pub read_amount : Bytes → Option D

pub record Entry (D : Type 0) : Type 0 where
  pub fingerprint : Bytes
  pub id : Bytes
  pub symbol : Bytes
  pub notional : D

pub record Book (D : Type 0) : Type 0 where
  pub entries : List (Bytes × Entry D)
  pub previous : Bytes

pub record IntentJournal (D : Type 0) : Type 0 where
  pub book : Book D
  pub bytes_written : ℕ
  pub file : Bytes

pub data Fault : Type 0 where
  byte_capacity persistence entry_capacity absent_ref : Fault

-- What becomes of a write: all of it is synchronised, or some bytes are and it is reported.
pub data Disk : Type 0 where
  stored : Disk
  torn : ℕ → Disk

pub data Lookup : Type 0 where
  unknown clashing : Lookup
  known : Bytes → Lookup

abbrev hex_digit : ℕ → ℕ
hex_digit n = if ltb n 10 then 48 + n else 87 + n

unfoldable pub hex : Bytes → Bytes
hex [] = []
hex (b ∷ bs) = hex_digit (b / 16 % 16) ∷ hex_digit (b % 16) ∷ hex bs

module _ {D : Type 0} where
  unfoldable pub find_entry : Bytes → List (Bytes × Entry D) → Option (Entry D)
  find_entry k [] = none
  find_entry k ((j, e) ∷ es) = if same j k then some e else find_entry k es

  -- `std::map::emplace`, in the order of the keys.
  unfoldable pub emplace : Bytes → Entry D → List (Bytes × Entry D) → List (Bytes × Entry D)
  emplace k v [] = (k, v) ∷ []
  emplace k v ((j, e) ∷ es) =
      let rest = emplace k v es in
      if same j k then (j, e) ∷ es else if less k j then (k, v) ∷ (j, e) ∷ es else (j, e) ∷ rest

  unfoldable pub set_id : Bytes → Bytes → List (Bytes × Entry D) → List (Bytes × Entry D)
  set_id k id [] = []
  set_id k id ((j, e) ∷ es) =
      let rest = set_id k id es in
      if same j k then (j, record e { id = id }) ∷ es else (j, e) ∷ rest

  unfoldable pub has_pending : List (Bytes × Entry D) → Bool
  has_pending [] = false
  has_pending ((_, e) ∷ es) = is_empty e.id || has_pending es

  unfoldable pub contains_symbol : Bytes → List (Bytes × Entry D) → Bool
  contains_symbol s [] = false
  contains_symbol s ((_, e) ∷ es) = same e.symbol s || contains_symbol s es

  unfoldable pub write_all : Disk → IntentJournal D → Bytes → IntentJournal D × Option Fault
  write_all disk j text =
      if ltb (capacity - j.bytes_written) (length text)
      then (j, some Fault.byte_capacity)
      else elim disk [
        | Disk.stored ↦ (
          record j { bytes_written = j.bytes_written + length text; file = j.file ++ text },
          none,
        )
        | Disk.torn n ↦ (record j { file = j.file ++ take n text }, some Fault.persistence)
      ]

  -- A reference in use with another order is an exception.
  unfoldable pub lookup : IntentJournal D → Bytes → Bytes → Lookup
  lookup j ref fingerprint = elim (find_entry ref j.book.entries) [
    | none ↦ Lookup.unknown
    | some e ↦ if same e.fingerprint fingerprint then Lookup.known e.id else Lookup.clashing
  ]

module _ {D : Type 0} ⦃d : Float D⦄ where
  unfoldable pub reserved_from : D → Bytes → List (Bytes × Entry D) → D
  reserved_from total s [] = total
  reserved_from total s ((_, e) ∷ es) =
      reserved_from (if same e.symbol s then d.add total e.notional else total) s es

  abbrev pub reserved : Bytes → List (Bytes × Entry D) → D
  reserved s es = reserved_from nought s es

module _ ⦃hash : Hash⦄ where
  unfoldable pub intent_digest : Bytes → Bytes
  intent_digest text = hex (hash.sha256 text)

module _ {D : Type 0} ⦃hash : Hash⦄ where
  unfoldable pub append : Disk → IntentJournal D → Bytes → IntentJournal D × Option Fault
  append disk j core =
      let checksum = intent_digest (j.book.previous ++ (newline ∷ core)) in
      let (k, fault) = write_all disk j (core ++ (tab ∷ checksum ++ (newline ∷ []))) in
      elim fault [
        | none ↦ (record k { book = record k.book { previous = checksum } }, none)
        | some e ↦ (k, some e)
      ]

module _ {D : Type 0} ⦃hash : Hash⦄ ⦃codec : Codec D⦄ where
  unfoldable pub core_of : ℕ → Bytes → Bytes → Bytes → Bytes → D → Bytes
  core_of kind ref fingerprint id symbol notional =
      kind ∷ tab ∷ ref
      ++ (tab ∷ fingerprint ++ (tab ∷ id ++ (tab ∷ symbol ++ (tab ∷ codec.amount_text notional))))

  unfoldable pub reserve :
      Disk → IntentJournal D → Bytes → Bytes → Bytes → D → IntentJournal D × Option Fault
  reserve disk j ref fingerprint symbol notional =
      if leb max_entries (length j.book.entries)
      then (j, some Fault.entry_capacity)
      else let (k, fault) =
          append disk j (core_of b'P' ref fingerprint (b'-' ∷ []) symbol notional) in
        elim fault [
          | none ↦
              let entry : Entry D = record {
                fingerprint = fingerprint;
                id = [];
                symbol = symbol;
                notional = notional;
              } in
              (
                record k { book = record k.book { entries = emplace ref entry k.book.entries } },
                none,
              )
          | some e ↦ (k, some e)
        ]

  unfoldable pub acknowledge :
      Disk → IntentJournal D → Bytes → Bytes → Bytes → IntentJournal D × Option Fault
  acknowledge disk j ref fingerprint id = elim (find_entry ref j.book.entries) [
    | none ↦ (j, some Fault.absent_ref)
    | some e ↦
        let (k, fault) = append disk j (core_of b'A' ref fingerprint id e.symbol e.notional) in
        elim fault [
          | none ↦
              (record k { book = record k.book { entries = set_id ref id k.book.entries } }, none)
          | some e' ↦ (k, some e')
        ]
  ]
