-- ===== src/Broker/Journal/Replay.antt =====
-- The journal's constructor, which replays the file: ailee_plugins/detail/intent_journal.hpp.
use Prim.Native.Nat.{ℕ}
use ailee_finance_unified_ru.Prelude.{
  Bool, false, not, ◌&&◌, ◌||◌, Option, none, some, List, [], ◌∷◌, ◌++◌, if◌then◌else◌, ltb, length,
  ◌==◌,
}
use ailee_finance_unified_ru.Prelude.Bytes.{Bytes, is_empty, same, pieces, split_last}
use ailee_finance_unified_ru.Float.{Float, nought, eq}
use ailee_finance_unified_ru.Broker.Journal.{
  IntentJournal, Book, Entry, Codec, Hash, Disk, tab, newline, header, capacity, max_entries,
  find_entry, emplace, set_id, intent_digest, write_all,
}

pub record Fields : Type 0 where
  pub state : Bytes
  pub ref : Bytes
  pub fingerprint : Bytes
  pub id : Bytes
  pub symbol : Bytes
  pub amount : Bytes

-- Six fields, and nothing after them.
abbrev pub fields_of : List Bytes → Option Fields
fields_of (s ∷ r ∷ f ∷ i ∷ y ∷ a ∷ []) =
    some (record { state = s; ref = r; fingerprint = f; id = i; symbol = y; amount = a })
fields_of _ = none

abbrev pub strip_prefix : Bytes → Bytes → Option Bytes
strip_prefix [] s = some s
strip_prefix (_ ∷ _) [] = none
strip_prefix (a ∷ p) (b ∷ s) = if a == b then strip_prefix p s else none

abbrev pub ends_in : ℕ → Bytes → Bool
ends_in d [] = false
ends_in d (c ∷ []) = c == d
ends_in d (_ ∷ c ∷ s) = ends_in d (c ∷ s)

module _ {D : Type 0} ⦃d : Float D⦄ ⦃hash : Hash⦄ ⦃codec : Codec D⦄ where
  abbrev answers : Entry D → Fields → D → Bool
  answers e r notional =
      same e.fingerprint r.fingerprint
      && same e.symbol r.symbol
      && eq e.notional notional
      && is_empty e.id

  abbrev pub pending_entry : Fields → D → Entry D
  pending_entry r notional = record {
    fingerprint = r.fingerprint;
    id = [];
    symbol = r.symbol;
    notional = notional;
  }

  unfoldable pub transition : Book D → Fields → D → Option (Book D)
  transition b r notional = elim (find_entry r.ref b.entries) [
    | none ↦
        if same r.state (b'P' ∷ []) && same r.id (b'-' ∷ [])
        then some (record b { entries = emplace r.ref (pending_entry r notional) b.entries })
        else none
    | some e ↦
        if same r.state (b'A' ∷ [])
          && not (same r.id (b'-' ∷ []))
          && not (is_empty r.id)
          && answers e r notional
        then some (record b { entries = set_id r.ref r.id b.entries })
        else none
  ]

  unfoldable pub read_record : Book D → Fields → Option (Book D)
  read_record b r =
      if is_empty r.ref || not (length r.fingerprint == 64)
      then none
      else elim (codec.read_amount r.amount) [
        | none ↦ none
        | some notional ↦
            if not (d.is_finite notional) || d.le notional nought || is_empty r.symbol
            then none
            else transition b r notional
      ]

  -- One line of the file.
  unfoldable pub step : Book D → Bytes → Option (Book D)
  step b line = elim (split_last tab line) [
    | none ↦ none
    | some (core, checksum) ↦
        if not (same checksum (intent_digest (b.previous ++ (newline ∷ core))))
        then none
        else elim (fields_of (pieces tab core)) [
          | none ↦ none
          | some r ↦ elim (read_record b r) [
            | none ↦ none
            | some b' ↦
                if ltb max_entries (length b'.entries)
                then none
                else some (record b' { previous = checksum })
          ]
        ]
  ]

  unfoldable pub replay : Book D → List Bytes → Option (Book D)
  replay b [] = some b
  replay b (l ∷ ls) = elim (step b l) [ none ↦ none | some b' ↦ replay b' ls ]

  abbrev pub new_book : Book D
  new_book = record { entries = []; previous = [] }

  -- A file of some length, after its guards on type, owner and mode.
  unfoldable pub read_journal : Bytes → Option (IntentJournal D)
  read_journal text = elim (strip_prefix header text) [
    | none ↦ none
    | some body ↦
        if not (ends_in newline text) then none else elim (replay new_book (pieces newline body)) [
          | none ↦ none
          | some b ↦ some (record { book = b; bytes_written = length text; file = text })
        ]
  ]

  unfoldable pub new_journal : Disk → Option (IntentJournal D)
  new_journal disk =
      let fresh : IntentJournal D = record { book = new_book; bytes_written = 0; file = [] } in
      let (j, fault) = write_all disk fresh header in elim fault [ none ↦ some j | some _ ↦ none ]

  unfoldable pub open_journal : Disk → Bytes → Option (IntentJournal D)
  open_journal disk text =
      if ltb capacity (length text)
      then none
      else if is_empty text
      then new_journal disk
      else read_journal text
