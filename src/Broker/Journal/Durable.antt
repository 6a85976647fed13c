-- ===== src/Broker/Journal/Durable.antt =====
-- What a journal's file holds: all that the journal knows.
use Prim.Native.Nat.{◌+◌, ◌≤◌}
use mathlib.Core.List.{append_assoc}
use ailee_finance_unified_ru.Prelude.{
  ◌≡◌, refl, sym, ◌∙◌, ◌⊎◌, Bool-cases, Option-cases, inl, inr, true, none, some, List, [], ◌∷◌,
  ◌++◌, length, length-append, arith,
}
use ailee_finance_unified_ru.Prelude.Bytes.{
  Bytes, Lacks, same, pieces, pieces-cut, pieces-append, append-Lacks,
}
use ailee_finance_unified_ru.Float.{Float}
use ailee_finance_unified_ru.Broker.Journal.{
  Codec, Hash, Entry, Book, IntentJournal, Disk, tab, newline, header, capacity, max_entries,
  intent_digest, find_entry, emplace, set_id, write_all, append,
}
use ailee_finance_unified_ru.Broker.Journal.Replay.{
  ends_in, step, replay, new_book, read_journal, open_journal,
}
use ailee_finance_unified_ru.Broker.Journal.Lines.{IsSound, hex-unbroken}

abbrev pub Closed : Bytes → Type 0
Closed body = (body ≡ []) ⊎ ((s : Bytes) × (body ≡ s ++ (newline ∷ [])))

pub pieces-body :
    (body line : Bytes)
    → Closed body
    → Lacks newline line
    → pieces newline (body ++ (line ++ (newline ∷ []))) ≡ pieces newline body ++ (line ∷ [])
unfolding pieces
pieces-body body line (inl e) h = rw (e, pieces-cut newline line [] h) refl
pieces-body body line (inr (s, e)) h =
    rw (e, pieces-append newline s (line ++ (newline ∷ [])), pieces-cut newline line [] h) refl

ends_in-last : (s : Bytes) → ends_in newline (s ++ (newline ∷ [])) ≡ true
ends_in-last [] = refl
ends_in-last (c ∷ []) = refl
ends_in-last (c ∷ b ∷ s) = ends_in-last (b ∷ s)

header_ends : (body : Bytes) → Closed body → ends_in newline (header ++ body) ≡ true
header_ends body (inl e) = rw e refl
header_ends body (inr (s, e)) = rw e (ends_in-last (header ++ s))

module _ {D : Type 0} ⦃d : Float D⦄ ⦃hash : Hash⦄ ⦃codec : Codec D⦄ where
  abbrev pub Sound : List (Bytes × Entry D) → Type 0
  Sound [] = Unit
  Sound ((k, e) ∷ es) = IsSound e × Sound es

  -- The file holds the header and the lines whose replay gives the book.
  pub record IsDurable (j : IntentJournal D) : Type 0 where
    pub body : Bytes
    pub file_eq : j.file ≡ header ++ body
    pub closed : Closed body
    pub replayed : replay new_book (pieces newline body) ≡ some j.book
    pub counted : j.bytes_written ≡ length j.file
    pub in_capacity : j.bytes_written ≤ capacity
    pub in_count : length j.book.entries ≤ max_entries
    pub sound : Sound j.book.entries

  pub replay-append :
      (b b' : Book D) (ls : List Bytes) (l : Bytes)
      → replay b ls ≡ some b'
      → replay b (ls ++ (l ∷ [])) ≡ step b' l
  unfolding replay
  replay-append b b' [] l h = elim (Option-cases (step b l)) [
    | inl n ↦ ground arith
    | inr (c, n) ↦ ground arith
  ]
  replay-append b b' (m ∷ ls) l h = elim (Option-cases (step b m)) [
    | inl n ↦ ground arith
    | inr (c, n) ↦ ground (arith, replay-append c b' ls l)
  ]

  pub find_entry-IsSound :
      (k : Bytes) (e : Entry D) (es : List (Bytes × Entry D))
      → Sound es
      → find_entry k es ≡ some e
      → IsSound e
  unfolding find_entry
  find_entry-IsSound k e [] h p = cc
  find_entry-IsSound k e ((j, e') ∷ es) (h, hs) p = ground (arith, find_entry-IsSound k e es hs)

  pub emplace-Sound :
      (k : Bytes) (e : Entry D) (es : List (Bytes × Entry D))
      → IsSound e
      → Sound es
      → Sound (emplace k e es)
  unfolding emplace
  emplace-Sound k e [] h _ = (h, tt)
  emplace-Sound k e ((j, e') ∷ es) h (h', hs) = ground (arith, emplace-Sound k e es h hs)

  pub set_id-Sound :
      (k id : Bytes) (es : List (Bytes × Entry D)) → Sound es → Sound (set_id k id es)
  unfolding set_id
  set_id-Sound k id [] _ = tt
  set_id-Sound k id ((j, e) ∷ es) (h, hs) =
      let h' : IsSound (record e { id = id }) = record {
        symbol_ok = h.symbol_ok;
        finite = h.finite;
        positive = h.positive;
      } in
      elim (Bool-cases (same j k)) [
        | inl n ↦ rw n (h', hs)
        | inr n ↦ rw n (h, set_id-Sound k id es hs)
      ]

  pub durable-opens :
      (disk : Disk) (j : IntentJournal D) → IsDurable j → open_journal disk j.file ≡ some j
  unfolding open_journal read_journal
  durable-opens disk j h =
      let ends : ends_in newline (header ++ h.body) ≡ true = header_ends h.body h.closed in
      let sized : length (header ++ h.body) ≡ j.bytes_written = rw h.file_eq at (sym h.counted) in
      rw h.file_eq (ground (arith, ends, sized))

  -- The journal after one more line.
  abbrev pub written : IntentJournal D → Bytes → List (Bytes × Entry D) → IntentJournal D
  written j core es =
      let checksum = intent_digest (j.book.previous ++ (newline ∷ core)) in
      let line = core ++ (tab ∷ checksum ++ (newline ∷ [])) in
      record {
        book = record { entries = es; previous = checksum };
        bytes_written = j.bytes_written + length line;
        file = j.file ++ line;
      }

  pub written-IsDurable :
      (j : IntentJournal D) (core : Bytes) (es : List (Bytes × Entry D))
      → IsDurable j
      → Lacks newline core
      → step j.book (core ++ (tab ∷ intent_digest (j.book.previous ++ (newline ∷ core))))
        ≡ some (written j core es).book
      → (written j core es).bytes_written ≤ capacity
      → length es ≤ max_entries
      → Sound es
      → IsDurable (written j core es)
  unfolding intent_digest
  written-IsDurable j core es h hc hs hb hl he =
      let checksum : Bytes = intent_digest (j.book.previous ++ (newline ∷ core)) in
      let line : Bytes = core ++ (tab ∷ checksum) in
      let plain : Lacks newline line =
        append-Lacks newline core (tab ∷ checksum) hc
          (refl, hex-unbroken (hash.sha256 (j.book.previous ++ (newline ∷ core)))) in
      let shape : line ++ (newline ∷ []) ≡ core ++ (tab ∷ checksum ++ (newline ∷ [])) =
        append_assoc core (tab ∷ checksum) (newline ∷ []) in
      record {
        body = h.body ++ (line ++ (newline ∷ []));
        file_eq = rw (h.file_eq, sym shape) (append_assoc header h.body (line ++ (newline ∷ [])));
        closed = inr (h.body ++ line, sym (append_assoc h.body line (newline ∷ [])));
        replayed =
            rw (pieces-body h.body line h.closed plain)
              (replay-append new_book j.book (pieces newline h.body) line h.replayed ∙ hs);
        counted =
            rw (h.counted)
              (sym (length-append j.file (core ++ (tab ∷ checksum ++ (newline ∷ [])))));
        in_capacity = hb;
        in_count = hl;
        sound = he;
      }

  pub append-stored :
      (j k : IntentJournal D) (core : Bytes)
      → j.bytes_written ≤ capacity
      → append Disk.stored j core ≡ (k, none)
      → (k ≡ written j core j.book.entries) × k.bytes_written ≤ capacity
  unfolding append write_all
  append-stored j k core hb h = ground arith
