-- ===== src/Broker/Journal/Written.antt =====
-- The journals that a process can have written, and their reading by the next one.
use Prim.Native.Nat.{◌<◌, ◌≤◌}
use ailee_finance_unified_ru.Prelude.{
  ◌≡◌, refl, true, false, none, some, [], ◌∷◌, length, arith, inl,
}
use ailee_finance_unified_ru.Prelude.Bytes.{Bytes, Lacks, is_empty, same, pieces}
use ailee_finance_unified_ru.Float.{Float, IsIeee, IsFinite, nought}
use ailee_finance_unified_ru.Broker.Journal.{
  Codec, Hash, Entry, IntentJournal, Disk, tab, newline, header, capacity, max_entries, core_of,
  find_entry, emplace, set_id, append, reserve, acknowledge, write_all,
}
use ailee_finance_unified_ru.Broker.Journal.Replay.{replay, new_book, new_journal, open_journal}
use ailee_finance_unified_ru.Broker.Journal.Lines.{IsCodec, IsField, IsSound, core_of-unbroken}
use ailee_finance_unified_ru.Broker.Journal.Replayed.{
  step-reserved, step-acknowledged, length-emplace, length-set_id,
}
use ailee_finance_unified_ru.Broker.Journal.Durable.{
  IsDurable, written, written-IsDurable, durable-opens, find_entry-IsSound, emplace-Sound,
  set_id-Sound,
}

-- What a broker's identifier is when it is recorded.
pub record IsId (id : Bytes) : Type 0 where
  pub id_ok : IsField id
  pub no_dash : same id (b'-' ∷ []) ≡ false

module _ {D : Type 0} ⦃d : Float D⦄ ⦃hash : Hash⦄ ⦃codec : Codec D⦄ where
  -- What `submitOrder` gives of an order.
  pub record IsOrder (ref fingerprint symbol : Bytes) (notional : D) : Type 0 where
    pub ref_ok : IsField ref
    pub print_tab : Lacks tab fingerprint
    pub print_newline : Lacks newline fingerprint
    pub print_size : length fingerprint ≡ 64
    pub symbol_ok : IsField symbol
    pub finite : IsFinite notional
    pub positive : d.le notional nought ≡ false

  -- The calls of a journal whose writes are stored.
  pub data IsWritten : IntentJournal D → Type 0 where
    opened : {j : IntentJournal D} → new_journal Disk.stored ≡ some j → IsWritten j
    reserved :
        {j k : IntentJournal D} (ref fingerprint symbol : Bytes) (notional : D)
        → IsWritten j
        → IsOrder ref fingerprint symbol notional
        → find_entry ref j.book.entries ≡ none
        → reserve Disk.stored j ref fingerprint symbol notional ≡ (k, none)
        → IsWritten k
    acknowledged :
        {j k : IntentJournal D} (ref id : Bytes) (e : Entry D)
        → IsWritten j
        → IsOrder ref e.fingerprint e.symbol e.notional
        → IsId id
        → find_entry ref j.book.entries ≡ some e
        → is_empty e.id ≡ true
        → acknowledge Disk.stored j ref e.fingerprint id ≡ (k, none)
        → IsWritten k

  new-IsDurable : (j : IntentJournal D) → new_journal Disk.stored ≡ some j → IsDurable j
  unfolding new_journal write_all replay pieces
  new-IsDurable j h =
      let shape : j ≡ record { book = new_book; bytes_written = 16; file = header } =
        ground arith in
      rw shape record {
        body = [];
        file_eq = refl;
        closed = inl refl;
        replayed = refl;
        counted = refl;
        in_capacity = omega arith;
        in_count = omega arith;
        sound = tt;
      }

  reserve-written :
      (j k : IntentJournal D) (ref fingerprint symbol : Bytes) (a : D)
      → j.bytes_written ≤ capacity
      → reserve Disk.stored j ref fingerprint symbol a ≡ (k, none)
      → (k
          ≡ written j (core_of b'P' ref fingerprint (b'-' ∷ []) symbol a) (
              emplace ref
                (record { fingerprint = fingerprint; id = []; symbol = symbol; notional = a })
                j.book.entries))
        × (k.bytes_written ≤ capacity)
        × length j.book.entries < max_entries
  unfolding reserve append write_all
  reserve-written j k ref fingerprint symbol a hb h = ground arith

  pub acknowledge-written :
      (j k : IntentJournal D) (ref fingerprint id : Bytes) (e : Entry D)
      → j.bytes_written ≤ capacity
      → find_entry ref j.book.entries ≡ some e
      → acknowledge Disk.stored j ref fingerprint id ≡ (k, none)
      → (k
          ≡ written j
              (core_of b'A' ref fingerprint id e.symbol e.notional)
              (set_id ref id j.book.entries))
        × k.bytes_written ≤ capacity
  unfolding acknowledge append write_all
  acknowledge-written j k ref fingerprint id e hb he h = ground arith

  module _ (ieee : IsIeee D) (laws : IsCodec D) where
    pub IsWritten-IsDurable : (j : IntentJournal D) → IsWritten j → IsDurable j
    IsWritten-IsDurable j (opened h) = new-IsDurable j h
    IsWritten-IsDurable k (reserved {j = j} ref fingerprint symbol a w o hn h) =
        let old : IsDurable j = IsWritten-IsDurable j w in
        let core : Bytes = core_of b'P' ref fingerprint (b'-' ∷ []) symbol a in
        let entry : Entry D = record {
          fingerprint = fingerprint;
          id = [];
          symbol = symbol;
          notional = a;
        } in
        let (shape, sized, few) = reserve-written j k ref fingerprint symbol a old.in_capacity h in
        let plain : Lacks newline core =
          core_of-unbroken laws b'P' ref fingerprint (b'-' ∷ []) symbol a (refl, tt) o.ref_ok
            o.print_newline (record { no_tab = (refl, tt); no_newline = (refl, tt); filled = refl })
            o.symbol_ok o.finite in
        rw shape (
          written-IsDurable j core (emplace ref entry j.book.entries) old plain
            (step-reserved laws j.book ref fingerprint symbol a o.ref_ok o.print_tab o.print_size
              o.symbol_ok o.finite o.positive hn few)
            (rw shape at sized) (omega (arith, few, length-emplace ref entry j.book.entries))
            (emplace-Sound ref entry j.book.entries
              (record { symbol_ok = o.symbol_ok; finite = o.finite; positive = o.positive })
              old.sound))
    IsWritten-IsDurable k (acknowledged {j = j} ref id e w o hi hn he h) =
        let old : IsDurable j = IsWritten-IsDurable j w in
        let core : Bytes = core_of b'A' ref e.fingerprint id e.symbol e.notional in
        let (shape, sized) = acknowledge-written j k ref e.fingerprint id e old.in_capacity hn h in
        let sound : IsSound e = find_entry-IsSound ref e j.book.entries old.sound hn in
        let plain : Lacks newline core =
          core_of-unbroken laws b'A' ref e.fingerprint id e.symbol e.notional (refl, tt) o.ref_ok
            o.print_newline hi.id_ok o.symbol_ok o.finite in
        let le : d.le e.notional e.notional ≡ true =
          ieee.le_refl e.notional (ieee.num_of_finite e.notional o.finite) in
        rw shape (
          written-IsDurable j core (set_id ref id j.book.entries) old plain
            (step-acknowledged laws j.book ref id e o.ref_ok o.print_tab o.print_size sound hi.id_ok
              hi.no_dash he (ground (arith, le)) hn old.in_count)
            (rw shape at sized) (omega (arith, old.in_count, length-set_id ref id j.book.entries))
            (set_id-Sound ref id j.book.entries old.sound))

    -- The file of a journal that was made new and then wrote valid reservations and
    -- acknowledgments is read back as that journal: its entries, its last checksum and its
    -- size.
    pub open_journal-IsWritten :
        (disk : Disk) (j : IntentJournal D) → IsWritten j → open_journal disk j.file ≡ some j
    open_journal-IsWritten disk j w = durable-opens disk j (IsWritten-IsDurable j w)
