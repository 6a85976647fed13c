-- ===== src/Broker/Journal/Kept.antt =====
-- What is reserved stays reserved.
use ailee_finance_unified_ru.Prelude.{
  ◌≡◌, refl, Bool, true, false, Option, none, some, List, [], ◌∷◌, arith, ◌||◌, ◌&&◌, if◌then◌else◌,
}
use ailee_finance_unified_ru.Prelude.Bytes.{Bytes, same}
use ailee_finance_unified_ru.Broker.Journal.{
  Codec, Hash, Entry, IntentJournal, Disk, Fault, find_entry, emplace, set_id, contains_symbol,
  write_all, append, reserve, acknowledge,
}
use ailee_finance_unified_ru.Broker.Journal.Replayed.{find_entry-emplace}

module _ {D : Type 0} where
  unfoldable pub has_entry : Bytes → List (Bytes × Entry D) → Bool
  has_entry k es = elim (find_entry k es) [ none ↦ false | some _ ↦ true ]

  pub has_entry-set_id :
      (k i id : Bytes) (es : List (Bytes × Entry D)) → has_entry i (set_id k id es) ≡ has_entry i es
  unfolding has_entry find_entry set_id
  has_entry-set_id k i id [] = refl
  has_entry-set_id k i id ((j, e) ∷ es) = ground (arith, has_entry-set_id k i id es)

  pub has_entry-emplace :
      (k i : Bytes) (v : Entry D) (es : List (Bytes × Entry D))
      → find_entry k es ≡ none
      → has_entry i (emplace k v es) ≡ (same k i || has_entry i es)
  unfolding has_entry
  has_entry-emplace k i v es h = ground (arith, find_entry-emplace k i v es)

  pub contains_symbol-set_id :
      (k s id : Bytes) (es : List (Bytes × Entry D))
      → contains_symbol s (set_id k id es) ≡ contains_symbol s es
  unfolding contains_symbol set_id
  contains_symbol-set_id k s id [] = refl
  contains_symbol-set_id k s id ((j, e) ∷ es) = ground (arith, contains_symbol-set_id k s id es)

  pub contains_symbol-emplace :
      (k s : Bytes) (v : Entry D) (es : List (Bytes × Entry D))
      → find_entry k es ≡ none
      → contains_symbol s (emplace k v es) ≡ (same v.symbol s || contains_symbol s es)
  unfolding contains_symbol emplace find_entry
  contains_symbol-emplace k s v [] h = refl
  contains_symbol-emplace k s v ((j, e) ∷ es) h = ground (arith, contains_symbol-emplace k s v es)

abbrev pub succeeded : Option Fault → Bool
succeeded none = true
succeeded (some _) = false

module _ {D : Type 0} ⦃hash : Hash⦄ ⦃codec : Codec D⦄ where
  append-entries :
      (disk : Disk) (j : IntentJournal D) (core : Bytes)
      → (append disk j core).0.book.entries ≡ j.book.entries
  unfolding append write_all
  append-entries disk j core = ground arith

  acknowledge-entries :
      (disk : Disk) (j : IntentJournal D) (ref print id : Bytes)
      → let (k, fault) = acknowledge disk j ref print id in
        k.book.entries ≡ (if succeeded fault then set_id ref id j.book.entries else j.book.entries)
  unfolding acknowledge append write_all
  acknowledge-entries disk j ref print id = ground arith

  pub acknowledge-kept :
      (disk : Disk) (j : IntentJournal D) (ref print id i s : Bytes)
      → (has_entry i (acknowledge disk j ref print id).0.book.entries ≡ has_entry i j.book.entries)
        × (contains_symbol s (acknowledge disk j ref print id).0.book.entries
            ≡ contains_symbol s j.book.entries)
  acknowledge-kept disk j ref print id i s = ground (
    arith,
    acknowledge-entries disk j ref print id,
    has_entry-set_id ref i id j.book.entries,
    contains_symbol-set_id ref s id j.book.entries,
  )

  abbrev pub pending : Bytes → Bytes → D → Entry D
  pending print symbol a = record { fingerprint = print; id = []; symbol = symbol; notional = a }

  pub reserve-entries :
      (disk : Disk) (j : IntentJournal D) (ref print symbol : Bytes) (a : D)
      → let (k, fault) = reserve disk j ref print symbol a in
        k.book.entries ≡ (
          if succeeded fault
          then emplace ref (pending print symbol a) j.book.entries
          else j.book.entries)
  unfolding reserve append write_all
  reserve-entries disk j ref print symbol a = ground arith

  pub reserve-kept :
      (disk : Disk) (j : IntentJournal D) (ref print symbol : Bytes) (a : D) (i s : Bytes)
      → find_entry ref j.book.entries ≡ none
      → let (k, fault) = reserve disk j ref print symbol a in
        (has_entry i k.book.entries ≡ (succeeded fault && same ref i || has_entry i j.book.entries))
        × (contains_symbol s k.book.entries
            ≡ (succeeded fault && same symbol s || contains_symbol s j.book.entries))
  reserve-kept disk j ref print symbol a i s h =
      let entry : Entry D = pending print symbol a in
      ground (
        arith,
        reserve-entries disk j ref print symbol a,
        has_entry-emplace ref i entry j.book.entries,
        contains_symbol-emplace ref s entry j.book.entries,
      )
