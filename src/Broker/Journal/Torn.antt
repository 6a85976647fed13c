-- ===== src/Broker/Journal/Torn.antt =====
-- A reservation that reached the file in part.
use Prim.Native.Nat.{ℕ, suc, zero, ◌<◌, ◌≤◌}
use mathlib.Core.List.{append_assoc}
use ailee_finance_unified_ru.Prelude.{
  ◌≡◌, refl, false, none, some, [], ◌∷◌, ◌++◌, length, take, arith,
}
use ailee_finance_unified_ru.Prelude.Bytes.{Bytes, Lacks, is_empty, append-Lacks}
use ailee_finance_unified_ru.Float.{Float, IsIeee}
use ailee_finance_unified_ru.Broker.Journal.{
  Codec, Hash, IntentJournal, Disk, Fault, tab, newline, header, intent_digest, core_of, append,
  reserve, write_all,
}
use ailee_finance_unified_ru.Broker.Journal.Replay.{ends_in, open_journal, read_journal}
use ailee_finance_unified_ru.Broker.Journal.Lines.{IsCodec, hex-unbroken, core_of-unbroken}
use ailee_finance_unified_ru.Broker.Journal.Durable.{IsDurable}
use ailee_finance_unified_ru.Broker.Journal.Written.{IsWritten, IsOrder, IsWritten-IsDurable}

take-Lacks : (d n : ℕ) (s : Bytes) → Lacks d s → Lacks d (take n s)
take-Lacks d zero s h = tt
take-Lacks d (suc n) [] h = tt
take-Lacks d (suc n) (c ∷ s) (h, hs) = (h, take-Lacks d n s hs)

take-append : (n : ℕ) (s t : Bytes) → n ≤ length s → take n (s ++ t) ≡ take n s
take-append zero s t h = refl
take-append (suc n) [] t h = absurd (omega arith)
take-append (suc n) (c ∷ s) t h = rw (take-append n s t (omega arith)) refl

ends_in-Lacks : (d : ℕ) (s t : Bytes) → Lacks d t → is_empty t ≡ false → ends_in d (s ++ t) ≡ false
ends_in-Lacks d [] [] h k = cc
ends_in-Lacks d [] (c ∷ []) (h, _) k = h
ends_in-Lacks d [] (c ∷ b ∷ t) (_, h) k = ends_in-Lacks d [] (b ∷ t) h refl
ends_in-Lacks d (a ∷ []) [] h k = cc
ends_in-Lacks d (a ∷ []) (c ∷ t) h k = ends_in-Lacks d [] (c ∷ t) h k
ends_in-Lacks d (a ∷ b ∷ s) t h k = ends_in-Lacks d (b ∷ s) t h k

take_filled : (n : ℕ) (s : Bytes) → 0 < n → n ≤ length s → is_empty (take n s) ≡ false
take_filled zero s h k = absurd (omega arith)
take_filled (suc n) [] h k = absurd (omega arith)
take_filled (suc n) (_ ∷ _) h k = refl

module _ {D : Type 0} ⦃d : Float D⦄ ⦃hash : Hash⦄ ⦃codec : Codec D⦄ where
  unended-refused :
      (disk : Disk) (s : Bytes)
      → ends_in newline (header ++ s) ≡ false
      → open_journal {D = D} disk (header ++ s) ≡ none
  unfolding open_journal read_journal
  unended-refused disk s h = ground (arith, h)

  -- The line of a reservation, without the newline that ends it.
  abbrev pub reservation : IntentJournal D → Bytes → Bytes → Bytes → D → Bytes
  reservation j ref fingerprint symbol notional =
      let core = core_of b'P' ref fingerprint (b'-' ∷ []) symbol notional in
      core ++ (tab ∷ intent_digest (j.book.previous ++ (newline ∷ core)))

  reserve-torn :
      (j k : IntentJournal D) (ref fingerprint symbol : Bytes) (a : D) (n : ℕ)
      → reserve (Disk.torn n) j ref fingerprint symbol a ≡ (k, some Fault.persistence)
      → k ≡ record j {
        file = j.file ++ take n (reservation j ref fingerprint symbol a ++ (newline ∷ []));
      }
  unfolding reserve append write_all
  reserve-torn j k ref fingerprint symbol a n h =
      let core : Bytes = core_of b'P' ref fingerprint (b'-' ∷ []) symbol a in
      let sum : Bytes = intent_digest (j.book.previous ++ (newline ∷ core)) in
      ground (arith, append_assoc core (tab ∷ sum) (newline ∷ []))

  module _ (ieee : IsIeee D) (laws : IsCodec D) where
    -- When the write of a valid reservation fails after a part of its line reached the file,
    -- the book is left as it was and the next process refuses the file.
    pub reserve-refused :
        (disk : Disk) (j k : IntentJournal D) (ref fingerprint symbol : Bytes) (notional : D)
        (n : ℕ)
        → IsWritten j
        → IsOrder ref fingerprint symbol notional
        → 0 < n
        → n ≤ length (reservation j ref fingerprint symbol notional)
        → reserve (Disk.torn n) j ref fingerprint symbol notional ≡ (k, some Fault.persistence)
        → (k.book ≡ j.book) × (open_journal {D = D} disk k.file ≡ none)
    unfolding intent_digest
    reserve-refused disk j k ref fingerprint symbol a n w o hn hl h =
        let old : IsDurable j = IsWritten-IsDurable ieee laws j w in
        let core : Bytes = core_of b'P' ref fingerprint (b'-' ∷ []) symbol a in
        let line : Bytes = reservation j ref fingerprint symbol a in
        let plain : Lacks newline line =
          append-Lacks newline core _
            (core_of-unbroken laws b'P' ref fingerprint (b'-' ∷ []) symbol a (refl, tt) o.ref_ok
              o.print_newline
              (record { no_tab = (refl, tt); no_newline = (refl, tt); filled = refl }) o.symbol_ok
              o.finite)
            (refl, hex-unbroken (hash.sha256 (j.book.previous ++ (newline ∷ core)))) in
        let unended : ends_in newline (header ++ (old.body ++ take n line)) ≡ false =
          ends_in-Lacks newline (header ++ old.body) (take n line) (take-Lacks newline n line plain)
            (take_filled n line hn hl) in
        rw
          (
            reserve-torn j k ref fingerprint symbol a n h,
            old.file_eq,
            take-append n line (newline ∷ []) hl,
          )
          (refl, unended-refused disk (old.body ++ take n line) unended)
