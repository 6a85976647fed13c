-- ===== src/Broker/Alpaca/Sound.antt =====
-- What the plugin's checks give the journal, and its writes to a sound disk.
use Prim.Native.Nat.{ℕ, ◌≤◌}
use ailee_finance_unified_ru.Prelude.{
  ◌≡◌, true, false, Option, none, some, List, [], ◌∷◌, arith, Option-cases, inl, inr, length,
}
use ailee_finance_unified_ru.Prelude.Bytes.{Bytes, Lacks, same, is_empty}
use ailee_finance_unified_ru.Float.{Float, Widening, nought}
use ailee_finance_unified_ru.Execution.{OrderRequest}
use ailee_finance_unified_ru.Broker.Journal.{
  Codec, Hash, IntentJournal, Disk, Entry, find_entry, reserve, acknowledge, append, write_all,
  intent_digest, tab, newline, Fault,
}
use ailee_finance_unified_ru.Broker.Journal.Lines.{IsField, hex-untabbed, hex-unbroken, length-hex}
use ailee_finance_unified_ru.Broker.Journal.Written.{IsWritten, IsOrder, IsId}
use ailee_finance_unified_ru.Broker.Alpaca.Checks.{
  token, all_of, confirmed_id, acknowledged_id, id_in, Answer, is_token_byte,
}
use ailee_finance_unified_ru.Broker.Alpaca.{Surroundings, FloatText, notional_of, body_of}

-- The documented size of the hash.
pub record IsHash ⦃hash : Hash⦄ : Type 0 where
  pub size : (text : Bytes) → length (hash.sha256 text) ≡ 32

-- No byte of a token is a tab or a newline.
pub token-Lacks : (d : ℕ) (s : Bytes) → d ≤ 10 → all_of is_token_byte s ≡ true → Lacks d s
unfolding all_of
token-Lacks d [] n h = tt
token-Lacks d (c ∷ s) n h = (ground arith, token-Lacks d s n (ground arith))

pub token-IsField : (n : ℕ) (s : Bytes) → token n s ≡ true → IsField s
unfolding token
token-IsField n s h =
    let parts : (all_of is_token_byte s ≡ true) × (is_empty s ≡ false) = ground arith in
    record {
      no_tab = token-Lacks tab s (omega arith) parts.0;
      no_newline = token-Lacks newline s (omega arith) parts.0;
      filled = parts.1;
    }

pub confirmed_token :
    (answer : Option Answer)
    → is_empty (confirmed_id answer) ≡ false
    → token 128 (confirmed_id answer) ≡ true
unfolding confirmed_id acknowledged_id id_in
confirmed_token answer h = ground arith

module _ ⦃hash : Hash⦄ where
  pub digest-fits :
      IsHash
      → (text : Bytes)
      → Lacks tab (intent_digest text)
        × Lacks newline (intent_digest text)
        × (length (intent_digest text) ≡ 64)
  unfolding intent_digest
  digest-fits sized text = (
    hex-untabbed (hash.sha256 text),
    hex-unbroken (hash.sha256 text),
    omega (arith, length-hex (hash.sha256 text), sized.size text),
  )

-- A call whose writes are stored, whose notional does not vanish and whose answer names no `-`.
pub record IsCalm {F : Type 0} (D : Type 0) ⦃f : Float F⦄ ⦃d : Float D⦄ ⦃w : Widening F D⦄
    ⦃t : FloatText F⦄ (env : Surroundings) (r : OrderRequest F) : Type 0 where
  pub stored_first : env.at_reserve ≡ Disk.stored
  pub stored_then : env.at_acknowledge ≡ Disk.stored
  pub lasting : d.le (notional_of {D = D} r) nought ≡ false
  pub named : same (confirmed_id (env.answer (body_of r))) (b'-' ∷ []) ≡ false

module _ {F : Type 0} (D : Type 0) ⦃f : Float F⦄ ⦃d : Float D⦄ ⦃w : Widening F D⦄
    ⦃t : FloatText F⦄ where
  abbrev pub AllCalm : List (Surroundings × OrderRequest F) → Type 0
  AllCalm [] = Unit
  AllCalm ((env, r) ∷ calls) = IsCalm D env r × AllCalm calls

module _ {D : Type 0} ⦃hash : Hash⦄ ⦃codec : Codec D⦄ where
  -- What is not stored by a sound disk is not begun.
  pub acknowledge-refused :
      (j : IntentJournal D) (ref print id : Bytes) (x : Fault)
      → (acknowledge Disk.stored j ref print id).1 ≡ some x
      → (acknowledge Disk.stored j ref print id).0 ≡ j
  unfolding acknowledge append write_all
  acknowledge-refused j ref print id x h = ground arith

  pub reserve-refused :
      (j : IntentJournal D) (ref print symbol : Bytes) (a : D) (x : Fault)
      → (reserve Disk.stored j ref print symbol a).1 ≡ some x
      → (reserve Disk.stored j ref print symbol a).0 ≡ j
  unfolding reserve append write_all
  reserve-refused j ref print symbol a x h = ground arith

module _ {D : Type 0} ⦃d : Float D⦄ ⦃hash : Hash⦄ ⦃codec : Codec D⦄ where
  pub acknowledge-IsWritten :
      (j : IntentJournal D) (ref id : Bytes) (e : Entry D)
      → IsWritten j
      → IsOrder ref e.fingerprint e.symbol e.notional
      → IsId id
      → is_empty e.id ≡ true
      → find_entry ref j.book.entries ≡ some e
      → IsWritten (acknowledge Disk.stored j ref e.fingerprint id).0
  acknowledge-IsWritten j ref id e h o i n p =
      elim (Option-cases (acknowledge Disk.stored j ref e.fingerprint id).1) [
        | inl m ↦ IsWritten.acknowledged ref id e h o i p n (ground arith)
        | inr (x, m) ↦ rw (acknowledge-refused j ref e.fingerprint id x m) h
      ]

  pub reserve-IsWritten :
      (disk : Disk) (j : IntentJournal D) (ref print symbol : Bytes) (a : D)
      → disk ≡ Disk.stored
      → IsWritten j
      → IsOrder ref print symbol a
      → find_entry ref j.book.entries ≡ none
      → IsWritten (reserve disk j ref print symbol a).0
  reserve-IsWritten disk j ref print symbol a s h o p =
      rw s (elim (Option-cases (reserve Disk.stored j ref print symbol a).1) [
        | inl m ↦ IsWritten.reserved ref print symbol a h o p (ground arith)
        | inr (x, m) ↦ rw (reserve-refused j ref print symbol a x m) h
      ])
