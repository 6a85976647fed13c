-- ===== src/Broker/Journal/Lines.antt =====
-- The lines that the journal writes, and what is read of them.
use Prim.Native.Nat.{ℕ, ◌*◌}
use ailee_finance_unified_ru.Prelude.{◌≡◌, refl, false, some, [], ◌∷◌, ◌++◌, length, arith}
use ailee_finance_unified_ru.Prelude.Bytes.{
  Bytes, Lacks, is_empty, pieces, pieces-cut, pieces-one, append-Lacks, split_last, split_last-cut,
}
use ailee_finance_unified_ru.Float.{Float, IsFinite, nought}
use ailee_finance_unified_ru.Broker.Journal.{
  Codec, Hash, Entry, tab, newline, hex, intent_digest, core_of,
}

-- What the text of a finite number is documented to be.
pub record IsCodec (D : Type 0) ⦃d : Float D⦄ ⦃codec : Codec D⦄ : Type 0 where
  pub read_back : (a : D) → IsFinite a → codec.read_amount (codec.amount_text a) ≡ some a
  pub text_tab : (a : D) → IsFinite a → Lacks tab (codec.amount_text a)
  pub text_newline : (a : D) → IsFinite a → Lacks newline (codec.amount_text a)
  pub text_filled : (a : D) → IsFinite a → is_empty (codec.amount_text a) ≡ false

-- A text that stands as a field of a line.
pub record IsField (s : Bytes) : Type 0 where
  pub no_tab : Lacks tab s
  pub no_newline : Lacks newline s
  pub filled : is_empty s ≡ false

-- The two fields of an entry that are written again.
pub record IsSound {D : Type 0} ⦃d : Float D⦄ (e : Entry D) : Type 0 where
  pub symbol_ok : IsField e.symbol
  pub finite : IsFinite e.notional
  pub positive : d.le e.notional nought ≡ false

pub hex-untabbed : (bs : Bytes) → Lacks tab (hex bs)
unfolding hex
hex-untabbed [] = tt
hex-untabbed (b ∷ bs) = (ground arith, (ground arith, hex-untabbed bs))

pub hex-unbroken : (bs : Bytes) → Lacks newline (hex bs)
unfolding hex
hex-unbroken [] = tt
hex-unbroken (b ∷ bs) = (ground arith, (ground arith, hex-unbroken bs))

pub length-hex : (bs : Bytes) → length (hex bs) ≡ 2 * length bs
unfolding hex
length-hex [] = refl
length-hex (b ∷ bs) = omega (arith, length-hex bs)

pieces-last : (s : Bytes) → is_empty s ≡ false → Lacks tab s → pieces tab s ≡ s ∷ []
pieces-last [] h l = cc
pieces-last (c ∷ s) h l = pieces-one tab c s l

module _ ⦃hash : Hash⦄ where
  -- A line parts into what was written and its checksum.
  pub split_last-line :
      (core text : Bytes)
      → split_last tab (core ++ (tab ∷ intent_digest text)) ≡ some (core, intent_digest text)
  unfolding intent_digest
  split_last-line core text =
      split_last-cut tab core (hex (hash.sha256 text)) (hex-untabbed (hash.sha256 text))

module _ {D : Type 0} ⦃d : Float D⦄ ⦃hash : Hash⦄ ⦃codec : Codec D⦄ (laws : IsCodec D) where
  open laws use {text_tab, text_newline, text_filled}

  pub pieces-core_of :
      (kind : ℕ) (ref fingerprint id symbol : Bytes) (a : D)
      → Lacks tab (kind ∷ [])
      → IsField ref
      → Lacks tab fingerprint
      → IsField id
      → IsField symbol
      → IsFinite a
      → pieces tab (core_of kind ref fingerprint id symbol a)
        ≡ (kind ∷ []) ∷ ref ∷ fingerprint ∷ id ∷ symbol ∷ codec.amount_text a ∷ []
  unfolding core_of
  pieces-core_of kind ref fingerprint id symbol a hk hr hf hi hs ha =
      rw
        (
          pieces-cut tab (kind ∷ [])
              (ref
                ++ (tab ∷ fingerprint
                    ++ (tab ∷ id ++ (tab ∷ symbol ++ (tab ∷ codec.amount_text a)))))
              hk,
          pieces-cut tab ref
              (fingerprint ++ (tab ∷ id ++ (tab ∷ symbol ++ (tab ∷ codec.amount_text a))))
              hr.no_tab,
          pieces-cut tab fingerprint (id ++ (tab ∷ symbol ++ (tab ∷ codec.amount_text a))) hf,
          pieces-cut tab id (symbol ++ (tab ∷ codec.amount_text a)) hi.no_tab,
          pieces-cut tab symbol (codec.amount_text a) hs.no_tab,
          pieces-last (codec.amount_text a) (text_filled a ha) (text_tab a ha),
        )
        refl

  pub core_of-unbroken :
      (kind : ℕ) (ref fingerprint id symbol : Bytes) (a : D)
      → Lacks newline (kind ∷ [])
      → IsField ref
      → Lacks newline fingerprint
      → IsField id
      → IsField symbol
      → IsFinite a
      → Lacks newline (core_of kind ref fingerprint id symbol a)
  unfolding core_of
  core_of-unbroken kind ref fingerprint id symbol a (hk, _) hr hf hi hs ha = (
    hk,
    (
      refl,
      append-Lacks newline ref _ hr.no_newline (
        refl,
        append-Lacks newline fingerprint _ hf (
          refl,
          append-Lacks newline id _ hi.no_newline
              (refl, append-Lacks newline symbol _ hs.no_newline (refl, text_newline a ha)),
        ),
      ),
    ),
  )
