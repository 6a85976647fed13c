-- ===== src/Engine/Fallback/History.antt =====
-- The ring against what it stands for: the newest accepted values, oldest first.
use native.Mathlib.Nat.{
  add-mod_left, add-mod_right, add-sub_cancel, mod-eq_of_lt, mod-lt, mod-mod, mod_self, zero-mod,
}
use native.Mathlib.Numerals.{add-one}
use native.Mathlib.Decide.{dec_lt}
use ailee_finance_unified_ru.Prelude.{
  ℕ, zero, suc, ◌+◌, ◌-◌, ◌%◌, ◌≤◌, ◌<◌, ◌≡◌, refl, ap, ◌∙◌, sym, List, [], ◌∷◌, ◌++◌, arith,
  length, set, drop, length-set, length-append, ltb, lt→ltb, false, if◌then◌else◌,
}
use ailee_finance_unified_ru.Prelude.Ring.{round, length-round, round_congr, round-set}
use ailee_finance_unified_ru.Float.{Float, nought}
use ailee_finance_unified_ru.Engine.{AilleConfig, Engine, max_fallback_window}
use ailee_finance_unified_ru.Engine.Fallback.{window_of, update_fallback_buffer}

-- The newest `w` of a list that grows at its end.
abbrev pub keep {ℓ} : {A : Type ℓ} → ℕ → List A → List A
keep w xs = drop (length xs - w) xs

-- The arithmetic of one write: head `h`, count `c`, modulus `w`.
abbrev next_count : ℕ → ℕ → ℕ
next_count c w = if ltb c w then c + 1 else c

record IsPlaced (h c w : ℕ) : Type 0 where
  head_in : h < w
  count_in : c ≤ w
  start : c < w → h ≡ c

next-IsPlaced : (h c w : ℕ) → IsPlaced h c w → IsPlaced ((h + 1) % w) (next_count c w) w
next-IsPlaced h c w p = elim (dec_lt c w) [
  | yes room ↦ elim (dec_lt (c + 1) w) [
    | yes more ↦ ground (arith, p.start room, mod-eq_of_lt more, lt→ltb c w room)
    | no last ↦
        let end : c + 1 ≡ w = omega arith in
        ground (arith, p.start room, lt→ltb c w room, mod-lt (h + 1) {m = w})
  ]
  | no full ↦ ground (arith, mod-lt (h + 1) {m = w})
]

module _ {ℓ} {A : Type ℓ} (blank : A) (w : ℕ) (buf : List A) (full : w ≤ length buf) where
  room-start : (c : ℕ) → c < w → ((c + 1) % w + w - (c + 1)) % w ≡ w % w
  room-start c room = elim (dec_lt (c + 1) w) [
    | yes more ↦ rw (mod-eq_of_lt more) (ap (λ k. k % w) (omega arith))
    | no last ↦
        (let end : c + 1 ≡ w = omega arith in rw (end, mod_self w, add-sub_cancel, zero-mod))
  ]

  keep-room : (xs : List A) (v : A) → length xs < w → keep w (xs ++ (v ∷ [])) ≡ xs ++ (v ∷ [])
  keep-room xs v h =
      let none_over : length (xs ++ (v ∷ [])) - w ≡ 0 = omega (arith, length-append xs (v ∷ [])) in
      rw none_over

  round-next_room :
      (c : ℕ) (v : A)
      → c < w
      → round blank w (set buf c v) ((c + 1) % w + w - (c + 1)) (c + 1)
        ≡ keep w (round blank w buf w c ++ (v ∷ []))
  round-next_room c v room =
      let t = (c + 1) % w + w - (c + 1) in
      let here : c ≡ (w + c) % w = sym (add-mod_left w c ∙ mod-eq_of_lt room) in
      let short : length (round blank w buf w c) < w = rw (length-round blank w buf w c) room in
      rw (keep-room (round blank w buf w c) v short, add-one)
        (round_congr blank w (set buf c v) _ w (suc c) (rw (← add-one) (room-start c room))
          ∙ round-set blank w buf w c c v full room here)

  round-next_full :
      (n h : ℕ) (v : A)
      → n ≡ w
      → h < w
      → round blank w (set buf h v) ((h + 1) % w) n ≡ keep w (round blank w buf h n ++ (v ∷ []))
  round-next_full zero h v e low = absurd (omega arith)
  round-next_full (suc m) h v e low =
      let rest : List A = round blank w buf (h + 1) m in
      let one_over : suc (length (rest ++ (v ∷ []))) - w ≡ 1 =
        omega (arith, length-append rest (v ∷ []), length-round blank w buf (h + 1) m) in
      let last : h ≡ (h + 1 + m) % w =
        sym (ap (λ k. k % w) (omega arith) ∙ add-mod_right h w ∙ mod-eq_of_lt low) in
      round_congr blank w (set buf h v) _ (h + 1) (suc m) (mod-mod (h + 1) w)
      ∙ round-set blank w buf (h + 1) m h v full (omega arith) last
      ∙ rw one_over

  -- One write moves the view on by one value.
  round-next :
      (h c : ℕ) (v : A)
      → IsPlaced h c w
      → round blank w (set buf h v) ((h + 1) % w + w - next_count c w) (next_count c w)
        ≡ keep w (round blank w buf (h + w - c) c ++ (v ∷ []))
  round-next h c v p = elim (dec_lt c w) [
    | yes room ↦
        let shift : c + w - c ≡ w = omega arith in
        rw (p.start room, lt→ltb c w room, shift) (round-next_room c v room)
    | no over ↦
        let end : c ≡ w = omega arith in
        let last : ltb w w ≡ false = ground arith in
        rw (end, last, add-sub_cancel, add-sub_cancel) (round-next_full w h v refl p.head_in)
  ]

module _ {F : Type 0} where
  -- Where the ring's indices lie, whatever the buffers hold.
  pub record IsRing (e : Engine F) : Type 0 where
    pub values : length e.fallback_buffer ≡ max_fallback_window
    pub confidences : length e.confidence_buffer ≡ max_fallback_window
    pub head_in : e.fallback_head < window_of e.config
    pub count_in : e.fallback_count ≤ window_of e.config
    pub start : e.fallback_count < window_of e.config → e.fallback_head ≡ e.fallback_count

  pub window_of_pos :
      (cfg : AilleConfig F) → (0 < window_of cfg) × (window_of cfg ≤ max_fallback_window)
  unfolding window_of
  window_of_pos cfg = ground arith

  placed :
      (e : Engine F) → IsRing e → IsPlaced e.fallback_head e.fallback_count (window_of e.config)
  placed e r = omega arith

  next_count_lem :
      (e : Engine F) (v c : F)
      → IsRing e
      → (update_fallback_buffer e v c).fallback_count
        ≡ next_count e.fallback_count (window_of e.config)
  unfolding update_fallback_buffer
  next_count_lem e v c r = ground arith

  pub update-IsRing : (e : Engine F) (v c : F) → IsRing e → IsRing (update_fallback_buffer e v c)
  unfolding update_fallback_buffer
  update-IsRing e v c r =
      let p = next-IsPlaced e.fallback_head e.fallback_count (window_of e.config) (placed e r) in
      let same = next_count_lem e v c r in
      record {
        values = length-set e.fallback_buffer e.fallback_head v ∙ r.values;
        confidences = length-set e.confidence_buffer e.fallback_head c ∙ r.confidences;
        head_in = p.head_in;
        count_in = rw same p.count_in;
        start = rw same p.start;
      }

module _ {F : Type 0} ⦃f : Float F⦄ where
  -- The values of one of the buffers, oldest first.
  abbrev pub samples : Engine F → List F → List F
  samples e buffer =
      round nought (window_of e.config) buffer
        (e.fallback_head + window_of e.config - e.fallback_count) e.fallback_count

  -- Recording an accepted decision in a well-formed ring appends its value and its confidence
  -- to the histories that the ring stands for, and drops the oldest entry exactly when the
  -- window is full.
  pub update-samples :
      (e : Engine F) (v c : F)
      → IsRing e
      → let e' = update_fallback_buffer e v c in
        (samples e' e'.fallback_buffer
          ≡ keep (window_of e.config) (samples e e.fallback_buffer ++ (v ∷ [])))
        × (samples e' e'.confidence_buffer
            ≡ keep (window_of e.config) (samples e e.confidence_buffer ++ (c ∷ [])))
  unfolding update_fallback_buffer
  update-samples e v c r =
      let w = window_of e.config in
      let (w_pos, w_le) = window_of_pos e.config in
      rw (next_count_lem e v c r) (
        round-next nought w e.fallback_buffer (omega arith) e.fallback_head e.fallback_count v
            (placed e r),
        round-next nought w e.confidence_buffer (omega arith) e.fallback_head e.fallback_count c
            (placed e r),
      )
