-- ===== src/Governance/Reconcile/Block.antt =====
-- What `reconcile_governors` returns: a trace that fits, and nothing but zero after a block.
use ailee_finance_unified_ru.Prelude.{
  ℕ, ◌+◌, ◌%◌, ◌≤◌, ◌≡◌, Bool, true, ◌&&◌, none, some, List, [], ◌∷◌, arith, Bool-cases, inl, inr,
  length, if◌then◌else◌, ◌∙◌,
}
use ailee_finance_unified_ru.Float.{
  Float, IsIeee, Widening, ◌≼◌, ◌≺◌, IsFinite, nought, of_nat, max_of,
}
use ailee_finance_unified_ru.Float.Bounds.{of_nat-IsFinite}
use ailee_finance_unified_ru.Governance.Proposals.{
  Proposal, Course, Reconciled, Trigonometry, compliance, is_hard_block, last_of,
}
use ailee_finance_unified_ru.Governance.Reconcile.{
  block, climb, damp, threshold_of, conclude, reconcile_governors, are_valid,
}
use ailee_finance_unified_ru.Governance.Reconcile.Ladder.{
  log_step-IsStep, before_block, before_block-few, block-few,
}

if_some :
    {A : Type 0} (b : Bool) (x r : A) → (if b then some x else none) ≡ some r → (b ≡ true) × (x ≡ r)
if_some b x r h = ground arith

fourth : (a b c e g : Bool) → a && b && c && e && g ≡ true → e ≡ true
fourth a b c e g h = ground arith

module _ {D : Type 0} ⦃d : Float D⦄ where
  -- After a block: the value, who decided, and the flag.
  abbrev IsBlocked : Course D → Type 0
  IsBlocked c =
      (c.current_val ≡ nought) × (c.resolved_type ≡ compliance) × (c.flags_applied % 2 ≡ 1)

module _ {F D : Type 0} ⦃f : Float F⦄ ⦃d : Float D⦄ where
  climb-few :
      (asset : ℕ) (proposals : List (Proposal F D)) → length (climb asset proposals).trace ≤ 5
  unfolding climb
  climb-few asset proposals = omega (
    arith,
    block-few (last_of asset compliance proposals) (before_block asset proposals),
    before_block-few asset proposals,
  )

  block-IsBlocked :
      (p : Proposal F D) (c : Course D)
      → is_hard_block p.flags ≡ true
      → c.flags_applied % 2 ≡ 0
      → IsBlocked (block (some p) c)
  unfolding block
  block-IsBlocked p c h even = ground arith

  climb-IsBlocked :
      (asset : ℕ) (proposals : List (Proposal F D)) (p : Proposal F D)
      → last_of asset compliance proposals ≡ some p
      → is_hard_block p.flags ≡ true
      → IsBlocked (climb asset proposals)
  unfolding climb
  climb-IsBlocked asset proposals p h blocked = rw h (
      block-IsBlocked p (before_block asset proposals) blocked (before_block-few asset proposals).1)

module _ {D : Type 0} ⦃d : Float D⦄ where
  -- Zero, of either sign.
  abbrev pub IsZero : D → Type 0
  IsZero x = (nought ≼ x) × (x ≼ nought)

  damp-few : (t e : D) (c : Course D) → length (damp t e c).trace ≤ length c.trace + 1
  unfolding damp
  damp-few t e c =
      let damped = d.mul c.current_val (d.div t e) in
      ground (
        arith,
        (log_step-IsStep compliance 4 (d.div damped (d.div t e))
            (record c { current_val = damped })).0,
      )

  damp_kept :
      (t e : D) (c : Course D)
      → ((damp t e c).resolved_type ≡ c.resolved_type)
        × ((damp t e c).flags_applied ≡ c.flags_applied)
  unfolding damp
  damp_kept t e c = ground arith

  module _ (laws : IsIeee D) where
    damp-IsZero :
        (t e : D) (c : Course D)
        → nought ≺ t
        → IsFinite e
        → c.current_val ≡ nought
        → IsZero (damp t e c).current_val
    unfolding damp
    damp-IsZero t e c pos_t fin_e zero =
        let fin_nought = of_nat-IsFinite laws 0 (omega arith) in
        let refl_nought = laws.le_refl nought (laws.num_of_finite _ fin_nought) in
        elim (Bool-cases (d.lt t e)) [
          | inl over ↦
              let t_le = laws.le_of_lt t e over in
              let (lo, hi) =
                laws.div_unit t e (laws.le_of_lt nought t pos_t) t_le
                  (laws.lt_trans_le nought t e pos_t t_le) fin_e in
              let (low, high) =
                laws.mul_unit nought (d.div t e) refl_nought (laws.le_of_lt _ _ laws.one_pos) lo
                  hi in
              ground (arith, low, high)
          | inr under ↦ ground (arith, refl_nought)
        ]

    threshold_pos : (x : D) → nought ≺ max_of (of_nat 100) x
    threshold_pos x = ground (
      arith,
      laws.nat_pos 99,
      laws.le_of_lt (of_nat 100) x,
      laws.lt_trans_le nought (of_nat 100) x,
    )

module _ {F D : Type 0} ⦃f : Float F⦄ ⦃d : Float D⦄ ⦃w : Widening F D⦄ where
  returned :
      (trig : Trigonometry D) (p : Proposal F D) (proposals : List (Proposal F D)) (asset : ℕ)
      (r : Reconciled D)
      → reconcile_governors trig (p ∷ proposals) asset ≡ some r
      → (conclude trig asset (p ∷ proposals) ≡ r)
        × IsFinite (conclude trig asset (p ∷ proposals)).lyapunov_energy
  unfolding reconcile_governors
  returned trig p proposals asset r h =
      let out = conclude trig asset (p ∷ proposals) in
      let (passed, same) = if_some _ out r h in
      (
        same,
        fourth (are_valid (p ∷ proposals)) (d.is_finite out.final_value)
            (d.is_finite out.total_residual) (d.is_finite out.lyapunov_energy)
            (d.is_finite out.tension) passed,
      )

  -- A result's trace has at most six steps, so its array of 64 never drops one.
  pub reconcile_governors-few :
      (trig : Trigonometry D) (proposals : List (Proposal F D)) (asset : ℕ) (r : Reconciled D)
      → reconcile_governors trig proposals asset ≡ some r
      → length r.trace ≤ 6
  unfolding reconcile_governors
  reconcile_governors-few trig [] asset r h = ground arith
  reconcile_governors-few trig (p ∷ proposals) asset r h =
      let (same, fin) = returned trig p proposals asset r h in
      rw (← same) (
        omega (
          arith,
          damp-few (threshold_of asset (p ∷ proposals))
              (conclude trig asset (p ∷ proposals)).lyapunov_energy (climb asset (p ∷ proposals)),
          climb-few asset (p ∷ proposals),
        ))

  module _ (laws : IsIeee D) where
    -- When the last compliance proposal for the asset carries HARD_BLOCK and a result is
    -- returned, the final value is zero whatever the other governors propose, compliance is
    -- named as the governor that resolved it and the block's flag is set.
    pub reconcile_governors-IsZero :
        (trig : Trigonometry D) (proposals : List (Proposal F D)) (asset : ℕ) (p : Proposal F D)
        (r : Reconciled D)
        → last_of asset compliance proposals ≡ some p
        → is_hard_block p.flags ≡ true
        → reconcile_governors trig proposals asset ≡ some r
        → IsZero r.final_value × (r.resolved_type ≡ compliance) × (r.flags_applied % 2 ≡ 1)
    unfolding last_of
    reconcile_governors-IsZero trig [] asset p r given blocked h = ground arith
    reconcile_governors-IsZero trig (q ∷ proposals) asset p r given blocked h =
        let (same, fin) = returned trig q proposals asset r h in
        let (zero, resolved, flag) = climb-IsBlocked asset (q ∷ proposals) p given blocked in
        let (kept_type, kept_flags) =
          damp_kept (threshold_of asset (q ∷ proposals))
            (conclude trig asset (q ∷ proposals)).lyapunov_energy (climb asset (q ∷ proposals)) in
        rw (← same) (
          damp-IsZero laws _ _ (climb asset (q ∷ proposals)) (threshold_pos laws _) fin zero,
          kept_type ∙ resolved,
          rw kept_flags flag,
        )
