-- ===== src/Sell/Consensus.antt =====
-- The consensus of the price feeds in `evaluateSell`, in `long double`, with compensated sums.
use ailee_finance_unified_ru.Prelude.{
  Bool, true, not, ◌&&◌, ◌||◌, List, [], ◌∷◌, if◌then◌else◌, length,
}
use ailee_finance_unified_ru.Prelude.Bytes.{is_empty}
use ailee_finance_unified_ru.Float.{Float, Widening, nought, one, of_nat, eq, clamp, max_of}

pub record Feed (D : Type 0) : Type 0 where
  pub price : D
  pub confidence : D

-- A sum and its correction.
pub record Compensated (L : Type 0) : Type 0 where
  pub sum : L
  pub correction : L

module _ {D : Type 0} ⦃d : Float D⦄ where
  unfoldable pub are_valid : List (Feed D) → Bool
  are_valid [] = true
  are_valid (x ∷ feeds) =
      let rest = are_valid feeds in d.is_finite x.price && d.is_finite x.confidence && rest

module _ {L : Type 0} ⦃l : Float L⦄ where
  abbrev add_compensated : L → Compensated L → Compensated L
  add_compensated value c =
      let next = l.add c.sum value in
      record {
        sum = next;
        correction = l.add c.correction (
            if l.le (l.abs value) (l.abs c.sum)
            then l.add (l.sub c.sum next) value
            else l.add (l.sub value next) c.sum);
      }

  -- `scale ? value / scale : 0.0L`
  abbrev over_scale : L → L → L
  over_scale scale value = if eq scale nought then nought else l.div value scale

  unfoldable pub largest_abs : L → List L → L
  largest_abs acc [] = acc
  largest_abs acc (x ∷ xs) = largest_abs (max_of acc (l.abs x)) xs

  unfoldable pub sum_scaled : L → Compensated L → List L → Compensated L
  sum_scaled scale c [] = c
  sum_scaled scale c (x ∷ xs) = sum_scaled scale (add_compensated (over_scale scale x) c) xs

  unfoldable pub variance : L → L → L → List L → L
  variance scale avg acc [] = acc
  variance scale avg acc (x ∷ xs) =
      let delta = l.sub (over_scale scale x) avg in
      variance scale avg (l.add acc (l.mul delta delta)) xs

  -- The mean of the values over the largest of them.
  unfoldable pub mean_scaled : List L → L
  mean_scaled xs =
      let c =
        sum_scaled (largest_abs nought xs) (record { sum = nought; correction = nought }) xs in
      l.div (l.add c.sum c.correction) (of_nat (length xs))

module _ {D L : Type 0} ⦃d : Float D⦄ ⦃l : Float L⦄ ⦃v : Widening D L⦄ (sqrt : L → L) where
  unfoldable pub widened : (Feed D → D) → List (Feed D) → List L
  widened field [] = []
  widened field (x ∷ feeds) = v.widen (field x) ∷ widened field feeds

  unfoldable pub agreement : List (Feed D) → L
  agreement feeds =
      let prices = widened (λ (x : Feed D). x.price) feeds in
      let confidences = widened (λ (x : Feed D). x.confidence) feeds in
      let avg_p = mean_scaled prices in
      let avg_conf = l.mul (mean_scaled confidences) (largest_abs nought confidences) in
      let var = variance (largest_abs nought prices) avg_p nought prices in
      let rel_std =
        if l.lt nought avg_p
        then l.div (sqrt (l.div var (of_nat (length feeds)))) avg_p
        else nought in
      let p_consensus = max_of nought (l.sub one (l.mul rel_std (of_nat 5))) in
      l.mul p_consensus avg_conf

  unfoldable pub consensus_of : List (Feed D) → D
  consensus_of feeds =
      if is_empty feeds || not (are_valid feeds)
      then nought
      else v.narrow (clamp (agreement feeds) nought one)
