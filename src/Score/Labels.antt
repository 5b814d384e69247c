-- ===== src/Score/Labels.antt =====
-- What the labels of score/classifier.py say of the strengths.
use squeeze_hunter.Prelude.{◌≡◌, ◌⊎◌, ◌↔◌, arith}
use squeeze_hunter.Prelude.Floats.{Floats, ◌≼◌, ◌≺◌, IsNumber, IsOrdered}
use squeeze_hunter.Setup.{Setup}
use squeeze_hunter.Score.{Factors, car_strength, gme_strength, label, classify_setup}

module _ {F : Type 0} ⦃f : Floats F⦄ (laws : IsOrdered F) where
  open laws use {number_of_le, lt-eq-not-le, le_trans}

  label-weak_iff :
      (strong floor a b : F)
      → floor ≼ strong
      → IsNumber a
      → IsNumber b
      → (label strong floor a b ≡ Setup.weak)
        ↔ (a ≺ strong) × (b ≺ strong) × ((a ≺ floor) ⊎ (b ≺ floor))
  unfolding label
  label-weak_iff strong floor a b m na nb =
      let (nf, ns) = number_of_le floor strong m in
      let a_strong = lt-eq-not-le a strong na ns in
      let b_strong = lt-eq-not-le b strong nb ns in
      let a_floor = lt-eq-not-le a floor na nf in
      let b_floor = lt-eq-not-le b floor nb nf in
      let a_above = le_trans floor strong a m in
      let b_above = le_trans floor strong b m in
      ground (arith, a_strong, b_strong, a_floor, b_floor, a_above, b_above)

  -- For number cutoffs, the mixed one at most the strong one, and strengths that are numbers: a
  -- ticker whose one strength reaches the strong cutoff is never weak, whatever the other is. And it
  -- is weak just when both are under the strong cutoff and one is under the mixed cutoff.
  pub classify_setup-weak_iff :
      (strong mixed_floor : F) (r : Factors F)
      → mixed_floor ≼ strong
      → IsNumber (car_strength r)
      → IsNumber (gme_strength r)
      → (classify_setup strong mixed_floor r ≡ Setup.weak)
        ↔ (car_strength r ≺ strong)
          × (gme_strength r ≺ strong)
          × ((car_strength r ≺ mixed_floor) ⊎ (gme_strength r ≺ mixed_floor))
  unfolding classify_setup
  classify_setup-weak_iff strong mixed_floor r m na nb =
      label-weak_iff strong mixed_floor (car_strength r) (gme_strength r) m na nb
