-- ===== src/Score.antt =====
-- score/classifier.py: the setup of a scored ticker from its two strengths.
pub mod Labels
use squeeze_hunter.Prelude.{Option, none, some, ◌&&◌, if◌then◌else◌}
use squeeze_hunter.Prelude.Floats.{Floats, nought}
use squeeze_hunter.Setup.{Setup}

-- The factor columns that the classifier reads. A value that is missing, or in a missing column, is
-- `none`.
pub record Factors (F : Type 0) : Type 0 where
  pub f1_si_pct : Option F
  pub f3_earnings_reaction : Option F
  pub f4_wsb_mention : Option F
  pub f5_call_oi_velocity : Option F

module _ {F : Type 0} ⦃f : Floats F⦄ where
  -- `fillna(0.0)`
  abbrev pub filled : Option F → F
  filled none = nought
  filled (some x) = x

  abbrev pub car_strength : Factors F → F
  car_strength r = f.add (filled r.f1_si_pct) (filled r.f3_earnings_reaction)

  abbrev pub gme_strength : Factors F → F
  gme_strength r = f.add (filled r.f4_wsb_mention) (filled r.f5_call_oi_velocity)

  unfoldable pub label : F → F → F → F → Setup
  label strong mixed_floor a b =
      if f.le strong a && f.lt b mixed_floor
      then Setup.car
      else if f.le strong b && f.lt a mixed_floor
      then Setup.gme
      else if f.le mixed_floor a && f.le mixed_floor b
      then Setup.mixed
      else Setup.weak

  unfoldable pub classify_setup : F → F → Factors F → Setup
  classify_setup strong mixed_floor r = label strong mixed_floor (car_strength r) (gme_strength r)
