-- ===== src/Execution/Pricing.antt =====
-- execution/pricing.py: snapping a limit price to the minimum price variation.
use squeeze_hunter.Prelude.{Outcome, ok, ◌>>=◌, if◌then◌else◌}
use squeeze_hunter.Prelude.Int.{ℤ}
use squeeze_hunter.Prelude.Floats.{Floats, of_nat, divide}
use squeeze_hunter.Broker.{Side}

module _ {F : Type 0} ⦃f : Floats F⦄ where
  abbrev tick_for : F → F
  tick_for price = if f.le (of_nat 1) price then f.dec 1 2 else f.dec 1 4

  -- Sells go down and buys go up.
  abbrev snap : Side → F → Outcome ℤ
  snap Side.sell units = f.floor units
  snap Side.buy units = f.ceil units

  unfoldable pub round_to_tick : F → Side → Outcome F
  round_to_tick price side = do
    let tick = tick_for price
    ratio ← divide price tick
    snapped ← snap side (f.round_at ratio 6)
    ok (f.round_at (f.mul (f.of_int snapped) tick) 4)
