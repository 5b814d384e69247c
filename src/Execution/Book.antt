-- ===== src/Execution/Book.antt =====
-- execution/book.py: the record of one position, and the profit of a sale.
use squeeze_hunter.Prelude.{
  ℕ, Bool, false, Option, none, List, [], Outcome, ok, ◌>>=◌, if◌then◌else◌,
}
use squeeze_hunter.Prelude.Floats.{Floats, nought, of_nat, divide}
use squeeze_hunter.Prelude.Dict.{Dict}
use squeeze_hunter.Broker.{Ticker, OrderId}
use squeeze_hunter.Setup.{Setup}
use squeeze_hunter.Risk.Stops.{Action}

-- The keys of a position dict. The optional ones, absent or present: no pending exit is an empty
-- list, and the others are `none`.
pub record Position (F : Type 0) : Type 0 where
  pub ticker : Ticker
  pub qty : ℕ
  pub entry_price : F
  pub peak_price : F
  pub entry_score : F
  pub current_score : F
  pub bars_held : ℕ
  pub setup_type : Setup
  pub halved : Bool
  pub entry_commission_per_share : F
  pub pending_exits : List OrderId
  pub pending_action : Option Action
  pub pending_qty : Option ℕ
  pub last_mark : Option F

abbrev pub Book : Type 0 → Type 0
Book F = Dict (Position F)

module _ {F : Type 0} where
  unfoldable pub new_position_meta : Ticker → ℕ → F → F → Setup → F → Position F
  new_position_meta ticker qty entry_price score setup_type commission = record {
    ticker = ticker;
    qty = qty;
    entry_price = entry_price;
    peak_price = entry_price;
    entry_score = score;
    current_score = score;
    bars_held = 0;
    setup_type = setup_type;
    halved = false;
    entry_commission_per_share = commission;
    pending_exits = [];
    pending_action = none;
    pending_qty = none;
    last_mark = none;
  }

module _ {F : Type 0} ⦃f : Floats F⦄ where
  pub realized_pnl : Position F → ℕ → F → F → Outcome (F × F)
  realized_pnl meta qty fill_price sell_commission =
      let entry = meta.entry_price in
      let gross = f.mul (f.sub fill_price entry) (of_nat qty) in
      let realized =
        f.sub (f.sub gross (f.mul meta.entry_commission_per_share (of_nat qty))) sell_commission in
      let cost_basis = f.mul entry (of_nat qty) in
      if f.lt nought cost_basis
      then (divide realized cost_basis >>= λ pct. ok (realized, pct))
      else ok (realized, nought)
