-- ===== src/Execution/Entries.antt =====
-- execution/entries.py: buying the planned entries after the opening window, and settling them.
pub mod Plan
pub mod Planned
pub mod Marks
pub mod Entered
pub mod Positions
pub mod Settle
pub mod Ending
pub mod Settlement
use squeeze_hunter.Prelude.{
  last, ℕ, ◌+◌, ◌-◌, ◌*◌, ◌/◌, Bool, true, false, not, ◌&&◌, ◌||◌, Option, none, some, List, [],
  ◌∷◌, Outcome, ok, raised, Exception, key_error, lookup_error, ◌>>=◌, if◌then◌else◌, ltb, leb,
  ◌==◌, get_or, keep,
}
use squeeze_hunter.Prelude.Int.{ℤ, pos, pos_part, leb_ℤ}
use squeeze_hunter.Prelude.Dict.{Dict, lookup, insert, has}
use squeeze_hunter.Prelude.Floats.{
  Floats, nought, of_nat, divide, floor_divide, fmax, truthy, or_else,
}
use squeeze_hunter.Setup.{Setup}
use squeeze_hunter.Broker.{Ticker, OrderId, Time, Side, Quote, BrokerOrder}
use squeeze_hunter.Data.{Bar}
use squeeze_hunter.Risk.Killswitch.{day}
use squeeze_hunter.Telemetry.{PortfolioTelemetry, record_position}
use squeeze_hunter.Execution.Book.{Position, Book, new_position_meta}
use squeeze_hunter.Execution.Context.{is_lookup}
use squeeze_hunter.Execution.Pricing.{round_to_tick}
use squeeze_hunter.Execution.Orders.{
  OrderState, Purpose, OrderRecord, OrderTracker, is_terminal, add, forget, open_orders, update,
  from_broker_order,
}
use squeeze_hunter.Execution.Proposals.{EntryDecision}
use squeeze_hunter.Execution.Lifecycle.{BrokerCalls, is_transient}

abbrev pub is_filled : OrderState → Bool
is_filled OrderState.filled = true
is_filled _ = false

-- The entry path's own state, with what it shares of the book and the telemetry.
pub record EntryPath (F : Type 0) : Type 0 where
  pub book : Book F
  pub telemetry : PortfolioTelemetry F
  pub planned : List (EntryDecision F)
  pub pending : OrderTracker F

-- `settings.execution`, in minutes and basis points, and the time zone: `wall` is the time that a
-- clock in New York shows at an instant, in microseconds since the epoch.
pub record EntryCfg (F : Type 0) : Type 0 where
  pub entry_after_minutes : ℕ
  pub entry_window_minutes : ℕ
  pub entry_limit_bps : F
  pub wall : Time → Time

abbrev pub minutes : ℕ → Time
minutes n = n * 60_000_000

-- 09:30, from midnight.
abbrev pub session_open : Time
session_open = minutes 570

module _ {F : Type 0} where
  -- The opening window's end on the day of `now`, by the clock in New York.
  abbrev pub window_open : EntryCfg F → Time → Time
  window_open cfg now = cfg.wall now / day * day + session_open + minutes cfg.entry_after_minutes

  abbrev pub filled_of : OrderRecord F → ℕ
  filled_of rec =
      if rec.filled_qty == 0 then (if is_filled rec.state then rec.qty else 0) else rec.filled_qty

module _ {F : Type 0} ⦃f : Floats F⦄ where
  -- `a or b`, for a number that may be absent.
  abbrev pub or_next : Option F → F → F
  or_next none y = y
  or_next (some x) y = or_else x y

  abbrev pub entry_price_of : OrderRecord F → F
  entry_price_of rec = or_next rec.avg_fill_price (or_next rec.limit_price nought)

  -- A second fill for a ticker is merged into its position, at the average price.
  abbrev merged : Position F → ℕ → F → Outcome (Position F)
  merged existing filled entry_px = do
    let total = existing.qty + filled
    price ←
        divide
          (f.add (f.mul existing.entry_price (of_nat existing.qty))
            (f.mul entry_px (of_nat filled)))
          (of_nat total)
    ok (record existing {
      entry_price = price;
      qty = total;
      peak_price = fmax existing.peak_price entry_px;
    })

  abbrev entry_position : OrderRecord F → ℕ → F → Option (Position F) → Outcome (Position F)
  entry_position rec filled entry_px (some existing) = merged existing filled entry_px
  entry_position rec filled entry_px none = do
    commission ← divide rec.commission_usd (of_nat filled)
    ok (
        new_position_meta rec.ticker filled entry_px (get_or rec.meta.score nought)
          (get_or rec.meta.setup_type Setup.mixed) commission)

  -- A terminal entry order becomes a position, or is dropped.
  unfoldable pub finish_entry : OrderRecord F → EntryPath F → Outcome (Unit {0}) × EntryPath F
  finish_entry rec s =
      let s' = record s { pending = forget rec.order_id s.pending } in
      let filled = filled_of rec in
      let entry_px = entry_price_of rec in
      if filled == 0 || f.le entry_px nought
      then (ok tt, s')
      else elim (entry_position rec filled entry_px (lookup rec.ticker s.book)) [
        | raised e ↦ (raised e, s')
        | ok meta ↦ (
          ok tt,
          record s' {
            book = insert rec.ticker meta s.book;
            telemetry = record_position rec.ticker entry_px entry_px s.telemetry;
          },
        )
      ]

  -- `_latest_cached_close`, from the bars of the last week.
  unfoldable pub latest_cached_close :
      (Ticker → Time → Time → Outcome (List (Bar F))) → Ticker → Time → Outcome F
  latest_cached_close fetch_bars ticker now = elim (fetch_bars ticker (now - 7 * day) now) [
    | raised e ↦ if is_lookup e then ok nought else raised e
    | ok bars ↦ elim (last bars) [ none ↦ ok nought | some b ↦ ok b.close ]
  ]

  abbrev pub unusable : F → Bool
  unusable ref = not (truthy ref) || f.le ref nought

-- `simulated` says that the broker is the simulator, which only knows the prices it was marked with.
module _ {F W : Type 0} ⦃f : Floats F⦄ (b : BrokerCalls F W) (cfg : EntryCfg F) (simulated : Bool)
    (fetch_bars : Ticker → Time → Time → Outcome (List (Bar F))) (now : Time) where
  -- The price to size an entry by.
  unfoldable pub reference : Ticker → Quote F → Outcome F
  reference ticker q =
      let ref = or_else q.ask (or_else q.last q.bid) in
      if unusable ref && simulated then latest_cached_close fetch_bars ticker now else ok ref

  -- The order is sent, and becomes a position or a pending record.
  unfoldable pub buy :
      EntryDecision F → F → ℕ → EntryPath F → W → Outcome (Unit {0}) × EntryPath F × W
  buy d ref qty s w =
      elim (round_to_tick
        (f.mul ref (f.add (of_nat 1) (f.quotient cfg.entry_limit_bps (of_nat 10000)))) Side.buy) [
          | raised e ↦ (raised e, s, w)
          | ok limit ↦
              let (r, w') = b.submit_buy d.ticker qty (some limit) now w in
              elim r [
                | raised e ↦ (raised e, s, w')
                | ok order ↦
                    let rec = from_broker_order order Purpose.entry now (record {
                      score = some d.score;
                      setup_type = some d.setup_type;
                      size_usd = some d.size_usd;
                    }) in
                    if is_terminal rec
                    then (let (done, s') = finish_entry rec s in (done, s', w'))
                    else (ok tt, record s { pending = add rec s.pending }, w')
              ]
        ]

  unfoldable pub enter_one :
      EntryDecision F → EntryPath F → W → Outcome (Unit {0}) × EntryPath F × W
  enter_one d s w =
      if has d.ticker s.book
      then (ok tt, s, w)
      else (let (r, w') = b.fetch_quote d.ticker w in
          elim r [
            | raised e ↦ if is_transient e then (ok tt, s, w') else (raised e, s, w')
            | ok q ↦ elim (reference d.ticker q) [
              | raised e ↦ (raised e, s, w')
              | ok ref ↦
                  if unusable ref then (ok tt, s, w') else elim (floor_divide d.size_usd ref) [
                    | raised e ↦ (raised e, s, w')
                    | ok qty ↦
                        if leb_ℤ qty (pos 0) then (ok tt, s, w') else buy d ref (pos_part qty) s w'
                  ]
            ]
          ])

  -- The loop over the plan; an error that is not caught ends it.
  unfoldable pub enter_all :
      List (EntryDecision F) → EntryPath F → W → Outcome (Unit {0}) × EntryPath F × W
  enter_all [] s w = (ok tt, s, w)
  enter_all (d ∷ ds) s w =
      let (r, s', w') = enter_one d s w in
      elim r [ raised e ↦ (raised e, s', w') | ok done ↦ enter_all ds s' w' ]

  -- `execute_planned`, with a broker.
  unfoldable pub execute_planned : Bool → EntryPath F → W → Outcome (Unit {0}) × EntryPath F × W
  execute_planned kill_active s w = elim s.planned [
    | [] ↦ (ok tt, s, w)
    | d ∷ ds ↦
        if ltb (cfg.wall now) (window_open cfg now)
        then (ok tt, s, w)
        else (let s' = record s { planned = [] } in
            if kill_active then (ok tt, s', w) else enter_all (d ∷ ds) s' w)
  ]
