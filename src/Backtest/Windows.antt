-- ===== src/Backtest/Windows.antt =====
-- backtest/walk_forward.py: the windows of a walk-forward run, checked before it starts.
use squeeze_hunter.Prelude.{
  ◌≤◌, ◌<◌, ◌≡◌, ◌↔◌, Bool, List, [], ◌∷◌, Outcome, ok, raised, value_error, ◌>>=◌, if◌then◌else◌,
  ltb, leb, arith, inl, inr, List-cases,
}
use squeeze_hunter.Broker.{Time}

-- The fields that the check reads. A window is its start and its end.
pub record WalkForwardConfig : Type 0 where
  pub train_start : Time
  pub train_end : Time
  pub test_windows : List (Time × Time)
  pub holdout : Time × Time

-- `if bad: raise ValueError`
abbrev refuse_if : Bool → Outcome (Unit {0})
refuse_if bad = if bad then raised value_error else ok tt

-- The first loop: each window starts before it ends.
abbrev check_each : List (Time × Time) → Outcome (Unit {0})
check_each [] = ok tt
check_each ((ws, we) ∷ windows) = refuse_if (leb we ws) >>= λ done. check_each windows

-- The second loop: no window ends after the next one starts.
abbrev check_gaps : List (Time × Time) → Outcome (Unit {0})
check_gaps [] = ok tt
check_gaps (w ∷ []) = ok tt
check_gaps (w ∷ v ∷ windows) = refuse_if (ltb v.0 w.1) >>= λ done. check_gaps (v ∷ windows)

-- The end of the last window, from that of the first.
abbrev last_end : Time → List (Time × Time) → Time
last_end end [] = end
last_end end (w ∷ windows) = last_end w.1 windows

-- The checks on the test windows, if there are any.
abbrev check_tests : Time → Time → List (Time × Time) → Outcome (Unit {0})
check_tests train_end holdout_start [] = ok tt
check_tests train_end holdout_start (w ∷ windows) = do
  _ ← refuse_if (ltb w.0 train_end)
  _ ← check_each (w ∷ windows)
  _ ← check_gaps (w ∷ windows)
  refuse_if (ltb holdout_start (last_end w.1 windows))

-- `_validate_windows`
unfoldable pub validate_windows : WalkForwardConfig → Outcome (Unit {0})
validate_windows cfg = do
  _ ← refuse_if (leb cfg.train_end cfg.train_start)
  _ ← refuse_if (leb cfg.holdout.1 cfg.holdout.0)
  _ ← refuse_if (ltb cfg.holdout.0 cfg.train_end)
  check_tests cfg.train_end cfg.holdout.0 cfg.test_windows

-- The windows follow each other from an instant on, the last before the given one.
abbrev pub Follow : Time → List (Time × Time) → Time × Time → Type 0
Follow from [] last = (from ≤ last.0) × (last.0 < last.1)
Follow from (w ∷ windows) last = (from ≤ w.0) × (w.0 < w.1) × Follow w.1 windows last

Follow-le :
    (from : Time) (windows : List (Time × Time)) (last : Time × Time)
    → Follow from windows last
    → from ≤ last.0
Follow-le from [] last h = h.0
Follow-le from (w ∷ windows) last h =
    let rest = Follow-le w.1 windows last h.2 in omega (arith, h.0, h.1)

-- The windows from w on pass both loops and end before the last one.
abbrev RowPasses : Time × Time → List (Time × Time) → Time × Time → Type 0
RowPasses w windows last =
    (check_each (w ∷ windows) ≡ ok tt)
    × (check_gaps (w ∷ windows) ≡ ok tt)
    × (last_end w.1 windows ≤ last.0)
    × (last.0 < last.1)

row :
    (w : Time × Time) (windows : List (Time × Time)) (last : Time × Time)
    → RowPasses w windows last ↔ ((w.0 < w.1) × Follow w.1 windows last)
row w [] last = ground arith
row w (v ∷ windows) last = ground (arith, row v windows last)

-- The walk-forward windows are accepted exactly when they lie in a row without overlap: the training
-- window, each test window in its order, and the holdout, each of them starting before it ends.
pub validate_windows_iff :
    (cfg : WalkForwardConfig)
    → (validate_windows cfg ≡ ok tt)
      ↔ ((cfg.train_start < cfg.train_end) × Follow cfg.train_end cfg.test_windows cfg.holdout)
unfolding validate_windows
validate_windows_iff cfg = elim (List-cases cfg.test_windows) [
  | inl e ↦ rw e (ground arith)
  | inr (w, windows, e) ↦
      let chain = row w windows cfg.holdout in
      rw e (ground (arith, chain, Follow-le w.1 windows cfg.holdout))
]
