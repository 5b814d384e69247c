-- ===== src/Setup.antt =====
-- The setup labels, which the source keeps as texts: the four that it names, and any other.
use squeeze_hunter.Prelude.{ℕ, ◌+◌, Bool, true, false, ◌==◌}

pub data Setup : Type 0 where
  car gme mixed weak : Setup
  unlisted : ℕ → Setup

abbrev pub is_weak : Setup → Bool
is_weak Setup.weak = true
is_weak _ = false

abbrev index : Setup → ℕ
index Setup.car = 0
index Setup.gme = 1
index Setup.mixed = 2
index Setup.weak = 3
index (Setup.unlisted n) = 4 + n

-- Equality of the texts.
abbrev pub same_setup : Setup → Setup → Bool
same_setup s t = index s == index t
