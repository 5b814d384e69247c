-- ===== src/Ingest.antt =====
-- ingest/freshness.py: how old the data sets are. The stamps file is read by the caller.
use squeeze_hunter.Prelude.{ℕ, Option, none, some, ok, raised}
use squeeze_hunter.Prelude.Int.{sub_ℕ}
use squeeze_hunter.Prelude.Dict.{Dict, lookup}
use squeeze_hunter.Prelude.Floats.{Floats, of_nat}
use squeeze_hunter.Broker.{Time}
use squeeze_hunter.Execution.Orders.Snapshot.{IsoFormat}

-- The name of a data set is only compared, so it is a number.
abbrev pub Dataset : Type 0
Dataset = ℕ

-- One entry of the file; a text that is missing, or is no text, is `none`.
pub record FreshnessStamp (Stamp : Type 0) : Type 0 where
  pub as_of : Option Stamp
  pub recorded_at : Option Stamp

module _ {Stamp : Type 0} where
  -- The stamp of a data set, with no texts if there is none.
  abbrev stamp_or_empty : Option (FreshnessStamp Stamp) → FreshnessStamp Stamp
  stamp_or_empty none = record { as_of = none; recorded_at = none }
  stamp_or_empty (some stamp) = stamp

module _ {Stamp : Type 0} (iso : IsoFormat Stamp) where
  -- `_parse`; a text that is no time is `None`.
  abbrev pub parse : Option Stamp → Option Time
  parse none = none
  parse (some raw) = elim (iso.fromisoformat raw) [ ok t ↦ some t | raised e ↦ none ]

module _ {F : Type 0} ⦃f : Floats F⦄ where
  -- `(now - t).total_seconds() / 86_400`, in days and parts of them.
  abbrev pub days_since : Time → Time → F
  days_since now t =
      f.quotient (f.quotient (f.of_int (sub_ℕ now t)) (of_nat 1_000_000)) (of_nat 86_400)

  abbrev age_of : Time → Option Time → Option F
  age_of now none = none
  age_of now (some t) = some (days_since now t)

module _ {F Stamp : Type 0} ⦃f : Floats F⦄ (iso : IsoFormat Stamp) where
  unfoldable pub dataset_age_days : Dict (FreshnessStamp Stamp) → Dataset → Time → Option F
  dataset_age_days stamps dataset now =
      age_of now (parse iso (stamp_or_empty (lookup dataset stamps)).as_of)

  unfoldable pub recorded_age_days : Dict (FreshnessStamp Stamp) → Dataset → Time → Option F
  recorded_age_days stamps dataset now =
      age_of now (parse iso (stamp_or_empty (lookup dataset stamps)).recorded_at)
