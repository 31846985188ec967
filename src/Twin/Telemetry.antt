-- ===== src/Twin/Telemetry.antt =====
-- twin/twin_api.py: what the orchestrator takes from outside, and the telemetry that it reads.
use asterion_one.Base.{ℕ, Option, some, List, [], ◌∷◌, String, map, last_or}
use asterion_one.Base.Assoc.{Assoc, update}
use asterion_one.Base.Partial.{◌>>=◌}
use asterion_one.Twin.{Frame}
use asterion_one.Twin.Times.{sort_frames}

-- The "metrics" of a frame: missing, an object, or a text that holds one.
pub data Metrics (F : Type 0) : Type 0 where
  absent : Metrics F
  object : Assoc F → Metrics F
  encoded : String → Metrics F

-- A frame of the answer; its "timestamp" may be missing or null.
pub record RawFrame (F : Type 0) : Type 0 where
  pub timestamp : Option String
  pub metrics : Metrics F

-- What the orchestrator takes from outside: the "data" of the answer to a request for telemetry, or
-- nothing if the request or its decoding fails; `json.loads` of an object of numbers; and the clock.
pub record Outside (F : Type 0) : Type 0 where
  pub answer : String → ℕ → Option (List (RawFrame F))
  pub parse_metrics : String → Option (Assoc F)
  pub isoformat : ℕ → String
  pub utc_now : ℕ → ℕ
  pub hour_utc : String → Option String

-- `_merge_telemetry`: the latest power frame's metrics go into each thermal frame.
module _ {F : Type 0} where
  abbrev pub merged_frame : Assoc F → Frame F → Frame F
  merged_frame power frame = record frame { metrics = update frame.metrics power }

  unfoldable pub merge_telemetry : List (Frame F) → List (Frame F) → List (Frame F)
  merge_telemetry [] power = power
  merge_telemetry (t ∷ ts) [] = t ∷ ts
  merge_telemetry (t ∷ ts) (p ∷ ps) = map (merged_frame (last_or p ps).metrics) (t ∷ ts)

module _ {F : Type 0} (out : Outside F) where
  open out use {answer, parse_metrics}

  abbrev pub flat_metrics : Metrics F → Option (Assoc F)
  flat_metrics absent = some []
  flat_metrics (object metrics) = some metrics
  flat_metrics (encoded t) = parse_metrics t

  -- The frames of an answer, flattened; a text that does not parse raises.
  abbrev pub flatten : List (RawFrame F) → Option (List (Frame F))
  flatten [] = some []
  flatten (raw ∷ raws) = do
    metrics ← flat_metrics raw.metrics
    rest ← flatten raws
    some (record { timestamp = raw.timestamp; metrics = metrics } ∷ rest)

  -- The block under `try` of `_fetch_telemetry`.
  unfoldable pub fetched : String → ℕ → Option (List (Frame F))
  unfolding sort_frames
  fetched subsystem request = do
    raws ← answer subsystem request
    frames ← flatten raws
    sort_frames frames
