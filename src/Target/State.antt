-- ===== src/Target/State.antt =====
-- internal/stats/stats.go, health.go, events.go, history.go: the records of a target's statistics.
-- A time is a number of nanoseconds since 1970, `none` for the zero time.
use mping.Base.{ℕ, Bool, Option, List}
use mping.Base.Int.{ℤ}
use mping.Base.Text.{String}
use mping.Rtt.{RttAccumulator}
use mping.Thresholds.{Thresholds}
use mping.Route.{MtrStats}
use mping.Checks.{PortCheckResult}

-- The kinds of event that the program records.
pub data Kind : Type 0 where
  dns recovery ping reset_window renamed health started stopped added removed : Kind

pub record Event : Type 0 where
  pub count : ℕ
  pub last_at : ℕ
  pub at : ℕ
  pub target_id : ℕ
  pub kind : Kind
  pub message : String

pub record IpChange : Type 0 where
  pub at : ℕ
  pub ip : String

pub record PathMtuInfo : Type 0 where
  pub ip : String
  pub mtu : ℤ
  pub payload : ℤ
  pub source : String
  pub status : String
  pub bottleneck_ip : String

pub record HealthPolicy (F : Type 0) : Type 0 where
  pub failures : ℤ
  pub recoveries : ℤ
  pub window : ℤ
  pub thresholds : Thresholds F

-- `unset` is the empty status of a target that was never judged.
pub data Status : Type 0 where
  unset pending ok warn crit : Status

pub record OutcomeBucket : Type 0 where
  pub second : ℕ
  pub replies : ℕ
  pub losses : ℕ

pub record TargetHealth (F : Type 0) : Type 0 where
  pub policy : HealthPolicy F
  pub configured : Bool
  pub status : Status
  pub reason : String
  pub since : Option ℕ
  pub last_probe : Option ℕ
  pub last_reply : Option ℕ
  pub failures : ℕ
  pub successes : ℕ
  pub down : Bool
  pub buckets : List OutcomeBucket
  pub recent_received : ℕ
  pub recent_lost : ℕ
  pub evaluated_at : Option ℕ

-- The lifecycle state that the supervisor records.
pub data MeasurementState : Type 0 where
  running stopped finished : MeasurementState

-- `sink` is whether an event sink is installed, and `sunk` what it has been given, newest first.
-- `mutations` is this target's share of the process-wide counter of dirty.go.
pub record Target (F : Type 0) : Type 0 where
  pub id : ℕ
  pub host : String
  pub started_at : ℕ
  pub window_started_at : ℕ
  pub ip_history : List IpChange
  pub ip_changes : ℕ
  pub cancelled : ℕ
  pub ip : String
  pub asn : String
  pub country : String
  pub org : String
  pub ptr : String
  pub dns_server : String
  pub iface_mtu : ℤ
  pub path_mtu : PathMtuInfo
  pub port_results : List (PortCheckResult F)
  pub mtr_stats : Option MtrStats
  pub sent : ℕ
  pub recv : ℕ
  pub loss : ℕ
  pub duplicates : ℕ
  pub late_replies : ℕ
  pub last_rtt : ℤ
  pub last_ttl : ℤ
  pub last_loss_time : Option ℕ
  pub last_error : String
  pub rtt : RttAccumulator F
  pub jitter : ℤ
  pub events : List Event
  pub events_dropped : ℕ
  pub probe_epoch : ℕ
  pub display_name : String
  pub resolve_address : String
  pub health : TargetHealth F
  pub history_times : Option (List ℕ)
  pub measurement_state : MeasurementState
  pub sink : Bool
  pub sunk : List Event
  pub mutations : ℕ
