-- ===== src/Target/Fresh.antt =====
-- `Reset` of internal/stats/stats.go against `NewTargetStats`.
use mping.Base.{ℕ, ◌+◌, ◌≡◌, refl}
use mathlib.Core.Option
use mping.Base.Float.{Floats}
use mping.Base.Text.{String}
use mping.Route
use mping.Route.{MtrStats, new_mtr_stats}
use mping.Target.State.{Target, Kind}
use mping.Target.New.{new_target_stats}
use mping.Target.Update.{reset, clear, fresh_health}
use mping.Target.Tally.{OnlyLog, record_event-OnlyLog}

-- Two targets have measured the same, and their judgments are the same, whatever their policies.
pub record SameMeasurements {F : Type 0} (t t' : Target F) : Type 0 where
  pub sent : t.sent ≡ t'.sent
  pub cancelled : t.cancelled ≡ t'.cancelled
  pub recv : t.recv ≡ t'.recv
  pub loss : t.loss ≡ t'.loss
  pub duplicates : t.duplicates ≡ t'.duplicates
  pub late_replies : t.late_replies ≡ t'.late_replies
  pub last_rtt : t.last_rtt ≡ t'.last_rtt
  pub last_ttl : t.last_ttl ≡ t'.last_ttl
  pub last_loss_time : t.last_loss_time ≡ t'.last_loss_time
  pub last_error : t.last_error ≡ t'.last_error
  pub rtt : t.rtt ≡ t'.rtt
  pub history_times : t.history_times ≡ t'.history_times
  pub jitter : t.jitter ≡ t'.jitter
  pub window_started_at : t.window_started_at ≡ t'.window_started_at
  pub health :
      t.health ≡ record t'.health { policy = t.health.policy; configured = t.health.configured }

-- Two targets are the same but for what a window measures, the event log and the window itself.
pub record SameSetup {F : Type 0} (t t' : Target F) : Type 0 where
  pub id : t.id ≡ t'.id
  pub host : t.host ≡ t'.host
  pub started_at : t.started_at ≡ t'.started_at
  pub ip : t.ip ≡ t'.ip
  pub ip_history : t.ip_history ≡ t'.ip_history
  pub ip_changes : t.ip_changes ≡ t'.ip_changes
  pub asn : t.asn ≡ t'.asn
  pub country : t.country ≡ t'.country
  pub org : t.org ≡ t'.org
  pub ptr : t.ptr ≡ t'.ptr
  pub dns_server : t.dns_server ≡ t'.dns_server
  pub iface_mtu : t.iface_mtu ≡ t'.iface_mtu
  pub path_mtu : t.path_mtu ≡ t'.path_mtu
  pub port_results : t.port_results ≡ t'.port_results
  pub display_name : t.display_name ≡ t'.display_name
  pub resolve_address : t.resolve_address ≡ t'.resolve_address
  pub measurement_state : t.measurement_state ≡ t'.measurement_state
  pub policy : t.health.policy ≡ t'.health.policy
  pub configured : t.health.configured ≡ t'.health.configured

-- The statistics of a route, if there were any, are new ones, but for the count of changes.
abbrev pub new_route : MtrStats → MtrStats
new_route m = record new_mtr_stats { mutations = m.mutations + 1 }

module _ {F : Type 0} (fl : Floats F) where
  -- After a reset, every measurement and the judgment are those of a target that is created at that
  -- moment, under whatever identity; a route that was measured has no hops and no changes. The window is
  -- the next. Everything else is as before: the identity, the addresses and their history, the names,
  -- the port results, the state of measurement and the health policy.
  pub reset_lem :
      (id now : ℕ) (host : String) (t : Target F)
      → let t' = reset fl now t in
        SameMeasurements t' (new_target_stats fl id host now)
        × (t'.mtr_stats ≡ Option.map new_route t.mtr_stats)
        × (t'.probe_epoch ≡ t.probe_epoch + 1)
        × SameSetup t' t
  unfolding reset clear Route.reset fresh_health new_target_stats OnlyLog
  reset_lem id now host t =
      let (es, n, out, e) =
        record_event-OnlyLog Kind.reset_window "Statistics reset" now
          (record t { probe_epoch = t.probe_epoch + 1; window_started_at = now }) in
      rw e (
        record {
          sent = refl;
          cancelled = refl;
          recv = refl;
          loss = refl;
          duplicates = refl;
          late_replies = refl;
          last_rtt = refl;
          last_ttl = refl;
          last_loss_time = refl;
          last_error = refl;
          rtt = refl;
          history_times = refl;
          jitter = refl;
          window_started_at = refl;
          health = refl;
        },
        refl,
        refl,
        record {
          id = refl;
          host = refl;
          started_at = refl;
          ip = refl;
          ip_history = refl;
          ip_changes = refl;
          asn = refl;
          country = refl;
          org = refl;
          ptr = refl;
          dns_server = refl;
          iface_mtu = refl;
          path_mtu = refl;
          port_results = refl;
          display_name = refl;
          resolve_address = refl;
          measurement_state = refl;
          policy = refl;
          configured = refl;
        },
      )
