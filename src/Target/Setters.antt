-- ===== src/Target/Setters.antt =====
-- The methods of internal/stats (stats.go, events.go, health.go, mtr.go) that change a target and are
-- neither a probe's nor `Reset`: none of them starts a window.
use mping.Base.{ℕ, Bool, ◌≡◌, refl, List, true, false, if◌then◌else◌, none, some}
use mping.Base.Int.{ℤ}
use mping.Base.Float.{Floats}
use mping.Base.Text.{String, str_eq, ◌<>◌}
use mping.Checks.{PortCheckResult}
use mping.Target.State.{Target, Kind, PathMtuInfo, MeasurementState, HealthPolicy}
use mping.Target.Log.{record_event_now, set_event_sink}
use mping.Target.Health.{configure_health, evaluate_health}
use mping.Target.Update.{note_ip, set_ip, mtr}
use mping.Target.Settings.{
  set_asn_info, set_ptr, set_dns_server, set_iface_mtu, set_path_mtu, set_port_results,
  set_measurement_state, display_name, set_display_name, set_resolve_address,
}
use mping.Route.{MtrStats, new_mtr_stats}
use mping.Target.Tally.{OnlyLog, OnlyJudged, record_event-OnlyLog, evaluate_health-OnlyJudged}

-- The methods, with their arguments and the time.
pub data Setter (F : Type 0) : Type 0 where
  address : String → ℕ → Setter F
  asn_info : String → String → String → Setter F
  ptr_name dns_server resolved_as : String → Setter F
  iface_mtu : ℤ → Setter F
  path_mtu : PathMtuInfo → Setter F
  port_results : List (PortCheckResult F) → Setter F
  measurement : MeasurementState → Setter F
  label : String → ℕ → Setter F
  event : Kind → String → ℕ → Setter F
  policy : HealthPolicy F → ℕ → Setter F
  route sink : Setter F

module _ {F : Type 0} (fl : Floats F) where
  unfoldable pub set_by : Setter F → Target F → Target F
  set_by (address ip now) t = set_ip ip now t
  set_by (asn_info number country org) t = set_asn_info number country org t
  set_by (ptr_name name) t = set_ptr name t
  set_by (dns_server server) t = set_dns_server server t
  set_by (resolved_as a) t = set_resolve_address a t
  set_by (iface_mtu mtu) t = set_iface_mtu mtu t
  set_by (path_mtu info) t = set_path_mtu info t
  set_by (port_results rs) t = set_port_results rs t
  set_by (measurement m) t = set_measurement_state m t
  set_by (label name now) t = set_display_name name now t
  set_by (event kind message now) t = record_event_now kind message now t
  set_by (policy p now) t = configure_health fl p now t
  set_by route t = (mtr t).1
  set_by sink t = set_event_sink t

  if-epoch :
      (b : Bool) (t1 t2 : Target F) (n : ℕ)
      → t1.probe_epoch ≡ n
      → t2.probe_epoch ≡ n
      → (if b then t1 else t2).probe_epoch ≡ n
  if-epoch true t1 t2 n p q = p
  if-epoch false t1 t2 n p q = q

  note_ip-epoch :
      (ip : String) (now : ℕ) (t : Target F) → (note_ip ip now t).probe_epoch ≡ t.probe_epoch
  unfolding note_ip OnlyLog
  note_ip-epoch ip now t =
      let (es, n, out, e) = record_event-OnlyLog Kind.dns ("IP: " <> t.ip <> " → " <> ip) now t in
      rw e refl

  evaluate-epoch : (now : ℕ) (t : Target F) → (evaluate_health fl now t).probe_epoch ≡ t.probe_epoch
  unfolding OnlyJudged
  evaluate-epoch now t = let (es, n, out, e) = evaluate_health-OnlyJudged fl now t in rw e refl

  policy-epoch :
      (p : HealthPolicy F) (now : ℕ) (t : Target F)
      → (configure_health fl p now t).probe_epoch ≡ t.probe_epoch
  unfolding configure_health
  policy-epoch p now t = evaluate-epoch now _

  pub set_by-epoch : (c : Setter F) (t : Target F) → (set_by c t).probe_epoch ≡ t.probe_epoch
  unfolding set_by set_ip set_asn_info set_ptr set_dns_server set_iface_mtu set_path_mtu
      set_port_results set_measurement_state set_display_name set_resolve_address set_event_sink
      record_event_now mtr OnlyLog
  set_by-epoch (address ip now) t = if-epoch _ _ _ _ refl (note_ip-epoch ip now _)
  set_by-epoch (asn_info number country org) t = refl
  set_by-epoch (ptr_name name) t = refl
  set_by-epoch (dns_server server) t = refl
  set_by-epoch (resolved_as a) t = refl
  set_by-epoch (iface_mtu mtu) t = refl
  set_by-epoch (path_mtu info) t = refl
  set_by-epoch (port_results rs) t = refl
  set_by-epoch (measurement m) t = refl
  set_by-epoch (label name now) t =
      let t1 = record t { display_name = name } in
      let (es, n, out, e) =
        record_event-OnlyLog Kind.renamed ("Display name changed to " <> name) now t1 in
      if-epoch (str_eq name (display_name t)) t _ t.probe_epoch refl (rw e refl)
  set_by-epoch (event kind message now) t =
      let (es, n, out, e) = record_event-OnlyLog kind message now t in rw e refl
  set_by-epoch (policy p now) t = policy-epoch p now t
  set_by-epoch route t =
      elim t.mtr_stats
        as (λ m.
          (elim m as (λ x. MtrStats × Target F) [
            | some k ↦ (k, t)
            | none ↦ (new_mtr_stats, record t { mtr_stats = some new_mtr_stats })
          ]).1.probe_epoch
          ≡ t.probe_epoch) [ some m ↦ refl | none ↦ refl ]
  set_by-epoch sink t = refl
