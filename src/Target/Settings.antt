-- ===== src/Target/Settings.antt =====
-- internal/stats/stats.go and history.go: the setters of a target, and its label and addresses.
use mping.Base.{ℕ, List, if◌then◌else◌}
use mping.Base.Int.{ℤ}
use mping.Base.Text.{String, is_empty, str_eq, ◌<>◌}
use mping.Checks.{PortCheckResult}
use mping.Target.State.{Target, Kind, PathMtuInfo, MeasurementState}
use mping.Target.Log.{record_event}
use mping.Target.Update.{touch}

module _ {F : Type 0} where
  unfoldable pub set_asn_info : String → String → String → Target F → Target F
  set_asn_info number country org t =
      touch (record t { asn = number; country = country; org = org })

  unfoldable pub set_ptr : String → Target F → Target F
  set_ptr name t = touch (record t { ptr = name })

  unfoldable pub set_dns_server : String → Target F → Target F
  set_dns_server server t = touch (record t { dns_server = server })

  unfoldable pub set_iface_mtu : ℤ → Target F → Target F
  set_iface_mtu mtu t = touch (record t { iface_mtu = mtu })

  unfoldable pub set_path_mtu : PathMtuInfo → Target F → Target F
  set_path_mtu info t = touch (record t { path_mtu = info })

  unfoldable pub set_port_results : List (PortCheckResult F) → Target F → Target F
  set_port_results results t = touch (record t { port_results = results })

  unfoldable pub set_measurement_state : MeasurementState → Target F → Target F
  set_measurement_state s t = touch (record t { measurement_state = s })

  -- `displayNameLocked`.
  unfoldable pub display_name : Target F → String
  display_name t = if is_empty t.display_name then t.host else t.display_name

  -- `SetDisplayName`: the label that is shown already is no change.
  unfoldable pub set_display_name : String → ℕ → Target F → Target F
  set_display_name name now t =
      if str_eq name (display_name t)
      then t
      else touch (
          record_event Kind.renamed ("Display name changed to " <> name) now
            (record t { display_name = name }))

  -- `SetResolveAddress` does not count as a change of what is shown.
  unfoldable pub set_resolve_address : String → Target F → Target F
  set_resolve_address address t = record t { resolve_address = address }

  -- `ResolveAddress`.
  unfoldable pub resolve_address : Target F → String
  resolve_address t = if is_empty t.resolve_address then t.host else t.resolve_address

  -- `EffectiveAddress`.
  unfoldable pub effective_address : Target F → String
  effective_address t =
      if is_empty t.ip
      then (if is_empty t.resolve_address then t.host else t.resolve_address)
      else t.ip
