-- ===== src/Supervisor/Changes.antt =====
-- The edits of targets that `handle` of cmd/main/supervisor.go runs (`cmdEditTargets`): those of `addHost`,
-- `deleteHost` and `deleteTargetID` in live_targets.go and of `reloadLive` in live_reload.go, as they
-- change the supervisor. The hosts behind them are in Edits; what those decide is an answer here.
-- A target that leaves goes to the archive, which is in Edits too.
use mping.Base.{
  ℕ, suc, Bool, true, false, not, ◌&&◌, ◌||◌, Option, none, some, List, [], ◌∷◌, ◌++◌, ltb, leb,
  ◌==◌, if◌then◌else◌, length, get_elem?, take, drop,
}
use mathlib.Core.List.{map}
use mping.Base.Float.{Floats}
use mping.Base.Text.{String}
use mping.Target.State.{Target, Kind, MeasurementState, HealthPolicy}
use mping.Target.Log.{record_event_now, set_event_sink}
use mping.Target.Health.{configure_health}
use mping.Target.Settings.{set_measurement_state, set_display_name}
use mping.Supervisor.Parts.{
  State, stopped, running, terminated, SupervisorError, edit_refused, Supervisor, restart_route,
}

-- A target of a reloaded list, with its label: one of the supervisor's, by its position, or a new one.
pub data Slot (F : Type 0) : Type 0 where
  kept : ℕ → String → Slot F
  joined : Target F → String → Slot F

-- The arguments of `reloadLive`: whether a setting of the probes differs, what
-- `reconcileTargets` made of the list, whether the pinger takes live edits and the new targets, the health policy, and whether the
-- mode of the route monitoring differs.
pub record Reload (F : Type 0) : Type 0 where
  pub probe_changed : Bool
  pub slots : List (Slot F)
  pub live_pinger : Bool
  pub registered : Bool
  pub policy : HealthPolicy F
  pub mtr_changed : Bool
  pub now : ℕ

-- `adding`: whether it is accepted, the new targets, and the time. `deleting`: the position of the
-- target, if there is one such target, and whether the pinger takes live edits.
pub data Edit (F : Type 0) : Type 0 where
  adding : Bool → List (Target F) → ℕ → Edit F
  deleting : Option ℕ → Bool → Edit F
  reloading : Reload F → Edit F

abbrev pub runs : State → Bool
runs running = true
runs stopped = false
runs terminated = false

module _ {F : Type 0} where
  -- The end of `attachTargetMonitors`, and the event.
  unfoldable pub attach : State → String → ℕ → Target F → Target F
  attach st detail now t =
      record_event_now Kind.added detail now
        (if runs st then t else set_measurement_state MeasurementState.stopped t)

  abbrev pub count_joined : List (Slot F) → ℕ
  count_joined [] = 0
  count_joined (kept i label ∷ ss) = count_joined ss
  count_joined (joined t label ∷ ss) = suc (count_joined ss)

  abbrev pub count_kept : List (Slot F) → ℕ
  count_kept [] = 0
  count_kept (kept i label ∷ ss) = suc (count_kept ss)
  count_kept (joined t label ∷ ss) = count_kept ss

  -- A reload that switches between traceroute and mtr, while running.
  unfoldable pub switch_route : State → Supervisor F → Supervisor F
  switch_route running s = restart_route false s
  switch_route stopped s = s
  switch_route terminated s = s

  unfoldable pub join_added : List (Target F) → ℕ → Supervisor F → Supervisor F
  join_added ts now s = record s {
    targets = s.targets ++ map (attach s.state "Target added" now) ts;
    finished = false;
  }

  unfoldable pub delete_at : Option ℕ → Bool → Supervisor F → Option SupervisorError × Supervisor F
  delete_at none live_pinger s = (some edit_refused, s)
  delete_at (some i) live_pinger s =
      if leb (length s.targets) 1
      then (some edit_refused, s)
      else if runs s.state && not live_pinger
      then (some edit_refused, s)
      else (none, record s { targets = take i s.targets ++ drop (suc i) s.targets })

module _ {F : Type 0} (fl : Floats F) where
  -- The label and the policy of a reload, and `configureTarget`.
  unfoldable pub relabel : Reload F → String → Target F → Target F
  relabel r label t =
      set_event_sink (configure_health fl r.policy r.now (set_display_name label r.now t))

  -- A position out of range, which `reconcileTargets` never gives, adds no target.
  abbrev pub found_target : Option (Target F) → (Target F → Target F) → List (Target F)
  found_target none f = []
  found_target (some t) f = f t ∷ []

  unfoldable pub fill_slots : Reload F → State → List (Target F) → List (Slot F) → List (Target F)
  fill_slots r st old [] = []
  fill_slots r st old (kept i label ∷ ss) =
      found_target (get_elem? old i) (relabel r label) ++ fill_slots r st old ss
  fill_slots r st old (joined t label ∷ ss) =
      attach st "Target added by configuration reload" r.now (relabel r label t)
      ∷ fill_slots r st old ss

  unfoldable pub reloaded : Reload F → Supervisor F → Supervisor F
  reloaded r s0 =
      let s1 = record s0 { targets = fill_slots r s0.state s0.targets r.slots } in
      let s2 = if r.mtr_changed then switch_route s0.state s1 else s1 in
      record s2 { finished = if ltb 0 (count_joined r.slots) then false else s2.finished }

  -- `reloadLive`; that it was not applied, with the reason, is no error.
  unfoldable pub reload_live : Reload F → Supervisor F → Option SupervisorError × Supervisor F
  reload_live r s =
      let changed = ltb 0 (count_joined r.slots) || not (count_kept r.slots == length s.targets) in
      let live = runs s.state && changed in
      if r.probe_changed
      then (none, s)
      else if live && not r.live_pinger
      then (none, s)
      else if live && not r.registered
      then (some edit_refused, s)
      else (none, reloaded r s)

  unfoldable pub apply_edit : Edit F → Supervisor F → Option SupervisorError × Supervisor F
  apply_edit (adding accepted ts now) s =
      if accepted then (none, join_added ts now s) else (some edit_refused, s)
  apply_edit (deleting position live_pinger) s = delete_at position live_pinger s
  apply_edit (reloading r) s = reload_live r s
