-- ===== src/Supervisor.antt =====
-- cmd/main/supervisor.go: the life cycle of the pinger, the route engine and the port and HTTP checkers,
-- one command at a time (`handle`). A component is the number it got when it was made; `live` lists
-- those that have started and have not been stopped. Whether a pinger starts, and whether its workers
-- have all finished, are the environment's: the command brings the answer. The
-- goroutines that report to the loop are left out.
use mping.Base.{
  ℕ, ◌+◌, ◌≡◌, Bool, true, false, not, ◌&&◌, Option, none, some, List, [], ◌∷◌, ◌==◌, if◌then◌else◌,
}
use mathlib.Core.List.{map}
use mping.Base.Float.{Floats}
use mping.Target.State.{Target, Kind, MeasurementState, HealthPolicy}
use mping.Target.Log.{record_event_now, set_event_sink}
use mping.Target.Health.{configure_health}
use mping.Target.Update.{mtr}
use mping.Target.Settings.{set_measurement_state}
use mping.Route
use mping.Target.Update
pub use Parts.{
  State, stopped, running, terminated, SupervisorError, is_terminated, start_failed, edit_refused,
  Settings, Live, Supervisor, is_current, all_targets,
}
unfoldable pub use Parts.{
  release, stop_one, stop_route, tear_down_all, reset_target_route, start_route, restart_route,
  setup_port, setup_http, restart_port, restart_http,
}
pub use Changes.{Edit, adding, deleting, reloading}
unfoldable pub use Changes.{apply_edit}
pub mod Parts
pub mod Changes
pub mod Edited
pub mod Sound
pub mod Runs
pub mod States
pub mod Tests

pub data Command (F : Type 0) : Type 0 where
  start restart : Bool → ℕ → Command F  -- whether the pinger starts, and the time
  stop reset_stats : ℕ → Command F
  reset_route reset_port reset_http terminate : Command F
  probes_finished : ℕ → Bool → Command F  -- the pinger, and whether all its workers have finished
  edit : Edit F → Command F

module _ {F : Type 0} where
  unfoldable pub announce : MeasurementState → Kind → ℕ → Target F → Target F
  announce m k now t =
      record_event_now k
        (elim k [ Kind.started ↦ "Measurements started" | _ ↦ "Measurements stopped" ]) now
        (set_measurement_state m t)

  -- `startAll`. A pinger that fails to start is stopped and closed at once.
  unfoldable pub start_all : Bool → ℕ → Supervisor F → Option SupervisorError × Supervisor F
  start_all starts now s0 =
      let s1 = record s0 { finished = false; made = s0.made + 1 } in
      let s2 = record s1 {
        pinger = some s0.made;
        live = record s0.live { pingers = s0.made ∷ s0.live.pingers };
      } in
      let s3 = if s0.cfg.route_enabled then restart_route false s2 else s2 in
      let s4 = record (setup_http (setup_port s3)) { state = running } in
      if starts
      then (none, all_targets (announce MeasurementState.running Kind.started now) s4)
      else (some start_failed, s1)

  unfoldable pub stop_running : ℕ → Supervisor F → Supervisor F
  stop_running now s =
      record (all_targets (announce MeasurementState.stopped Kind.stopped now) (tear_down_all s)) {
        state = stopped;
      }

  unfoldable pub end_target : Target F → Target F
  end_target t = elim t.measurement_state [
    | MeasurementState.finished ↦ t
    | _ ↦ set_measurement_state MeasurementState.stopped t
  ]

  unfoldable pub tear_down_in : State → Supervisor F → Supervisor F
  tear_down_in running s = tear_down_all s
  tear_down_in stopped s = s
  tear_down_in terminated s = s

  -- `terminate`.
  unfoldable pub terminate_all : Supervisor F → Supervisor F
  terminate_all s = record (all_targets end_target (tear_down_in s.state s)) { state = terminated }

  unfoldable pub mark_probes_finished : Bool → Supervisor F → Supervisor F
  mark_probes_finished all s =
      if all
      then record (all_targets (set_measurement_state MeasurementState.finished) s) {
        finished = s.cfg.count_limited;
      }
      else s

module _ {F : Type 0} (fl : Floats F) where
  -- The monitors that `resetAll` replaces, while running.
  unfoldable pub renew_monitors : State → Supervisor F → Supervisor F
  renew_monitors running s =
      restart_http (restart_port (if s.cfg.route_enabled then restart_route false s else s))
  renew_monitors stopped s = s
  renew_monitors terminated s = s

  -- `resetAll`.
  unfoldable pub reset_all : ℕ → Supervisor F → Supervisor F
  reset_all now s = renew_monitors s.state (all_targets (Update.reset fl now) (stop_route s))

  -- `handle`, by the state it finds.
  unfoldable pub handle_in :
      State → Command F → Supervisor F → Option SupervisorError × Supervisor F
  handle_in running (start ok now) s = (none, s)
  handle_in terminated (start ok now) s = (some is_terminated, s)
  handle_in stopped (start ok now) s = start_all ok now s
  handle_in running (restart ok now) s =
      start_all ok now (record (tear_down_all s) { state = stopped })
  handle_in terminated (restart ok now) s = (some is_terminated, s)
  handle_in stopped (restart ok now) s = start_all ok now s
  handle_in running (stop now) s = (none, stop_running now s)
  handle_in _ (stop now) s = (none, s)
  handle_in terminated (reset_stats now) s = (none, s)
  handle_in _ (reset_stats now) s = (none, reset_all now s)
  handle_in running reset_route s = (none, restart_route true s)
  handle_in _ reset_route s = (none, s)
  handle_in running reset_port s = (none, restart_port s)
  handle_in _ reset_port s = (none, s)
  handle_in running reset_http s = (none, restart_http s)
  handle_in _ reset_http s = (none, s)
  handle_in terminated terminate s = (none, s)
  handle_in _ terminate s = (none, terminate_all s)
  handle_in running (probes_finished n all) s =
      (none, if is_current n s.pinger then mark_probes_finished all s else s)
  handle_in _ (probes_finished n all) s = (none, s)
  handle_in terminated (edit e) s = (some is_terminated, s)
  handle_in _ (edit e) s = apply_edit fl e s

  abbrev pub handle : Command F → Supervisor F → Option SupervisorError × Supervisor F
  handle c s = handle_in s.state c s

  -- `newSupervisor`, with `configureTarget` for each target.
  unfoldable pub new_supervisor : Settings → HealthPolicy F → ℕ → List (Target F) → Supervisor F
  new_supervisor cfg policy now targets = record {
    cfg = cfg;
    pinger = none;
    route = none;
    port = none;
    http = none;
    state = stopped;
    targets = map (λ t. set_event_sink (configure_health fl policy now t)) targets;
    finished = false;
    live = record { pingers = []; routes = []; ports = []; https = [] };
    made = 0;
  }

  unfoldable pub handle_all : List (Command F) → Supervisor F → Supervisor F
  handle_all [] s = s
  handle_all (c ∷ cs) s = handle_all cs (handle c s).1
