-- ===== src/Supervisor/Parts.antt =====
-- The state of cmd/main/supervisor.go and its components: `tearDownAll`, `restartRoute`, the port and HTTP
-- checkers. A component is the number it got when it was made; `live` lists those that have started
-- and have not been stopped.
use mping.Base.{ℕ, ◌+◌, Bool, Option, none, some, List, [], ◌∷◌, ◌==◌, if◌then◌else◌, false}
use mathlib.Core.List.{map}
use mping.Target.State.{Target}
use mping.Target.Update.{mtr}
use mping.Route

pub data State : Type 0 where
  stopped running terminated : State

pub data SupervisorError : Type 0 where
  is_terminated start_failed edit_refused : SupervisorError  -- the last for every error of an edit

pub record Settings : Type 0 where
  pub route_enabled : Bool
  pub count_limited : Bool
  pub has_ports : Bool
  pub has_http : Bool  -- there are URLs, and their options are valid

pub record Live : Type 0 where
  pub pingers : List ℕ
  pub routes : List ℕ
  pub ports : List ℕ
  pub https : List ℕ

-- `finished` is whether the channel of that name holds a notification, and `made` the number of the next
-- component.
pub record Supervisor (F : Type 0) : Type 0 where
  pub cfg : Settings
  pub pinger : Option ℕ
  pub route : Option ℕ
  pub port : Option ℕ
  pub http : Option ℕ
  pub state : State
  pub targets : List (Target F)
  pub finished : Bool
  pub live : Live
  pub made : ℕ

unfoldable pub release : ℕ → List ℕ → List ℕ
release n [] = []
release n (m ∷ ms) = if m == n then ms else m ∷ release n ms

-- The stop of a component, if there is one.
unfoldable pub stop_one : Option ℕ → List ℕ → List ℕ
stop_one none live = live
stop_one (some n) live = release n live

abbrev pub is_current : ℕ → Option ℕ → Bool
is_current n none = false
is_current n (some m) = m == n

abbrev pub all_targets : {F : Type 0} → (Target F → Target F) → Supervisor F → Supervisor F
all_targets f s = record s { targets = map f s.targets }

module _ {F : Type 0} where
  unfoldable pub stop_route : Supervisor F → Supervisor F
  stop_route s = record s {
    route = none;
    live = record s.live { routes = stop_one s.route s.live.routes };
  }

  -- `tearDownAll`.
  unfoldable pub tear_down_all : Supervisor F → Supervisor F
  tear_down_all s0 =
      let s = stop_route s0 in
      record s {
        live = record {
          routes = s.live.routes;
          pingers = stop_one s.pinger s.live.pingers;
          ports = stop_one s.port s.live.ports;
          https = stop_one s.http s.live.https;
        };
      }

  unfoldable pub reset_target_route : Target F → Target F
  reset_target_route t = let (m, t') = mtr t in record t' { mtr_stats = some (Route.reset m) }

  -- A new route engine probes through the pinger, if there is one.
  unfoldable pub start_route : Option ℕ → Supervisor F → Supervisor F
  start_route none s = s
  start_route (some p) s = record s {
    route = some s.made;
    live = record s.live { routes = s.made ∷ s.live.routes };
    made = s.made + 1;
  }

  -- `restartRoute`.
  unfoldable pub restart_route : Bool → Supervisor F → Supervisor F
  restart_route reset s0 =
      let s1 = stop_route s0 in
      let targets = if reset then map reset_target_route s1.targets else s1.targets in
      start_route s0.pinger (record s1 { targets = targets })

  -- `setupPortChecker` and the assignment of its result.
  unfoldable pub setup_port : Supervisor F → Supervisor F
  setup_port s =
      if s.cfg.has_ports
      then record s {
        port = some s.made;
        live = record s.live { ports = s.made ∷ s.live.ports };
        made = s.made + 1;
      }
      else record s { port = none }

  unfoldable pub setup_http : Supervisor F → Supervisor F
  setup_http s =
      if s.cfg.has_http
      then record s {
        http = some s.made;
        live = record s.live { https = s.made ∷ s.live.https };
        made = s.made + 1;
      }
      else record s { http = none }

  unfoldable pub restart_port : Supervisor F → Supervisor F
  restart_port s =
      setup_port (record s { live = record s.live { ports = stop_one s.port s.live.ports } })

  unfoldable pub restart_http : Supervisor F → Supervisor F
  restart_http s =
      setup_http (record s { live = record s.live { https = stop_one s.http s.live.https } })
