-- ===== src/Supervisor/Tests.antt =====
-- The supervisor of cmd/main/supervisor.go on a short session.
use mping.Base.{ℕ, ◌≡◌, refl, List, [], ◌∷◌, true, false}
use mping.Base.Sample.{whole}
use mping.Target.New.{new_target_stats}
use mping.Target.Health.{default_policy}
use mping.Supervisor.{
  terminated, Settings, Supervisor, Command, start, restart, stop, reset_stats, reset_route, edit,
  reloading, handle, handle_all, new_supervisor,
}
use mping.Supervisor.Changes.{Reload, kept, joined}
use mping.Supervisor.Sound.{Sound}
use mping.Supervisor.States.{next_state, reply, handle-table}
use mping.Supervisor.Runs.{handle_all-Sound, handle_all-terminated, new_supervisor-Sound}

abbrev all_monitors : Settings
all_monitors = record {
  route_enabled = true;
  count_limited = false;
  has_ports = true;
  has_http = true;
}

abbrev begin : Supervisor ℕ
begin =
    new_supervisor whole all_monitors (default_policy whole) 1000
      (new_target_stats whole 1 "192.0.2.1" 1000 ∷ [])

-- A reload that keeps the target, adds one, and switches the mode of the route monitoring.
abbrev switching : Reload ℕ
switching = record {
  probe_changed = false;
  slots = kept 0 "core" ∷ joined (new_target_stats whole 2 "192.0.2.2" 1003) "edge" ∷ [];
  live_pinger = true;
  registered = true;
  policy = default_policy whole;
  mtr_changed = true;
  now = 1003;
}

abbrev editing : Command ℕ
editing = edit (reloading switching)

abbrev session : List (Command ℕ)
session =
    start true 1001 ∷ reset_stats 1002 ∷ editing ∷ restart true 1004 ∷ reset_route ∷ stop 1005 ∷ []

handle_all-Sound_example : let s' = handle_all whole session begin in Sound s'.state s'
handle_all-Sound_example =
    handle_all-Sound whole session begin
      (new_supervisor-Sound whole all_monitors (default_policy whole) 1000 _)

handle-table_example :
    ((handle whole editing begin).1.state ≡ next_state begin.state editing)
    × ((handle whole editing begin).0 ≡ reply whole begin.state editing begin)
handle-table_example = handle-table whole editing begin

abbrev over : Supervisor ℕ
over = record begin { state = terminated }

handle_all-terminated_example : handle_all whole session over ≡ over
handle_all-terminated_example = handle_all-terminated whole session over refl
