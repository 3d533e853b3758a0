-- ===== src/Supervisor/Runs.antt =====
-- What runs under the supervisor of cmd/main/supervisor.go, over sequences of commands.
use mathlib.Core.Path.{subst}
use mping.Target.State.{Target, HealthPolicy}
use mping.Target.Update.{reset}
use mping.Base.{ℕ, ◌≡◌, refl, sym, ◌∙◌, ap, true, false, List, [], ◌∷◌}
use mping.Base.Float.{Floats}
use mping.Supervisor.{
  State, stopped, running, terminated, Supervisor, Command, start, restart, stop, reset_stats,
  reset_route, reset_port, reset_http, terminate, probes_finished, edit, stop_route, stop_running,
  renew_monitors, tear_down_in, reset_all, terminate_all, mark_probes_finished, all_targets,
  handle_in, handle, handle_all, new_supervisor, Settings,
}
use mping.Supervisor.States.{next_state, handle-table}
use mping.Supervisor.Edited.{apply_edit-Sound}
use mping.Supervisor.Sound.{
  Idle, Dropped, Owned, One, Has, Sound, start_all-Sound, restart_route-Has, if-Has,
  tear_down_all-Idle, restart_port-Has, restart_http-Has, stop_one-Owned,
}

module _ {F : Type 0} (fl : Floats F) where
  targets-Sound :
      (st : State) (f : Target F → Target F) (s : Supervisor F)
      → Sound st s
      → Sound st (all_targets f s)
  targets-Sound stopped f s q = q
  targets-Sound running f s q = q
  targets-Sound terminated f s q = q

  renew_monitors-Sound :
      (st : State) (s : Supervisor F) → Sound st s → Sound st (renew_monitors fl st s)
  unfolding renew_monitors
  renew_monitors-Sound stopped s q = q
  renew_monitors-Sound terminated s q = q
  renew_monitors-Sound running s q = restart_http-Has One Owned Owned _ (
      restart_port-Has One Owned Owned _ (
        if-Has One Owned Owned Owned s.cfg.route_enabled _ _
          (restart_route-Has Owned Owned false s q) q))

  stop_route-Sound : (st : State) (s : Supervisor F) → Sound st s → Sound st (stop_route s)
  unfolding stop_route
  stop_route-Sound stopped s (p, (r, d), t, h) =
      (p, (stop_one-Owned s.live.routes s.route (rw d r), refl), t, h)
  stop_route-Sound terminated s (p, (r, d), t, h) =
      (p, (stop_one-Owned s.live.routes s.route (rw d r), refl), t, h)
  stop_route-Sound running s (p, r, t, h) = (p, stop_one-Owned s.live.routes s.route r, t, h)

  tear_down_in-Sound :
      (st : State) (s : Supervisor F) → Sound st s → Sound terminated (tear_down_in st s)
  unfolding tear_down_in
  tear_down_in-Sound running s q = tear_down_all-Idle s q
  tear_down_in-Sound stopped s q = q
  tear_down_in-Sound terminated s q = q

  reset_all-Sound :
      (st : State) (now : ℕ) (s : Supervisor F)
      → s.state ≡ st
      → Sound st s
      → Sound st (reset_all fl now s)
  reset_all-Sound st now s e q =
      let s' = all_targets (reset fl now) (stop_route s) in
      let cleared : Sound st s' = targets-Sound st (reset fl now) _ (stop_route-Sound st s q) in
      unfold reset_all in
      subst (λ x. Sound st (renew_monitors fl x s')) (sym e) (renew_monitors-Sound st s' cleared)

  terminate_all-Sound :
      (st : State) (s : Supervisor F)
      → s.state ≡ st
      → Sound st s
      → Sound terminated (terminate_all s)
  terminate_all-Sound st s e q =
      unfold terminate_all in
      subst (λ x. Has Idle Dropped Idle Idle (tear_down_in x s)) (sym e) (tear_down_in-Sound st s q)

  handle_in-Sound :
      (st : State) (c : Command F) (s : Supervisor F)
      → s.state ≡ st
      → Sound st s
      → Sound (next_state st c) (handle_in fl st c s).1
  unfolding handle_in
  handle_in-Sound running (start ok now) s e q = q
  handle_in-Sound terminated (start ok now) s e q = q
  handle_in-Sound stopped (start ok now) s e q = start_all-Sound ok now s q
  handle_in-Sound running (restart ok now) s e q = start_all-Sound ok now _ (tear_down_all-Idle s q)
  handle_in-Sound terminated (restart ok now) s e q = q
  handle_in-Sound stopped (restart ok now) s e q = start_all-Sound ok now s q
  handle_in-Sound running (stop now) s e q = unfold stop_running in tear_down_all-Idle s q
  handle_in-Sound stopped (stop now) s e q = q
  handle_in-Sound terminated (stop now) s e q = q
  handle_in-Sound running (reset_stats now) s e q = reset_all-Sound running now s e q
  handle_in-Sound stopped (reset_stats now) s e q = reset_all-Sound stopped now s e q
  handle_in-Sound terminated (reset_stats now) s e q = q
  handle_in-Sound running reset_route s e q = restart_route-Has Owned Owned true s q
  handle_in-Sound stopped reset_route s e q = q
  handle_in-Sound terminated reset_route s e q = q
  handle_in-Sound running reset_port s e q = restart_port-Has One Owned Owned s q
  handle_in-Sound stopped reset_port s e q = q
  handle_in-Sound terminated reset_port s e q = q
  handle_in-Sound running reset_http s e q = restart_http-Has One Owned Owned s q
  handle_in-Sound stopped reset_http s e q = q
  handle_in-Sound terminated reset_http s e q = q
  handle_in-Sound running terminate s e q = terminate_all-Sound running s e q
  handle_in-Sound stopped terminate s e q = terminate_all-Sound stopped s e q
  handle_in-Sound terminated terminate s e q = q
  handle_in-Sound running (probes_finished n all) s e q =
      unfold mark_probes_finished in
      if-Has One Owned Owned Owned _ _ s (if-Has One Owned Owned Owned all _ s q q) q
  handle_in-Sound stopped (probes_finished n all) s e q = q
  handle_in-Sound terminated (probes_finished n all) s e q = q
  handle_in-Sound running (edit d) s e q = apply_edit-Sound fl running d s e q
  handle_in-Sound stopped (edit d) s e q = apply_edit-Sound fl stopped d s e q
  handle_in-Sound terminated (edit d) s e q = q

  handle-Sound :
      (c : Command F) (s : Supervisor F)
      → Sound s.state s
      → let s' = (handle fl c s).1 in Sound s'.state s'
  handle-Sound c s q = rw (handle-table fl c s).0 (handle_in-Sound s.state c s refl q)

  -- Every sequence of commands, edits of the targets among them, keeps the following. While the
  -- supervisor runs, exactly the components that it holds are live, one pinger among them. In the other
  -- states nothing is live and it holds no route engine.
  pub handle_all-Sound :
      (cs : List (Command F)) (s : Supervisor F)
      → Sound s.state s
      → let s' = handle_all fl cs s in Sound s'.state s'
  unfolding handle_all
  handle_all-Sound [] s q = q
  handle_all-Sound (c ∷ cs) s q = handle_all-Sound cs (handle fl c s).1 (handle-Sound c s q)

  pub new_supervisor-Sound :
      (cfg : Settings) (policy : HealthPolicy F) (now : ℕ) (ts : List (Target F))
      → let s = new_supervisor fl cfg policy now ts in Sound s.state s
  unfolding new_supervisor
  new_supervisor-Sound cfg policy now ts = (refl, (refl, refl), refl, refl)

  handle_in-terminated : (c : Command F) (s : Supervisor F) → (handle_in fl terminated c s).1 ≡ s
  unfolding handle_in
  handle_in-terminated (start ok now) s = refl
  handle_in-terminated (restart ok now) s = refl
  handle_in-terminated (stop now) s = refl
  handle_in-terminated (reset_stats now) s = refl
  handle_in-terminated reset_route s = refl
  handle_in-terminated reset_port s = refl
  handle_in-terminated reset_http s = refl
  handle_in-terminated terminate s = refl
  handle_in-terminated (probes_finished n all) s = refl
  handle_in-terminated (edit d) s = refl

  -- A terminated supervisor is the same, whatever commands follow, edits of the targets
  -- among them: none starts a component,
  -- leaves the state, or changes a target.
  pub handle_all-terminated :
      (cs : List (Command F)) (s : Supervisor F) → s.state ≡ terminated → handle_all fl cs s ≡ s
  unfolding handle_all
  handle_all-terminated [] s e = refl
  handle_all-terminated (c ∷ cs) s e =
      let same : (handle fl c s).1 ≡ s =
        ap (λ st. (handle_in fl st c s).1) e ∙ handle_in-terminated c s in
      rw same (handle_all-terminated cs s e)
