-- ===== src/Supervisor/States.antt =====
-- The table of commands and states in the comment of cmd/main/supervisor.go, against `handle`.
use mping.Base.{
  ℕ, ◌≡◌, refl, ◌∙◌, Bool, true, false, Option, none, some, if◌then◌else◌, if_split, leb, ltb,
  length, not, ◌&&◌, ◌||◌, ◌==◌,
}
use mping.Supervisor.Changes.{
  Reload, runs, count_joined, count_kept, switch_route, join_added, delete_at, reloaded,
  reload_live,
}
use mping.Base.Float.{Floats}
use mping.Supervisor.{
  State, stopped, running, terminated, SupervisorError, is_terminated, start_failed, Supervisor,
  Command, start, restart, stop, reset_stats, reset_route, reset_port, reset_http, terminate,
  probes_finished, edit, Edit, adding, deleting, reloading, apply_edit, stop_route, restart_route,
  start_route, renew_monitors, setup_port, setup_http, restart_port, restart_http, start_all,
  stop_running, reset_all, terminate_all, mark_probes_finished, handle_in, handle,
}

-- The table: the state after a command, and the error it replies.
abbrev pub next_state : {F : Type 0} → State → Command F → State
next_state terminated c = terminated
next_state stopped (start starts now) = if starts then running else stopped
next_state stopped (restart starts now) = if starts then running else stopped
next_state running (restart starts now) = if starts then running else stopped
next_state running (stop now) = stopped
next_state st terminate = terminated
next_state st c = st

-- An edit replies its own error, if it has one.
abbrev pub reply :
    {F : Type 0} → Floats F → State → Command F → Supervisor F → Option SupervisorError
reply fl terminated (start starts now) s = some is_terminated
reply fl terminated (restart starts now) s = some is_terminated
reply fl terminated (edit e) s = some is_terminated
reply fl stopped (start starts now) s = if starts then none else some start_failed
reply fl stopped (restart starts now) s = if starts then none else some start_failed
reply fl running (restart starts now) s = if starts then none else some start_failed
reply fl running (edit e) s = (apply_edit fl e s).0
reply fl stopped (edit e) s = (apply_edit fl e s).0
reply fl st c s = none

module _ {F : Type 0} where
  if-state :
      (b : Bool) (s1 s2 : Supervisor F) (st : State)
      → s1.state ≡ st
      → s2.state ≡ st
      → (if b then s1 else s2).state ≡ st
  if-state true s1 s2 st p q = p
  if-state false s1 s2 st p q = q

  start_route-state : (p : Option ℕ) (s : Supervisor F) → (start_route p s).state ≡ s.state
  unfolding start_route
  start_route-state none s = refl
  start_route-state (some n) s = refl

  pub restart_route-state : (b : Bool) (s : Supervisor F) → (restart_route b s).state ≡ s.state
  restart_route-state b s = unfold restart_route stop_route in start_route-state s.pinger _

  setup_port-state : (s : Supervisor F) → (setup_port s).state ≡ s.state
  unfolding setup_port
  setup_port-state s = if-state s.cfg.has_ports _ _ _ refl refl

  setup_http-state : (s : Supervisor F) → (setup_http s).state ≡ s.state
  unfolding setup_http
  setup_http-state s = if-state s.cfg.has_http _ _ _ refl refl

  restart_port-state : (s : Supervisor F) → (restart_port s).state ≡ s.state
  restart_port-state s = unfold restart_port in setup_port-state _

  restart_http-state : (s : Supervisor F) → (restart_http s).state ≡ s.state
  restart_http-state s = unfold restart_http in setup_http-state _

  start_all-state :
      (ok : Bool) (now : ℕ) (s : Supervisor F)
      → s.state ≡ stopped
      → ((start_all ok now s).1.state ≡ (if ok then running else stopped))
        × ((start_all ok now s).0 ≡ (if ok then none else some start_failed))
  unfolding start_all
  start_all-state true now s e = (refl, refl)
  start_all-state false now s e = (e, refl)

module _ {F : Type 0} (fl : Floats F) where
  renew_monitors-state : (st : State) (s : Supervisor F) → (renew_monitors fl st s).state ≡ s.state
  unfolding renew_monitors
  renew_monitors-state running s =
      restart_http-state _
      ∙ restart_port-state _
      ∙ if-state s.cfg.route_enabled _ _ s.state (restart_route-state false s) refl
  renew_monitors-state stopped s = refl
  renew_monitors-state terminated s = refl

  reset_all-state : (now : ℕ) (s : Supervisor F) → (reset_all fl now s).state ≡ s.state
  reset_all-state now s = unfold reset_all stop_route in renew_monitors-state s.state _

  mark-state : (b : Bool) (s : Supervisor F) → (mark_probes_finished b s).state ≡ s.state
  unfolding mark_probes_finished
  mark-state b s = if-state b _ _ s.state refl refl

  abbrev Keeps : State → Option SupervisorError × Supervisor F → Type 0
  Keeps st (e, s) = s.state ≡ st

  switch_route-state : (st : State) (s : Supervisor F) → (switch_route st s).state ≡ s.state
  unfolding switch_route
  switch_route-state running s = restart_route-state false s
  switch_route-state stopped s = refl
  switch_route-state terminated s = refl

  delete_at-state :
      (position : Option ℕ) (live_pinger : Bool) (s : Supervisor F)
      → (delete_at position live_pinger s).1.state ≡ s.state
  unfolding delete_at
  delete_at-state none live_pinger s = refl
  delete_at-state (some i) live_pinger s =
      if_split (Keeps s.state) (leb (length s.targets) 1) _ _ (λ h. refl)
        (λ h.
          if_split (Keeps s.state) (runs s.state && not live_pinger) _ _ (λ k. refl) (λ k. refl))

  reloaded-state : (r : Reload F) (s : Supervisor F) → (reloaded fl r s).state ≡ s.state
  unfolding reloaded
  reloaded-state r s = if-state r.mtr_changed _ _ s.state (switch_route-state s.state _) refl

  reload_live-state : (r : Reload F) (s : Supervisor F) → (reload_live fl r s).1.state ≡ s.state
  unfolding reload_live
  reload_live-state r s =
      let changed = ltb 0 (count_joined r.slots) || not (count_kept r.slots == length s.targets) in
      let live = runs s.state && changed in
      if_split (Keeps s.state) r.probe_changed _ _ (λ h. refl)
        (λ h.
          if_split (Keeps s.state) (live && not r.live_pinger) _ _ (λ k. refl)
            (λ k.
              if_split (Keeps s.state) (live && not r.registered) _ _ (λ l. refl)
                (λ l. reloaded-state r s)))

  apply_edit-state : (e : Edit F) (s : Supervisor F) → (apply_edit fl e s).1.state ≡ s.state
  unfolding apply_edit join_added
  apply_edit-state (adding accepted ts now) s =
      if_split (Keeps s.state) accepted _ _ (λ h. refl) (λ h. refl)
  apply_edit-state (deleting position live_pinger) s = delete_at-state position live_pinger s
  apply_edit-state (reloading r) s = reload_live-state r s

  handle_in-table :
      (st : State) (c : Command F) (s : Supervisor F)
      → s.state ≡ st
      → ((handle_in fl st c s).1.state ≡ next_state st c)
        × ((handle_in fl st c s).0 ≡ reply fl st c s)
  unfolding handle_in
  handle_in-table running (start ok now) s e = (e, refl)
  handle_in-table terminated (start ok now) s e = (e, refl)
  handle_in-table stopped (start ok now) s e = start_all-state ok now s e
  handle_in-table running (restart ok now) s e = start_all-state ok now _ refl
  handle_in-table terminated (restart ok now) s e = (e, refl)
  handle_in-table stopped (restart ok now) s e = start_all-state ok now s e
  handle_in-table running (stop now) s e = unfold stop_running in (refl, refl)
  handle_in-table stopped (stop now) s e = (e, refl)
  handle_in-table terminated (stop now) s e = (e, refl)
  handle_in-table running (reset_stats now) s e = (reset_all-state now s ∙ e, refl)
  handle_in-table stopped (reset_stats now) s e = (reset_all-state now s ∙ e, refl)
  handle_in-table terminated (reset_stats now) s e = (e, refl)
  handle_in-table running reset_route s e = (restart_route-state true s ∙ e, refl)
  handle_in-table stopped reset_route s e = (e, refl)
  handle_in-table terminated reset_route s e = (e, refl)
  handle_in-table running reset_port s e = (restart_port-state s ∙ e, refl)
  handle_in-table stopped reset_port s e = (e, refl)
  handle_in-table terminated reset_port s e = (e, refl)
  handle_in-table running reset_http s e = (restart_http-state s ∙ e, refl)
  handle_in-table stopped reset_http s e = (e, refl)
  handle_in-table terminated reset_http s e = (e, refl)
  handle_in-table running terminate s e = unfold terminate_all in (refl, refl)
  handle_in-table stopped terminate s e = unfold terminate_all in (refl, refl)
  handle_in-table terminated terminate s e = (e, refl)
  handle_in-table running (probes_finished n b) s e =
      (if-state _ _ _ s.state (mark-state b s) refl ∙ e, refl)
  handle_in-table stopped (probes_finished n b) s e = (e, refl)
  handle_in-table terminated (probes_finished n b) s e = (e, refl)
  handle_in-table terminated (edit d) s e = (e, refl)
  handle_in-table running (edit d) s e = (apply_edit-state d s ∙ e, refl)
  handle_in-table stopped (edit d) s e = (apply_edit-state d s ∙ e, refl)

  -- In every state, a command brings the supervisor to the state that the table names, and replies the
  -- error that the table names. An edit of the targets is refused after the end, and else keeps the state
  -- and replies its own error.
  pub handle-table :
      (c : Command F) (s : Supervisor F)
      → ((handle fl c s).1.state ≡ next_state s.state c)
        × ((handle fl c s).0 ≡ reply fl s.state c s)
  handle-table c s = handle_in-table s.state c s refl
