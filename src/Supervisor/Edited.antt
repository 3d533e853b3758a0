-- ===== src/Supervisor/Edited.antt =====
-- What runs under the supervisor of cmd/main/supervisor.go through an edit of its targets: the same
-- components, but for the route engine that a reload restarts.
use mathlib.Core.Path.{subst}
use mping.Base.{
  ℕ, ◌≡◌, sym, Bool, false, not, ◌&&◌, ◌||◌, Option, none, some, List, ltb, leb, ◌==◌, if_split,
  if◌then◌else◌, length,
}
use mping.Base.Float.{Floats}
use mping.Target.State.{Target}
use mping.Supervisor.{
  State, stopped, running, terminated, SupervisorError, Supervisor, Edit, adding, deleting,
  reloading, apply_edit,
}
use mping.Supervisor.Changes.{
  Reload, runs, count_joined, count_kept, switch_route, join_added, delete_at, fill_slots, reloaded,
  reload_live,
}
use mping.Supervisor.Sound.{Owned, Sound, restart_route-Has}

module _ {F : Type 0} where
  -- Targets and notifications are no components.
  frame-Sound :
      (st : State) (ts : List (Target F)) (b : Bool) (s : Supervisor F)
      → Sound st s
      → Sound st (record s { targets = ts; finished = b })
  frame-Sound running ts b s q = q
  frame-Sound stopped ts b s q = q
  frame-Sound terminated ts b s q = q

  switch_route-Sound : (st : State) (s : Supervisor F) → Sound st s → Sound st (switch_route st s)
  unfolding switch_route
  switch_route-Sound running s q = restart_route-Has Owned Owned false s q
  switch_route-Sound stopped s q = q
  switch_route-Sound terminated s q = q

  -- What holds of the supervisor after an edit.
  abbrev Leaves : State → Option SupervisorError × Supervisor F → Type 0
  Leaves st (e, s) = Sound st s

  delete_at-Sound :
      (st : State) (position : Option ℕ) (live_pinger : Bool) (s : Supervisor F)
      → Sound st s
      → Leaves st (delete_at position live_pinger s)
  unfolding delete_at
  delete_at-Sound st none live_pinger s q = q
  delete_at-Sound st (some i) live_pinger s q =
      if_split (Leaves st) (leb (length s.targets) 1) _ _ (λ h. q)
        (λ h.
          if_split (Leaves st) (runs s.state && not live_pinger) _ _ (λ k. q)
            (λ k. frame-Sound st _ s.finished s q))

module _ {F : Type 0} (fl : Floats F) where
  reloaded-Sound :
      (st : State) (r : Reload F) (s : Supervisor F)
      → s.state ≡ st
      → Sound st s
      → Sound st (reloaded fl r s)
  unfolding reloaded
  reloaded-Sound st r s e q =
      let s1 = record s { targets = fill_slots fl r s.state s.targets r.slots } in
      let q1 : Sound st s1 = frame-Sound st _ s.finished s q in
      let switched : Sound st (switch_route s.state s1) =
        subst (λ x. Sound st (switch_route x s1)) (sym e) (switch_route-Sound st s1 q1) in
      let s2 = if r.mtr_changed then switch_route s.state s1 else s1 in
      let q2 : Sound st s2 = if_split (Sound st) r.mtr_changed _ s1 (λ h. switched) (λ h. q1) in
      frame-Sound st s2.targets _ s2 q2

  reload_live-Sound :
      (st : State) (r : Reload F) (s : Supervisor F)
      → s.state ≡ st
      → Sound st s
      → Leaves st (reload_live fl r s)
  unfolding reload_live
  reload_live-Sound st r s e q =
      let changed = ltb 0 (count_joined r.slots) || not (count_kept r.slots == length s.targets) in
      let live = runs s.state && changed in
      if_split (Leaves st) r.probe_changed _ _ (λ h. q)
        (λ h.
          if_split (Leaves st) (live && not r.live_pinger) _ _ (λ k. q)
            (λ k.
              if_split (Leaves st) (live && not r.registered) _ _ (λ l. q)
                (λ l. reloaded-Sound st r s e q)))

  pub apply_edit-Sound :
      (st : State) (e : Edit F) (s : Supervisor F)
      → s.state ≡ st
      → Sound st s
      → Sound st (apply_edit fl e s).1
  unfolding apply_edit join_added
  apply_edit-Sound st (adding accepted ts now) s e q =
      if_split (Leaves st) accepted _ _ (λ h. frame-Sound st _ false s q) (λ h. q)
  apply_edit-Sound st (deleting position live_pinger) s e q =
      delete_at-Sound st position live_pinger s q
  apply_edit-Sound st (reloading r) s e q = reload_live-Sound st r s e q
