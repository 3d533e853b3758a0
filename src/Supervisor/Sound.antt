-- ===== src/Supervisor/Sound.antt =====
-- What runs under the supervisor of cmd/main/supervisor.go: never two components of a kind, and none
-- that the supervisor has lost.
use mping.Base.{
  ℕ, ◌+◌, ◌≡◌, refl, ap, Bool, true, false, Option, none, some, List, [], ◌∷◌, arith, if◌then◌else◌,
}
use mping.Supervisor.{
  State, stopped, running, terminated, Supervisor, release, stop_one, stop_route, tear_down_all,
  restart_route, setup_port, setup_http, restart_port, restart_http, start_all, start_route,
}

-- A component of one kind: what is live, against what the supervisor holds.
abbrev pub Idle : List ℕ → Option ℕ → Type 0
Idle live held = live ≡ []

abbrev pub Dropped : List ℕ → Option ℕ → Type 0
Dropped live held = (live ≡ []) × (held ≡ none)

-- Exactly the component held is live.
abbrev pub list_of : Option ℕ → List ℕ
list_of none = []
list_of (some n) = n ∷ []

abbrev pub Owned : List ℕ → Option ℕ → Type 0
Owned live held = live ≡ list_of held

abbrev pub One : List ℕ → Option ℕ → Type 0
One live held = (n : ℕ) × (live ≡ n ∷ []) × (held ≡ some n)

pub stop_one-Owned : (live : List ℕ) (held : Option ℕ) → Owned live held → stop_one held live ≡ []
unfolding stop_one release
stop_one-Owned live none e = e
stop_one-Owned live (some n) e = rw e (ground arith)

stop_one-One : (live : List ℕ) (held : Option ℕ) → One live held → stop_one held live ≡ []
unfolding stop_one release
stop_one-One live held (n, e, h) = rw (e, h) (ground arith)

module _ {F : Type 0} where
  -- The pinger, the route engine, the port checker and the HTTP checker.
  abbrev pub Has : (P R T H : List ℕ → Option ℕ → Type 0) → Supervisor F → Type 0
  Has P R T H s =
      P s.live.pingers s.pinger
      × R s.live.routes s.route
      × T s.live.ports s.port
      × H s.live.https s.http

  pub tear_down_all-Idle :
      (s : Supervisor F)
      → Has One Owned Owned Owned s
      → Has Idle Dropped Idle Idle (tear_down_all s)
  unfolding tear_down_all stop_route
  tear_down_all-Idle s (p, r, t, h) = (
    stop_one-One s.live.pingers s.pinger p,
    (stop_one-Owned s.live.routes s.route r, refl),
    stop_one-Owned s.live.ports s.port t,
    stop_one-Owned s.live.https s.http h,
  )

  pub restart_route-Has :
      (T H : List ℕ → Option ℕ → Type 0) (b : Bool) (s : Supervisor F)
      → Has One Owned T H s
      → Has One Owned T H (restart_route b s)
  unfolding restart_route start_route stop_route
  restart_route-Has T H b s ((n, e, q), r, t, h) =
      rw q ((n, e, refl), ap (λ l. s.made ∷ l) (stop_one-Owned s.live.routes s.route r), t, h)

  pub if-Has :
      (P R T H : List ℕ → Option ℕ → Type 0) (b : Bool) (s s' : Supervisor F)
      → Has P R T H s
      → Has P R T H s'
      → Has P R T H (if b then s else s')
  if-Has P R T H true s s' x y = x
  if-Has P R T H false s s' x y = y

  setup_port-Has :
      (P R H : List ℕ → Option ℕ → Type 0) (s : Supervisor F)
      → Has P R Idle H s
      → Has P R Owned H (setup_port s)
  unfolding setup_port
  setup_port-Has P R H s (p, r, t, h) =
      if-Has P R Owned H s.cfg.has_ports _ _ (p, r, ap (λ l. s.made ∷ l) t, h) (p, r, t, h)

  setup_http-Has :
      (P R T : List ℕ → Option ℕ → Type 0) (s : Supervisor F)
      → Has P R T Idle s
      → Has P R T Owned (setup_http s)
  unfolding setup_http
  setup_http-Has P R T s (p, r, t, h) =
      if-Has P R T Owned s.cfg.has_http _ _ (p, r, t, ap (λ l. s.made ∷ l) h) (p, r, t, h)

  pub restart_port-Has :
      (P R H : List ℕ → Option ℕ → Type 0) (s : Supervisor F)
      → Has P R Owned H s
      → Has P R Owned H (restart_port s)
  unfolding restart_port
  restart_port-Has P R H s (p, r, t, h) =
      setup_port-Has P R H _ (p, r, stop_one-Owned s.live.ports s.port t, h)

  pub restart_http-Has :
      (P R T : List ℕ → Option ℕ → Type 0) (s : Supervisor F)
      → Has P R T Owned s
      → Has P R T Owned (restart_http s)
  unfolding restart_http
  restart_http-Has P R T s (p, r, t, h) =
      setup_http-Has P R T _ (p, r, t, stop_one-Owned s.live.https s.http h)

  -- While the supervisor runs, exactly the components that it holds are live, the pinger among them. In
  -- the other states nothing is live, and it holds no route engine.
  abbrev pub Sound : State → Supervisor F → Type 0
  Sound running s = Has One Owned Owned Owned s
  Sound stopped s = Has Idle Dropped Idle Idle s
  Sound terminated s = Has Idle Dropped Idle Idle s

  pub start_all-Sound :
      (ok : Bool) (now : ℕ) (s : Supervisor F)
      → Has Idle Dropped Idle Idle s
      → Sound (if ok then running else stopped) (start_all ok now s).1
  unfolding start_all
  start_all-Sound false now s q = q
  start_all-Sound true now s (p, (r, d), t, h) =
      let s2 = record s {
        finished = false;
        made = s.made + 1;
        pinger = some s.made;
        live = record s.live { pingers = s.made ∷ s.live.pingers };
      } in
      let q2 : Has One Owned Idle Idle s2 =
        ((s.made, ap (λ l. s.made ∷ l) p, refl), rw d r, t, h) in
      let q3 =
        if-Has One Owned Idle Idle s.cfg.route_enabled _ _ (restart_route-Has Idle Idle false s2 q2)
          q2 in
      setup_http-Has One Owned Owned _ (setup_port-Has One Owned Idle _ q3)
