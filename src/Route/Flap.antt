-- ===== src/Route/Flap.antt =====
-- Route changes (`CheckFlap`) and the labels of a hop (`annotate`) of internal/stats/mtr.go.
use mping.Base.{
  ℕ, zero, suc, ◌+◌, ◌≡◌, refl, ap, ◌∙◌, ◌≢◌, ◌↔◌, inl, inr, true, false, some, List, [], ◌∷◌, map,
  arith, modify, Bool-cases,
}
use mping.Base.Int.{ℤ, pos, negsuc}
use mping.Base.Float.{Floats}
use mping.Base.Text.{String, str_eq_iff, str_eq-false}
use mping.Route.{
  HopStats, HopAnnotation, MtrStats, annotate, at_hop, count_reply, record_reply_annotated,
  count_loss, record_loss, set_hop_ptr, annotate_matching, annotate_ip, set_error, route_ips,
  route_snapshot, equal_routes, build_flap_desc, check_flap, over,
}
use mping.Route.Hops.{RouteCall, reply, lost, named, looked_up, failed, call, calls}

pub equal_routes_iff : (ps cs : List String) → (equal_routes ps cs ≡ true) ↔ (ps ≡ cs)
unfolding equal_routes
equal_routes_iff [] [] = (λ e. refl, λ e. refl)
equal_routes_iff [] (c ∷ cs) = (λ e. cc, λ e. cc)
equal_routes_iff (p ∷ ps) [] = (λ e. cc, λ e. cc)
equal_routes_iff (p ∷ ps) (c ∷ cs) = (
  λ e. ground (arith, str_eq_iff p c, equal_routes_iff ps cs),
  λ e. ground (arith, str_eq_iff p c, equal_routes_iff ps cs),
)

check_flap_cases :
    {F : Type 0} (fl : Floats F) (prev : List String) (now : ℕ) (m : MtrStats)
    → let (changed, desc, m') = check_flap fl prev now m in
      ((changed ≡ true) ↔ (prev ≢ route_snapshot m))
      × (changed ≡ false → m' ≡ m)
      × (changed ≡ true
          → (m'.flap_count ≡ m.flap_count + 1)
            × (m'.last_flap_at ≡ some now)
            × (m'.last_flap_desc ≡ desc)
            × (desc ≡ build_flap_desc fl prev (route_snapshot m)))
      × (m'.hops ≡ m.hops)
unfolding check_flap
check_flap_cases fl prev now m = elim (Bool-cases (equal_routes prev (route_ips m.hops))) [
  | inl e ↦
      let same : prev ≡ route_ips m.hops = (equal_routes_iff prev (route_ips m.hops)).0 e in
      rw e ((λ h. cc, λ h. absurd (h same)), λ h. refl, λ h. cc, refl)
  | inr e ↦ rw e (
    (λ h q. cc ((equal_routes_iff prev (route_ips m.hops)).1 q), λ h. refl),
    λ h. cc,
    λ h. (refl, refl, refl, refl),
    refl,
  )
]

-- The calls made for probe replies and lookups, as opposed to a discovery.
unfoldable pub IsLive : RouteCall → Type 0
IsLive (reply ttl ip a rtt) = Unit {0}
IsLive (lost ttl) = Unit {0}
IsLive (named ttl ip name) = Unit {0}
IsLive (looked_up ip a) = Unit {0}
IsLive (failed msg) = Unit {0}
IsLive _ = ⊥

abbrev pub AllLive : List RouteCall → Type 0
AllLive [] = Unit {0}
AllLive (c ∷ cs) = IsLive c × AllLive cs

abbrev KeepsRoute : (HopStats → HopStats) → Type 0
KeepsRoute f = (h : HopStats) → (f h).route_ip ≡ h.route_ip

route_ips-modify :
    (hs : List HopStats) (i : ℕ) (f : HopStats → HopStats)
    → KeepsRoute f
    → route_ips (modify hs i f) ≡ route_ips hs
unfolding route_ips
route_ips-modify [] i f keep = refl
route_ips-modify (h ∷ hs) zero f keep = ap (λ t. t ∷ route_ips hs) (keep h)
route_ips-modify (h ∷ hs) (suc i) f keep = ap (λ t. h.route_ip ∷ t) (route_ips-modify hs i f keep)

route_ips-at_hop :
    (ttl : ℤ) (f : HopStats → HopStats) (hs : List HopStats)
    → KeepsRoute f
    → route_ips (at_hop ttl f hs) ≡ route_ips hs
unfolding at_hop
route_ips-at_hop (pos zero) f hs keep = refl
route_ips-at_hop (pos (suc i)) f hs keep = route_ips-modify hs i f keep
route_ips-at_hop (negsuc n) f hs keep = refl

route_ips-map :
    (f : HopStats → HopStats) (hs : List HopStats)
    → KeepsRoute f
    → route_ips (map f hs) ≡ route_ips hs
unfolding route_ips
route_ips-map f [] keep = refl
route_ips-map f (h ∷ hs) keep = cc (keep h, route_ips-map f hs keep)

route_snapshot-call :
    (c : RouteCall) (m : MtrStats) → IsLive c → route_snapshot (call c m) ≡ route_snapshot m
unfolding IsLive call record_reply_annotated record_loss set_hop_ptr annotate_ip set_error
route_snapshot-call (reply ttl ip a rtt) m l =
    route_ips-at_hop ttl _ m.hops (λ h. unfold count_reply annotate in refl)
route_snapshot-call (lost ttl) m l = route_ips-at_hop ttl _ m.hops (λ h. unfold count_loss in refl)
route_snapshot-call (named ttl ip name) m l = route_ips-at_hop ttl _ m.hops (λ h. ground arith)
route_snapshot-call (looked_up ip a) m l =
    route_ips-map (annotate_matching ip a) m.hops
      (λ h. unfold annotate_matching annotate in ground arith)
route_snapshot-call (failed msg) m l = refl
route_snapshot-call _ m l = absurd l

pub route_snapshot-calls :
    (cs : List RouteCall) (m : MtrStats)
    → AllLive cs
    → route_snapshot (calls cs m) ≡ route_snapshot m
unfolding calls
route_snapshot-calls [] m l = refl
route_snapshot-calls (c ∷ cs) m l =
    route_snapshot-calls cs (call c m) l.1 ∙ route_snapshot-call c m l.0

-- Replies, losses and lookups between two looks at the route never show as a route change, whatever
-- addresses answer.
pub check_flap_live :
    {F : Type 0} (fl : Floats F) (cs : List RouteCall) (m : MtrStats) (now : ℕ)
    → AllLive cs
    → (check_flap fl (route_snapshot m) now (calls cs m)).0 ≡ false
unfolding check_flap
check_flap_live fl cs m now l =
    rw
      (route_snapshot-calls cs m l, (equal_routes_iff (route_snapshot m) (route_snapshot m)).1 refl)

over_empty : (s : String) → over s "" ≡ s
over_empty s = ground (arith, str_eq_iff s "")

annotate_cases :
    (ip : String) (a : HopAnnotation) (h : HopStats)
    → let h' = annotate ip a h in
      (ip ≢ ""
        → ip ≢ h.ip
        → (h'.ip ≡ ip)
          × (h'.asn ≡ a.asn)
          × (h'.country ≡ a.country)
          × (h'.org ≡ a.org)
          × (h'.ptr ≡ a.ptr))
      × (ip ≡ h.ip
          → (h'.ip ≡ h.ip)
            × (h'.asn ≡ over a.asn h.asn)
            × (h'.country ≡ over a.country h.country)
            × (h'.org ≡ over a.org h.org)
            × (h'.ptr ≡ over a.ptr h.ptr))
      × (h'.sent ≡ h.sent)
      × (h'.recv ≡ h.recv)
unfolding annotate
annotate_cases ip a h = (
  λ ne other.
      rw (str_eq-false ip "" ne, str_eq-false ip h.ip other)
        (refl, over_empty a.asn, over_empty a.country, over_empty a.org, over_empty a.ptr),
  λ e. ground (arith, (str_eq_iff ip h.ip).1 e),
  refl,
  refl,
)

-- A reply from another address takes all its labels from the lookup for that address, so no label of
-- the previous responder is left. The counters are not touched.
pub annotate-other :
    (ip : String) (a : HopAnnotation) (h : HopStats)
    → ip ≢ ""
    → ip ≢ h.ip
    → let h' = annotate ip a h in
      ((h'.ip ≡ ip)
        × (h'.asn ≡ a.asn)
        × (h'.country ≡ a.country)
        × (h'.org ≡ a.org)
        × (h'.ptr ≡ a.ptr))
      × (h'.sent ≡ h.sent)
      × (h'.recv ≡ h.recv)
annotate-other ip a h p q = let c = annotate_cases ip a h in (c.0 p q, c.2, c.3)

-- A change is reported exactly when the route differs from the earlier snapshot. The hops are the same
-- either way.
pub check_flap_iff :
    {F : Type 0} (fl : Floats F) (prev : List String) (now : ℕ) (m : MtrStats)
    → let (changed, desc, m') = check_flap fl prev now m in
      ((changed ≡ true) ↔ (prev ≢ route_snapshot m)) × (m'.hops ≡ m.hops)
check_flap_iff fl prev now m = let c = check_flap_cases fl prev now m in (c.0, c.3)
