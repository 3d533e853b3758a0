-- ===== src/Route/Hops.antt =====
-- What every method of internal/stats/mtr.go keeps of the hops.
use mping.Base.{
  ℕ, zero, suc, ◌+◌, ◌-◌, ◌≤◌, ◌≡◌, refl, ◌∙◌, List, [], ◌∷◌, ◌++◌, map, arith, length, take,
  modify,
}
use mping.Base.Int.{ℤ, pos, negsuc}
use mping.Base.Text.{String}
use mping.Route.{
  HopStats, HopAnnotation, MtrStats, new_hop, annotate, new_mtr_stats, grow, ensure_len,
  truncate_len, at_hop, count_reply, record_reply_annotated, count_loss, record_loss, identify,
  set_ip_annotated, set_hop_ptr, annotate_matching, annotate_ip, set_error, reset,
}

-- The path is numbered from hop `k + 1` on, and no hop has more replies than probes.
abbrev pub IsPath : ℕ → List HopStats → Type 0
IsPath k [] = Unit {0}
IsPath k (h ∷ hs) = (h.ttl ≡ suc k) × (h.recv ≤ h.sent) × IsPath (suc k) hs

-- An update of a hop that keeps its number and does not lose a probe.
abbrev KeepsCounts : (HopStats → HopStats) → Type 0
KeepsCounts f = (h : HopStats) → h.recv ≤ h.sent → ((f h).ttl ≡ h.ttl) × ((f h).recv ≤ (f h).sent)

modify-IsPath :
    (k : ℕ) (hs : List HopStats) (i : ℕ) (f : HopStats → HopStats)
    → KeepsCounts f
    → IsPath k hs
    → IsPath k (modify hs i f)
modify-IsPath k [] i f keep p = p
modify-IsPath k (h ∷ hs) zero f keep p = let kept = keep h p.1 in (kept.0 ∙ p.0, kept.1, p.2)
modify-IsPath k (h ∷ hs) (suc i) f keep p = (p.0, p.1, modify-IsPath (suc k) hs i f keep p.2)

at_hop-IsPath :
    (ttl : ℤ) (f : HopStats → HopStats) (hs : List HopStats)
    → KeepsCounts f
    → IsPath 0 hs
    → IsPath 0 (at_hop ttl f hs)
unfolding at_hop
at_hop-IsPath (pos zero) f hs keep p = p
at_hop-IsPath (pos (suc i)) f hs keep p = modify-IsPath 0 hs i f keep p
at_hop-IsPath (negsuc n) f hs keep p = p

map-IsPath :
    (k : ℕ) (f : HopStats → HopStats) (hs : List HopStats)
    → KeepsCounts f
    → IsPath k hs
    → IsPath k (map f hs)
map-IsPath k f [] keep p = p
map-IsPath k f (h ∷ hs) keep p =
    let kept = keep h p.1 in (kept.0 ∙ p.0, kept.1, map-IsPath (suc k) f hs keep p.2)

take-IsPath : (k n : ℕ) (hs : List HopStats) → IsPath k hs → IsPath k (take n hs)
take-IsPath k zero hs p = tt
take-IsPath k (suc n) [] p = p
take-IsPath k (suc n) (h ∷ hs) p = (p.0, p.1, take-IsPath (suc k) n hs p.2)

grow-IsPath : (n k : ℕ) → IsPath k (grow n k)
unfolding grow new_hop
grow-IsPath zero k = tt
grow-IsPath (suc n) k =
    (omega arith, omega arith, let e : k + 1 ≡ suc k = omega arith in rw e (grow-IsPath n (suc k)))

append_grow-IsPath :
    (n k : ℕ) (hs : List HopStats) (m : ℕ)
    → m ≡ k + length hs
    → IsPath k hs
    → IsPath k (hs ++ grow n m)
append_grow-IsPath n k [] m e p = let e' : m ≡ k = omega arith in rw e' (grow-IsPath n k)
append_grow-IsPath n k (h ∷ hs) m e p =
    (p.0, p.1, append_grow-IsPath n (suc k) hs m (omega arith) p.2)

count_reply-KeepsCounts :
    (ip : String) (a : HopAnnotation) (rtt : ℤ) → KeepsCounts (count_reply ip a rtt)
unfolding count_reply annotate
count_reply-KeepsCounts ip a rtt h p = (refl, omega arith)

identify-KeepsCounts : (ip : String) (a : HopAnnotation) → KeepsCounts (identify ip a)
unfolding identify annotate
identify-KeepsCounts ip a h p = (refl, p)

annotate_matching-KeepsCounts :
    (ip : String) (a : HopAnnotation) → KeepsCounts (annotate_matching ip a)
unfolding annotate_matching annotate
annotate_matching-KeepsCounts ip a h p = ground arith

-- The calls that other packages make on the statistics of a route.
pub data RouteCall : Type 0 where
  ensure : ℕ → RouteCall
  truncate : ℤ → RouteCall
  reply : ℤ → String → HopAnnotation → ℤ → RouteCall
  lost : ℤ → RouteCall
  found : ℤ → String → HopAnnotation → RouteCall
  named : ℤ → String → String → RouteCall
  looked_up : String → HopAnnotation → RouteCall
  failed : String → RouteCall
  cleared : RouteCall

unfoldable pub call : RouteCall → MtrStats → MtrStats
call (ensure n) m = ensure_len n m
call (truncate n) m = truncate_len n m
call (reply ttl ip a rtt) m = record_reply_annotated ttl ip a rtt m
call (lost ttl) m = record_loss ttl m
call (found ttl ip a) m = set_ip_annotated ttl ip a m
call (named ttl ip name) m = set_hop_ptr ttl ip name m
call (looked_up ip a) m = annotate_ip ip a m
call (failed msg) m = set_error msg m
call cleared m = reset m

unfoldable pub calls : List RouteCall → MtrStats → MtrStats
calls [] m = m
calls (c ∷ cs) m = calls cs (call c m)

call-IsPath : (c : RouteCall) (m : MtrStats) → IsPath 0 m.hops → IsPath 0 (call c m).hops
unfolding call ensure_len truncate_len record_reply_annotated record_loss set_ip_annotated
    set_hop_ptr annotate_ip set_error reset new_mtr_stats
call-IsPath (ensure n) m p =
    append_grow-IsPath (n - length m.hops) 0 m.hops (length m.hops) (omega arith) p
call-IsPath (truncate (pos n)) m p = take-IsPath 0 n m.hops p
call-IsPath (truncate (negsuc n)) m p = tt
call-IsPath (reply ttl ip a rtt) m p =
    at_hop-IsPath ttl (count_reply ip a rtt) m.hops (count_reply-KeepsCounts ip a rtt) p
call-IsPath (lost ttl) m p =
    at_hop-IsPath ttl count_loss m.hops (λ h q. unfold count_loss in (refl, omega arith)) p
call-IsPath (found ttl ip a) m p =
    at_hop-IsPath ttl (identify ip a) m.hops (identify-KeepsCounts ip a) p
call-IsPath (named ttl ip name) m p = at_hop-IsPath ttl _ m.hops (λ h q. ground arith) p
call-IsPath (looked_up ip a) m p =
    map-IsPath 0 (annotate_matching ip a) m.hops (annotate_matching-KeepsCounts ip a) p
call-IsPath (failed msg) m p = p
call-IsPath cleared m p = tt

calls-IsPath_from :
    (cs : List RouteCall) (m : MtrStats) → IsPath 0 m.hops → IsPath 0 (calls cs m).hops
unfolding calls
calls-IsPath_from [] m p = p
calls-IsPath_from (c ∷ cs) m p = calls-IsPath_from cs (call c m) (call-IsPath c m p)

-- After any calls on fresh statistics the hops are numbered from 1 without a gap, and none has more
-- replies than probes.
pub calls-IsPath : (cs : List RouteCall) → IsPath 0 (calls cs new_mtr_stats).hops
calls-IsPath cs = calls-IsPath_from cs new_mtr_stats (unfold new_mtr_stats in tt)

-- Every call counts as one change of what is shown.
call-mutations : (c : RouteCall) (m : MtrStats) → (call c m).mutations ≡ m.mutations + 1
unfolding call ensure_len truncate_len record_reply_annotated record_loss set_ip_annotated
    set_hop_ptr annotate_ip set_error reset
call-mutations (truncate (pos n)) m = refl
call-mutations (truncate (negsuc n)) m = refl
call-mutations _ m = refl
