-- ===== src/Route/Tests.antt =====
-- The routes of internal/stats/mtr.go on small inputs.
use mping.Base.{◌≡◌, ◌≢◌, ◌↔◌, List, [], ◌∷◌, true, false}
use mping.Base.Int.{pos}
use mping.Base.Sample.{whole}
use mping.Route.{HopAnnotation, new_mtr_stats, check_flap, route_snapshot}
use mping.Route.Hops.{RouteCall, ensure, reply, lost, found, truncate, calls, IsPath, calls-IsPath}
use mping.Route.Flap.{AllLive, IsLive, check_flap_iff, check_flap_live}

abbrev no_labels : HopAnnotation
no_labels = record { asn = "AS1"; country = "JP"; org = "one"; ptr = "" }

abbrev trip : List RouteCall
trip =
    ensure 3
    ∷ found (pos 1) "192.0.2.1" no_labels
    ∷ reply (pos 1) "192.0.2.9" no_labels (pos 1000000)
    ∷ lost (pos 2)
    ∷ truncate (pos 2)
    ∷ []

abbrev answers : List RouteCall
answers = reply (pos 1) "192.0.2.9" no_labels (pos 1000000) ∷ lost (pos 2) ∷ []

calls-IsPath_example : IsPath 0 (calls trip new_mtr_stats).hops
calls-IsPath_example = calls-IsPath trip

answers-AllLive : AllLive answers
unfolding IsLive
answers-AllLive = (tt, (tt, tt))

check_flap_live_example :
    (check_flap whole
      (route_snapshot (calls trip new_mtr_stats))
      7
      (calls answers (calls trip new_mtr_stats))).0
    ≡ false
check_flap_live_example = check_flap_live whole answers (calls trip new_mtr_stats) 7 answers-AllLive

check_flap_iff_example :
    let m = calls trip new_mtr_stats in
    let (changed, desc, m') = check_flap whole ("192.0.2.7" ∷ []) 7 m in
    ((changed ≡ true) ↔ (("192.0.2.7" ∷ []) ≢ route_snapshot m)) × (m'.hops ≡ m.hops)
check_flap_iff_example = check_flap_iff whole ("192.0.2.7" ∷ []) 7 (calls trip new_mtr_stats)
