-- ===== src/Engine/Tests.antt =====
-- A round of discovery in internal/mtr/engine.go, at an example.
use mathlib.Core.List.{Permᴰ}
use mping.Base.{ℕ, ◌≤◌, ◌≡◌, refl, Bool, true, false, List, [], ◌∷◌, arith, length}
use mping.Base.Int.{pos}
use mping.Base.Text.{String}
use mping.Route.{
  MtrStats, new_mtr_stats, route_snapshot, route_ips, ensure_len, truncate_len, grow, new_hop,
  at_hop, identify, annotate, set_ip_annotated,
}
use mping.Engine.{
  Annotator, HopResult, discover, first_reached, register_hop, note_hop, note, register_hops,
  cached, info_of, in_flight,
}
use mping.Engine.Discovery.{least_reached, discover_lem}
use mping.Engine.Commute.{discover-perm}

abbrev reply : ℕ → Bool → String → HopResult
reply ttl reached ip = record {
  ttl = ttl;
  reached_dest = reached;
  responded = true;
  src_ip = ip;
  rtt = pos 5;
}

abbrev nobody : Annotator
nobody = record { closed = false; known = []; inflight = []; retry = 30 }

abbrev in_order : List HopResult
in_order = reply 1 false "10.0.0.1" ∷ reply 2 true "192.0.2.7" ∷ reply 3 true "192.0.2.7" ∷ []

abbrev out_of_order : List HopResult
out_of_order = reply 2 true "192.0.2.7" ∷ reply 1 false "10.0.0.1" ∷ reply 3 true "192.0.2.7" ∷ []

discover_lem_example :
    let (n, a', m') = discover 7 30 false out_of_order nobody new_mtr_stats in
    (n ≡ least_reached 30 out_of_order) × ((length m'.hops ≡ n) × ((1 ≤ n) × (n ≤ 30)))
discover_lem_example =
    discover_lem 7 30 out_of_order nobody new_mtr_stats (omega arith)
      (omega arith, (omega arith, (omega arith, tt)))

discover-perm_example :
    let (n, b, route) = discover 7 30 false in_order nobody new_mtr_stats in
    let (n', b', route') = discover 7 30 false out_of_order nobody new_mtr_stats in
    (n ≡ n') × (route ≡ route')
discover-perm_example =
    discover-perm 7 30 false nobody new_mtr_stats (Permᴰ.swap refl refl)
      ((λ e. omega arith, (λ e. omega arith, tt)), ((λ e. omega arith, tt), (tt, tt)))

abbrev last_route : MtrStats
last_route = let (n, a, m) = discover 7 30 false out_of_order nobody new_mtr_stats in m

found_route : route_snapshot last_route ≡ "10.0.0.1" ∷ "192.0.2.7" ∷ []
unfolding discover first_reached register_hops register_hop note_hop note in_flight cached info_of
    ensure_len truncate_len grow new_hop at_hop identify annotate set_ip_annotated route_ips
    new_mtr_stats
found_route = refl
