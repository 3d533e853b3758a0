-- ===== src/Engine/Commute.antt =====
-- The route after a round of `discover` in internal/mtr/engine.go does not depend on the order in
-- which the replies came.
use mathlib.Core.List.{Permᴰ}
use mping.Base.{
  ℕ, zero, suc, ◌+◌, min, ◌≡◌, refl, sym, ap, ◌∙◌, inl, inr, Bool, true, false, List, [], ◌∷◌,
  Bool-cases, modify,
}
use mping.Base.Int.{pos}
use mping.Base.Text.{String}
use mping.Route.{
  HopStats, MtrStats, HopAnnotation, ensure_len, truncate_len, at_hop, identify, set_ip_annotated,
}
use mping.Engine.{Annotator, HopResult, cached, is_hop, first_reached, register_hop, discover}
use mping.Engine.Discovery.{min-first_reached}
use mping.Engine.Order.{Apart, Apart-perm, least_reached-perm, register_all, register_hops-all}

modify_comm :
    (hs : List HopStats) (i j : ℕ) (f g : HopStats → HopStats)
    → (i ≡ j → ⊥)
    → modify (modify hs i f) j g ≡ modify (modify hs j g) i f
modify_comm [] i j f g ne = refl
modify_comm (h ∷ hs) zero zero f g ne = absurd (ne refl)
modify_comm (h ∷ hs) zero (suc j) f g ne = refl
modify_comm (h ∷ hs) (suc i) zero f g ne = refl
modify_comm (h ∷ hs) (suc i) (suc j) f g ne =
    ap (λ r. h ∷ r) (modify_comm hs i j f g (λ e. ne (ap suc e)))

at_hop_comm :
    (hs : List HopStats) (s t : ℕ) (f g : HopStats → HopStats)
    → (s ≡ t → ⊥)
    → at_hop (pos t) g (at_hop (pos s) f hs) ≡ at_hop (pos s) f (at_hop (pos t) g hs)
unfolding at_hop
at_hop_comm hs zero t f g ne = refl
at_hop_comm hs (suc s) zero f g ne = refl
at_hop_comm hs (suc s) (suc t) f g ne = modify_comm hs s t f g (λ e. ne (ap suc e))

set_ip_comm :
    (m : MtrStats) (s t : ℕ) (ip jp : String) (x y : HopAnnotation)
    → (s ≡ t → ⊥)
    → set_ip_annotated (pos t) jp y (set_ip_annotated (pos s) ip x m)
      ≡ set_ip_annotated (pos s) ip x (set_ip_annotated (pos t) jp y m)
unfolding set_ip_annotated
set_ip_comm m s t ip jp x y ne =
    let same = at_hop_comm m.hops s t (identify ip x) (identify jp y) ne in simp same refl

register_hop_comm :
    (n : ℕ) (a : Annotator) (r q : HopResult) (m : MtrStats)
    → (r.ttl ≡ q.ttl → ⊥)
    → register_hop n a q (register_hop n a r m) ≡ register_hop n a r (register_hop n a q m)
unfolding register_hop
register_hop_comm n a r q m ne = elim (Bool-cases (is_hop n r)) [
  | inl e ↦ elim (Bool-cases (is_hop n q)) [
    | inl f ↦
        simp (register_hop, e, f)
          (set_ip_comm m r.ttl q.ttl r.src_ip q.src_ip (cached r.src_ip a) (cached q.src_ip a) ne)
    | inr f ↦ simp (register_hop, e, f) refl
  ]
  | inr e ↦ simp (register_hop, e) refl
]

register_all-perm :
    (n : ℕ) (a : Annotator) {rs qs : List HopResult} (m : MtrStats)
    → Permᴰ rs qs
    → Apart rs
    → register_all n a rs m ≡ register_all n a qs m
unfolding register_all
register_all-perm n a m Permᴰ.nil d = refl
register_all-perm n a m (Permᴰ.cons {a = r} {b = q} {l₁ = rs} {l₂ = qs} e p) (u, d) =
    register_all-perm n a (register_hop n a r m) p d
    ∙ ap (λ x. register_all n a qs (register_hop n a x m)) e
register_all-perm n a m (Permᴰ.swap {a = r} {b = q} {a' = q'} {b' = r'} {l = rs} e f) ((ne, u), d) =
    ap (register_all n a rs) (register_hop_comm n a r q m ne)
    ∙ ap (λ x. register_all n a rs (register_hop n a r (register_hop n a x m))) f
    ∙ ap (λ x. register_all n a rs (register_hop n a x (register_hop n a q' m))) e
register_all-perm n a m (Permᴰ.trans p q) d =
    register_all-perm n a m p d ∙ register_all-perm n a m q (Apart-perm p d)

-- The replies of a round of discovery may come in any order: the number of hops and the route are
-- the same. Each TTL is probed once in a round.
pub discover-perm :
    (now max_hops : ℕ) (cancelled : Bool) {rs qs : List HopResult} (a : Annotator) (m : MtrStats)
    → Permᴰ rs qs
    → Apart rs
    → let (n, b, route) = discover now max_hops cancelled rs a m in
      let (n', b', route') = discover now max_hops cancelled qs a m in (n ≡ n') × (route ≡ route')
unfolding discover
discover-perm now max_hops true a m p d = (refl, refl)
discover-perm now max_hops false {rs} {qs} a m p d =
    let n = min (first_reached (max_hops + 1) rs) max_hops in
    let n' = min (first_reached (max_hops + 1) qs) max_hops in
    let same : n ≡ n' =
      min-first_reached (max_hops + 1) max_hops rs
      ∙ ap (min (max_hops + 1)) (least_reached-perm max_hops p)
      ∙ sym (min-first_reached (max_hops + 1) max_hops qs) in
    (
      same,
      register_hops-all now n rs a (ensure_len n (truncate_len (pos n) m))
          ∙ register_all-perm n a (ensure_len n (truncate_len (pos n) m)) p d
          ∙ ap (λ k. register_all k a qs (ensure_len k (truncate_len (pos k) m))) same
          ∙ sym (register_hops-all now n' qs a (ensure_len n' (truncate_len (pos n') m))),
    )
