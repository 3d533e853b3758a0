-- ===== src/Engine/Discovery.antt =====
-- The result of a round of `discover` in internal/mtr/engine.go.
use mping.Base.{
  ℕ, zero, suc, ◌+◌, ◌-◌, ◌≤◌, min, ◌≡◌, refl, ap, ◌∙◌, inl, inr, false, List, [], ◌∷◌, Bool-cases,
  if_split, arith, ltb, ltb→lt, if◌then◌else◌, length, take, modify, length-append, length-take,
}
use mping.Base.Int.{ℤ, pos, negsuc}
use mping.Route.{
  HopStats, MtrStats, grow, ensure_len, truncate_len, at_hop, identify, set_ip_annotated,
}
use mping.Engine.{
  Annotator, HopResult, cached, is_hop, first_reached, register_hop, note_hop, register_hops,
  discover,
}

abbrev pub nearer : HopResult → ℕ → ℕ
nearer r n = if r.reached_dest then min r.ttl n else n

-- The least TTL with which a probe reached the destination, at most `max_hops`.
unfoldable pub least_reached : ℕ → List HopResult → ℕ
least_reached max_hops [] = max_hops
least_reached max_hops (r ∷ rs) = nearer r (least_reached max_hops rs)

abbrev pub Positive : List HopResult → Type 0
Positive [] = Unit {0}
Positive (r ∷ rs) = (1 ≤ r.ttl) × Positive rs

least_reached_bounds :
    (max_hops : ℕ) (rs : List HopResult)
    → 1 ≤ max_hops
    → Positive rs
    → (1 ≤ least_reached max_hops rs) × (least_reached max_hops rs ≤ max_hops)
unfolding least_reached
least_reached_bounds max_hops [] h p = (h, omega arith)
least_reached_bounds max_hops (r ∷ rs) h (p, ps) =
    let (lo, hi) = least_reached_bounds max_hops rs h ps in
    elim (Bool-cases r.reached_dest) [
      | inl e ↦ rw e (omega (arith, lo, hi))
      | inr e ↦ rw e (lo, hi)
    ]

pub min-first_reached :
    (best max_hops : ℕ) (rs : List HopResult)
    → min (first_reached best rs) max_hops ≡ min best (least_reached max_hops rs)
unfolding first_reached least_reached
min-first_reached best max_hops [] = refl
min-first_reached best max_hops (r ∷ rs) = elim (Bool-cases r.reached_dest) [
  | inl e ↦ elim (Bool-cases (ltb r.ttl best)) [
    | inl f ↦
        let small = ltb→lt r.ttl best f in
        let rest = min-first_reached r.ttl max_hops rs in rw (e, f) (omega (arith, small, rest))
    | inr f ↦
        let large : best ≤ r.ttl = ground arith in
        let rest = min-first_reached best max_hops rs in rw (e, f) (omega (arith, large, rest))
  ]
  | inr e ↦ rw e (min-first_reached best max_hops rs)
]

length-grow : (n have : ℕ) → length (grow n have) ≡ n
unfolding grow
length-grow zero have = refl
length-grow (suc n) have = ap suc (length-grow n (have + 1))

-- The path has the length of the round before any reply is registered.
length-prepared : (n : ℕ) (m : MtrStats) → length (ensure_len n (truncate_len (pos n) m)).hops ≡ n
unfolding ensure_len truncate_len
length-prepared n m =
    let kept = take n m.hops in
    length-append kept (grow (n - length kept) (length kept))
    ∙ omega (arith, length-grow (n - length kept) (length kept), length-take n m.hops)

length-modify :
    (hs : List HopStats) (i : ℕ) (f : HopStats → HopStats) → length (modify hs i f) ≡ length hs
length-modify [] i f = refl
length-modify (h ∷ hs) zero f = refl
length-modify (h ∷ hs) (suc i) f = ap suc (length-modify hs i f)

length-at_hop :
    (ttl : ℤ) (f : HopStats → HopStats) (hs : List HopStats) → length (at_hop ttl f hs) ≡ length hs
unfolding at_hop
length-at_hop (pos zero) f hs = refl
length-at_hop (pos (suc i)) f hs = length-modify hs i f
length-at_hop (negsuc n) f hs = refl

length-register_hop :
    (n : ℕ) (a : Annotator) (r : HopResult) (m : MtrStats)
    → length (register_hop n a r m).hops ≡ length m.hops
unfolding register_hop set_ip_annotated
length-register_hop n a r m =
    if_split (λ (x : MtrStats). length x.hops ≡ length m.hops) (is_hop n r)
      (set_ip_annotated (pos r.ttl) r.src_ip (cached r.src_ip a) m) m
      (λ h. length-at_hop (pos r.ttl) (identify r.src_ip (cached r.src_ip a)) m.hops) (λ h. refl)

length-register_hops :
    (now n : ℕ) (rs : List HopResult) (a : Annotator) (m : MtrStats)
    → length (register_hops now n rs a m).1.hops ≡ length m.hops
unfolding register_hops
length-register_hops now n [] a m = refl
length-register_hops now n (r ∷ rs) a m =
    length-register_hops now n rs (note_hop now n r a) (register_hop n a r m)
    ∙ length-register_hop n a r m

-- A round of discovery that is not cancelled returns the least TTL that reached the destination, or
-- the maximum if none did; the route then has just that many hops, at least one and at most the
-- maximum. The maximum and the TTLs are positive.
pub discover_lem :
    (now max_hops : ℕ) (results : List HopResult) (a : Annotator) (m : MtrStats)
    → 1 ≤ max_hops
    → Positive results
    → let (n, a', m') = discover now max_hops false results a m in
      (n ≡ least_reached max_hops results) × ((length m'.hops ≡ n) × ((1 ≤ n) × (n ≤ max_hops)))
unfolding discover
discover_lem now max_hops results a m h p =
    let least = min-first_reached (max_hops + 1) max_hops results in
    let (lo, hi) = least_reached_bounds max_hops results h p in
    let n = min (first_reached (max_hops + 1) results) max_hops in
    let same : n ≡ least_reached max_hops results = omega (arith, least, hi) in
    (
      same,
      (
        length-register_hops now n results a (ensure_len n (truncate_len (pos n) m))
            ∙ length-prepared n m,
        (omega (arith, same, lo), omega (arith, same, hi)),
      ),
    )
