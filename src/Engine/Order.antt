-- ===== src/Engine/Order.antt =====
-- The replies of a round of `discover` in internal/mtr/engine.go may come in any order.
use mathlib.Core.Path.{subst}
use mathlib.Core.List.{Permᴰ}
use mping.Base.{
  ℕ, ◌≡◌, refl, sym, ap, ◌∙◌, inl, inr, ◌||◌, List, [], ◌∷◌, Bool-cases, if_split, arith,
  if◌then◌else◌,
}
use mping.Base.Text.{String, is_empty}
use mping.Route.{MtrStats}
use mping.Engine.{
  Annotator, HopResult, cached, info_of, in_flight, is_settled, is_hop, note, register_hop,
  note_hop, register_hops,
}
use mping.Engine.Discovery.{nearer, least_reached}

-- No other probe of the list has the TTL.
abbrev pub Unused : ℕ → List HopResult → Type 0
Unused t [] = Unit {0}
Unused t (r ∷ rs) = (t ≡ r.ttl → ⊥) × Unused t rs

-- The probes have different TTLs.
abbrev pub Apart : List HopResult → Type 0
Apart [] = Unit {0}
Apart (r ∷ rs) = Unused r.ttl rs × Apart rs

Unused-perm : (t : ℕ) {rs qs : List HopResult} → Permᴰ rs qs → Unused t rs → Unused t qs
Unused-perm t Permᴰ.nil u = tt
Unused-perm t (Permᴰ.cons e p) (n, u) = (λ q. n (q ∙ ap HopResult.ttl (sym e)), Unused-perm t p u)
Unused-perm t (Permᴰ.swap e f) (n, (n', u)) =
    (λ q. n' (q ∙ ap HopResult.ttl (sym f)), (λ q. n (q ∙ ap HopResult.ttl (sym e)), u))
Unused-perm t (Permᴰ.trans p q) u = Unused-perm t q (Unused-perm t p u)

pub Apart-perm : {rs qs : List HopResult} → Permᴰ rs qs → Apart rs → Apart qs
Apart-perm Permᴰ.nil a = tt
Apart-perm (Permᴰ.cons {l₂ = l₂} e p) (u, a) =
    (subst (λ t. Unused t l₂) (ap HopResult.ttl e) (Unused-perm _ p u), Apart-perm p a)
Apart-perm (Permᴰ.swap {l = l} e f) ((n, u), (v, a)) = (
  (
    λ q. n (ap HopResult.ttl e ∙ sym q ∙ ap HopResult.ttl (sym f)),
    subst (λ t. Unused t l) (ap HopResult.ttl f) v,
  ),
  (subst (λ t. Unused t l) (ap HopResult.ttl e) u, a),
)
Apart-perm (Permᴰ.trans p q) a = Apart-perm q (Apart-perm p a)

nearer_comm : (n : ℕ) (r q : HopResult) → nearer r (nearer q n) ≡ nearer q (nearer r n)
nearer_comm n r q = elim (Bool-cases r.reached_dest) [
  | inl e ↦ elim (Bool-cases q.reached_dest) [
    | inl f ↦ simp (e, f) (omega arith)
    | inr f ↦ simp (e, f) refl
  ]
  | inr e ↦ simp e refl
]

pub least_reached-perm :
    (n : ℕ) {rs qs : List HopResult} → Permᴰ rs qs → least_reached n rs ≡ least_reached n qs
unfolding least_reached
least_reached-perm n Permᴰ.nil = refl
least_reached-perm n (Permᴰ.cons {a = r} {b = q} {l₁ = rs} e p) =
    ap (λ x. nearer x (least_reached n rs)) e ∙ ap (nearer q) (least_reached-perm n p)
least_reached-perm n (Permᴰ.swap {a = r} {b = q} {a' = q'} {l = rs} e f) =
    nearer_comm (least_reached n rs) r q
    ∙ ap (λ x. nearer x (nearer r (least_reached n rs))) f
    ∙ ap (λ x. nearer q' (nearer x (least_reached n rs))) e
least_reached-perm n (Permᴰ.trans p q) = least_reached-perm n p ∙ least_reached-perm n q

-- The route after the replies, with one annotator.
unfoldable pub register_all : ℕ → Annotator → List HopResult → MtrStats → MtrStats
register_all n a [] m = m
register_all n a (r ∷ rs) m = register_all n a rs (register_hop n a r m)

known-note : (now : ℕ) (ip : String) (a : Annotator) → (note now ip a).known ≡ a.known
unfolding note
known-note now ip a =
    let same = λ (x : Annotator). x.known ≡ a.known in
    let started : Annotator = record a { inflight = ip ∷ a.inflight } in
    let settled = is_settled now (info_of a.known ip) in
    let busy = a.closed || in_flight ip a.inflight in
    if_split same (is_empty ip) a (if busy then a else if settled then a else started) (λ h. refl)
      (λ h.
        if_split same busy a (if settled then a else started) (λ h. refl)
          (λ h. if_split same settled a started (λ h. refl) (λ h. refl)))

known-note_hop : (now n : ℕ) (r : HopResult) (a : Annotator) → (note_hop now n r a).known ≡ a.known
unfolding note_hop
known-note_hop now n r a =
    if_split (λ (x : Annotator). x.known ≡ a.known) (is_hop n r) (note now r.src_ip a) a
      (λ h. known-note now r.src_ip a) (λ h. refl)

register_hop-known :
    (n : ℕ) (a b : Annotator) (r : HopResult) (m : MtrStats)
    → a.known ≡ b.known
    → register_hop n a r m ≡ register_hop n b r m
unfolding register_hop cached
register_hop-known n a b r m e = simp e refl

register_all-known :
    (n : ℕ) (a b : Annotator) (rs : List HopResult) (m : MtrStats)
    → a.known ≡ b.known
    → register_all n a rs m ≡ register_all n b rs m
unfolding register_all
register_all-known n a b [] m e = refl
register_all-known n a b (r ∷ rs) m e =
    ap (register_all n a rs) (register_hop-known n a b r m e)
    ∙ register_all-known n a b rs (register_hop n b r m) e

pub register_hops-all :
    (now n : ℕ) (rs : List HopResult) (a : Annotator) (m : MtrStats)
    → (register_hops now n rs a m).1 ≡ register_all n a rs m
unfolding register_hops register_all
register_hops-all now n [] a m = refl
register_hops-all now n (r ∷ rs) a m =
    register_hops-all now n rs (note_hop now n r a) (register_hop n a r m)
    ∙ register_all-known n (note_hop now n r a) a rs (register_hop n a r m)
        (known-note_hop now n r a)
