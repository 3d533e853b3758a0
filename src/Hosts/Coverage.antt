-- ===== src/Hosts/Coverage.antt =====
-- Every host in cmd/main/targetspec.go keeps at least one target when it is expanded.
use mping.Base.{
  ℕ, zero, suc, ◌≤◌, ◌≡◌, refl, sym, ap, inl, inr, Bool, true, false, some, List, [], ◌∷◌,
  Bool-cases, arith, if◌then◌else◌, length, get_elem?,
}
use mathlib.Core.Path.{subst}
use mping.Base.Text.{String, str_eq, is_empty, str_eq_refl}
use mping.Hosts.{
  TargetSpec, Resolved, resolved_ips, resolve_host, resolve_all, pin, pin_all, expand_spec,
}

-- The host has an address.
abbrev Answered : String → Resolved → Type 0
Answered host r = 1 ≤ length (resolved_ips r host)

length-resolve_host :
    (b : Bool) (host : String) (answer : List String) → 1 ≤ length (resolve_host b host answer)
unfolding resolve_host
length-resolve_host true host answer = omega arith
length-resolve_host false host [] = omega arith
length-resolve_host false host (ip ∷ ips) = omega arith

module _ (is_addr : String → Bool) (lookup_ip : ℕ → String → List String) where
  entry_for : ℕ → TargetSpec → String × List String
  entry_for i t = (t.host, resolve_host (is_addr t.host) t.host (lookup_ip i t.host))

  resolve_step : ℕ → TargetSpec → Resolved → Resolved
  unfolding entry_for
  resolve_step i t r = if is_empty t.pinned_ip then entry_for i t ∷ r else r

  step-Answered_mono :
      (i : ℕ) (t : TargetSpec) (host : String) (r : Resolved)
      → Answered host r
      → Answered host (resolve_step i t r)
  unfolding resolve_step entry_for resolved_ips
  step-Answered_mono i t host r h =
      let full = length-resolve_host (is_addr t.host) t.host (lookup_ip i t.host) in
      elim (Bool-cases (is_empty t.pinned_ip)) [
        | inl e ↦ elim (Bool-cases (str_eq t.host host)) [
          | inl f ↦ rw (e, f) full
          | inr f ↦ rw (e, f) h
        ]
        | inr e ↦ rw e h
      ]

  step-Answered :
      (i : ℕ) (t : TargetSpec) (r : Resolved)
      → is_empty t.pinned_ip ≡ true
      → Answered t.host (resolve_step i t r)
  unfolding resolve_step entry_for resolved_ips
  step-Answered i t r e =
      let same = str_eq_refl t.host in
      rw (e, same) (length-resolve_host (is_addr t.host) t.host (lookup_ip i t.host))

  all-Answered_mono :
      (i : ℕ) (ts : List TargetSpec) (host : String) (r : Resolved)
      → Answered host r
      → Answered host (resolve_all is_addr lookup_ip i ts r)
  unfolding resolve_all resolve_step entry_for
  all-Answered_mono i [] host r h = h
  all-Answered_mono i (t ∷ ts) host r h =
      all-Answered_mono (suc i) ts host (resolve_step i t r) (step-Answered_mono i t host r h)

  all-Answered :
      (i : ℕ) (ts : List TargetSpec) (r : Resolved) (k : ℕ) (t : TargetSpec)
      → get_elem? ts k ≡ some t
      → is_empty t.pinned_ip ≡ true
      → Answered t.host (resolve_all is_addr lookup_ip i ts r)
  unfolding resolve_all resolve_step entry_for
  all-Answered i [] r k t h e = cc
  all-Answered i (u ∷ ts) r zero t h e =
      let same : u ≡ t = cc in
      subst (λ v. Answered v.host (resolve_all is_addr lookup_ip (suc i) ts (resolve_step i u r)))
        same
        (all-Answered_mono (suc i) ts u.host (resolve_step i u r)
          (step-Answered i u r (subst (λ v. is_empty v.pinned_ip ≡ true) (sym same) e)))
  all-Answered i (u ∷ ts) r (suc k) t h e = all-Answered (suc i) ts (resolve_step i u r) k t h e

-- The specs all have the host and the name of `t`.
pub data Of (t : TargetSpec) : List TargetSpec → Type 0 where
  nothing_more : Of t []
  another :
      (u : TargetSpec) (us : List TargetSpec)
      → u.host ≡ t.host
      → u.name ≡ t.name
      → Of t us
      → Of t (u ∷ us)

pin_all-Of : (t : TargetSpec) (ips : List String) → Of t (pin_all t ips)
unfolding pin_all pin
pin_all-Of t [] = nothing_more
pin_all-Of t (ip ∷ ips) = another (pin t ip) (pin_all t ips) refl refl (pin_all-Of t ips)

length-pin_all : (t : TargetSpec) (ips : List String) → length (pin_all t ips) ≡ length ips
unfolding pin_all
length-pin_all t [] = refl
length-pin_all t (ip ∷ ips) = ap suc (length-pin_all t ips)

-- Each of the hosts expands to at least one target, whatever the lookups answer, and all its targets
-- have its host and its name.
pub expand_spec-Of :
    (is_addr : String → Bool) (lookup_ip : ℕ → String → List String) (specs : List TargetSpec)
    (k : ℕ) (t : TargetSpec)
    → get_elem? specs k ≡ some t
    → (1 ≤ length (expand_spec (resolve_all is_addr lookup_ip 0 specs []) t))
      × Of t (expand_spec (resolve_all is_addr lookup_ip 0 specs []) t)
unfolding expand_spec
expand_spec-Of is_addr lookup_ip specs k t h =
    let ips = resolved_ips (resolve_all is_addr lookup_ip 0 specs []) t.host in
    elim (Bool-cases (is_empty t.pinned_ip)) [
      | inl e ↦
          let full : 1 ≤ length ips = all-Answered is_addr lookup_ip 0 specs [] k t h e in
          let some_target : 1 ≤ length (pin_all t ips) =
            omega (arith, full, length-pin_all t ips) in
          rw e (some_target, pin_all-Of t ips)
      | inr e ↦ rw e (omega arith, another t [] refl refl nothing_more)
    ]
