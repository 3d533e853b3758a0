-- ===== src/Members/Launch.antt =====
-- A worker joins a pinger in internal/pinger/targets.go (`launchTarget`).
use mathlib.Core.Path.{subst}
use mping.Base.{
  ℕ, ◌≡◌, sym, ap, ◌∙◌, inl, inr, true, none, some, List, ◌∷◌, Bool-cases, arith, ◌==◌, ◌⊎◌,
}
use mping.Base.Text.{String}
use mping.Base.Dict.{
  lookup, put, has, without, lookup-put_self, lookup-put_ne, lookup-put-some, has-cons,
  has-cons_self, has-cons_mono, has-without-true, has-without_ne,
}
use mping.Members.{TargetWorker, Table, launch_target}
use mping.Members.Sound.{Sound, launched}

-- A worker joins under a number that was not handed out before.
module _ (I J : ℕ → Type 0) (t id : ℕ) (address : String) (m : Table) (s : Sound I m)
    (absent : lookup t m.worker_states ≡ none) (new : I id → ⊥) (old : (i : ℕ) → I i → J i)
    (now : J id) where
  abbrev states : List (ℕ × TargetWorker)
  states = put t (launched id) m.worker_states

  pub launch-some :
      (u : ℕ) (w : TargetWorker)
      → lookup u states ≡ some w
      → ((t ≡ u) × (id ≡ w.id)) ⊎ (lookup u m.worker_states ≡ some w)
  launch-some u w h = elim (lookup-put-some t u (launched id) w m.worker_states h) [
    | inl (e, q) ↦ let same : launched id ≡ w = cc in inl (e, ap TargetWorker.id same)
    | inr (ne, q) ↦ inr q
  ]

  launch-owned :
      (i : ℕ)
      → has i (id ∷ without id m.target_chans) ≡ true
      → (u : ℕ) × ((w : TargetWorker) × ((lookup u states ≡ some w) × (w.id ≡ i)))
  launch-owned i h = elim (has-cons id i (without id m.target_chans) h) [
    | inl e ↦ (t, (launched id, (lookup-put_self t (launched id) m.worker_states, e)))
    | inr q ↦
        let (u, (w, (at, own))) = s.owned i (has-without-true id i m.target_chans q).1 in
        let ne : t ≡ u → ⊥ = λ e.
          let no : none ≡ some w = sym absent ∙ ap (λ k. lookup k m.worker_states) e ∙ at in cc in
        (u, (w, (lookup-put_ne t u (launched id) m.worker_states ne ∙ at, own)))
  ]

  launch-connected :
      (u : ℕ) (w : TargetWorker)
      → lookup u states ≡ some w
      → has w.id (id ∷ without id m.target_chans) ≡ true
  launch-connected u w h = elim (launch-some u w h) [
    | inl (e, q) ↦
        subst (λ i. has i (id ∷ without id m.target_chans) ≡ true) q
          (has-cons_self id (without id m.target_chans))
    | inr q ↦
        let ne : id ≡ w.id → ⊥ = λ e. new (subst I (sym e) (s.issued u w q)) in
        has-cons_mono id w.id (without id m.target_chans)
          (has-without_ne id w.id m.target_chans ne ∙ s.connected u w q)
  ]

  launch-apart :
      (u v : ℕ) (w x : TargetWorker)
      → lookup u states ≡ some w
      → lookup v states ≡ some x
      → w.id ≡ x.id
      → u ≡ v
  launch-apart u v w x h k e = elim (launch-some u w h) [
    | inl (p, q) ↦ elim (launch-some v x k) [
      | inl (p', q') ↦ sym p ∙ p'
      | inr r ↦ absurd (new (subst I (sym e ∙ sym q) (s.issued v x r)))
    ]
    | inr r ↦ elim (launch-some v x k) [
      | inl (p', q') ↦ absurd (new (subst I (e ∙ sym q') (s.issued u w r)))
      | inr r' ↦ s.apart u v w x r r' e
    ]
  ]

  pub launch_target-Sound : Sound J (launch_target t address id m)
  unfolding launch_target
  launch_target-Sound = record {
    issued = λ u w h. elim (launch-some u w h) [
      | inl (p, q) ↦ subst J q now
      | inr r ↦ old w.id (s.issued u w r)
    ];
    connected = launch-connected;
    owned = launch-owned;
    apart = launch-apart;
    addressed = λ u h. elim (Bool-cases (t == u)) [
      | inl e ↦
          let same : t ≡ u = ground arith in
          let no : some (launched id) ≡ none =
            sym (lookup-put_self t (launched id) m.worker_states)
            ∙ ap (λ k. lookup k states) same
            ∙ h in
          cc
      | inr e ↦
          let ne : t ≡ u → ⊥ = λ q. ground arith in
          lookup-put_ne t u address m.resolve_addresses ne
          ∙ s.addressed u (sym (lookup-put_ne t u (launched id) m.worker_states ne) ∙ h)
    ];
  }
