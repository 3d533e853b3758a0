-- ===== src/Members/Sound.antt =====
-- What holds of the maps of a pinger in internal/pinger/targets.go, whatever is called.
use mathlib.Core.Path.{subst}
use mping.Base.{
  ℕ, ◌≡◌, refl, sym, ap, ◌∙◌, inl, inr, true, false, none, some, Bool-cases, Option-cases,
  if◌then◌else◌, arith, ◌==◌,
}
use mping.Base.Int.{ℤ, pos, ◌-ℤ◌}
use mping.Base.Dict.{
  lookup, delete, put, has, without, lookup-put_self, lookup-put_ne, lookup-delete_self,
  lookup-delete_ne, lookup-put-some, lookup-delete-some, delete-put_self, has-without-true,
  has-without_ne,
}
use mping.Members.{TargetWorker, Table, return_worker, finish_table, remove_worker, remove_table}

-- The workers have numbers that were handed out, each its own, and one channel each; the
-- addresses are those of targets with a worker.
pub record Sound (Issued : ℕ → Type 0) (m : Table) : Type 0 where
  pub issued : (t : ℕ) (w : TargetWorker) → lookup t m.worker_states ≡ some w → Issued w.id
  pub connected :
      (t : ℕ) (w : TargetWorker)
      → lookup t m.worker_states ≡ some w
      → has w.id m.target_chans ≡ true
  pub owned :
      (i : ℕ)
      → has i m.target_chans ≡ true
      → (t : ℕ) × ((w : TargetWorker) × ((lookup t m.worker_states ≡ some w) × (w.id ≡ i)))
  pub apart :
      (t u : ℕ) (w v : TargetWorker)
      → lookup t m.worker_states ≡ some w
      → lookup u m.worker_states ≡ some v
      → w.id ≡ v.id
      → t ≡ u
  pub addressed : (t : ℕ) → lookup t m.worker_states ≡ none → lookup t m.resolve_addresses ≡ none

abbrev pub launched : ℕ → TargetWorker
launched id = record { id = id; running = true }

-- The label of a worker changes, not its number.
module _ (I : ℕ → Type 0) (t : ℕ) (w w' : TargetWorker) (m : Table) (s : Sound I m)
    (at : lookup t m.worker_states ≡ some w) (same_id : w'.id ≡ w.id) where
  pub relabel-some :
      (u : ℕ) (v : TargetWorker)
      → lookup u (put t w' m.worker_states) ≡ some v
      → (v0 : TargetWorker) × ((lookup u m.worker_states ≡ some v0) × (v0.id ≡ v.id))
  relabel-some u v h = elim (lookup-put-some t u w' v m.worker_states h) [
    | inl (e, q) ↦
        let same : w' ≡ v = cc in
        (
          w,
          (ap (λ k. lookup k m.worker_states) (sym e) ∙ at, sym same_id ∙ ap TargetWorker.id same),
        )
    | inr (ne, q) ↦ (v, (q, refl))
  ]

  relabel-owned :
      (i : ℕ)
      → has i m.target_chans ≡ true
      → (u : ℕ) × ((v : TargetWorker) × ((lookup u (put t w' m.worker_states) ≡ some v)
            × (v.id ≡ i)))
  relabel-owned i h =
      let (u, (v, (q, own))) = s.owned i h in
      elim (Bool-cases (t == u)) [
        | inl e ↦
            let same : t ≡ u = ground arith in
            let value : some w ≡ some v = sym at ∙ ap (λ k. lookup k m.worker_states) same ∙ q in
            let inner : w ≡ v = cc in
            (
              t,
              (
                w',
                (lookup-put_self t w' m.worker_states, same_id ∙ ap TargetWorker.id inner ∙ own),
              ),
            )
        | inr e ↦
            let ne : t ≡ u → ⊥ = λ r. ground arith in
            (u, (v, (lookup-put_ne t u w' m.worker_states ne ∙ q, own)))
      ]

  relabel-none :
      (u : ℕ) → lookup u (put t w' m.worker_states) ≡ none → lookup u m.worker_states ≡ none
  relabel-none u h = elim (Bool-cases (t == u)) [
    | inl e ↦
        let same : t ≡ u = ground arith in
        let no : some w' ≡ none =
          sym (lookup-put_self t w' m.worker_states)
          ∙ ap (λ k. lookup k (put t w' m.worker_states)) same
          ∙ h in
        cc
    | inr e ↦
        let ne : t ≡ u → ⊥ = λ q. ground arith in sym (lookup-put_ne t u w' m.worker_states ne) ∙ h
  ]

  pub relabel-Sound :
      (n : ℤ) → Sound I (record m { worker_states = put t w' m.worker_states; active_workers = n })
  relabel-Sound n = record {
    issued = λ u v h. let (v0, (q, e)) = relabel-some u v h in subst I e (s.issued u v0 q);
    connected = λ u v h.
        let (v0, (q, e)) = relabel-some u v h in
        subst (λ i. has i m.target_chans ≡ true) e (s.connected u v0 q);
    owned = relabel-owned;
    apart = λ u u' v v' h h' e.
        let (v0, (q, p)) = relabel-some u v h in
        let (v0', (q', p')) = relabel-some u' v' h' in s.apart u u' v0 v0' q q' (p ∙ e ∙ sym p');
    addressed = λ u h. s.addressed u (relabel-none u h);
  }

-- A worker leaves, and its channel with it.
module _ (I : ℕ → Type 0) (t : ℕ) (w : TargetWorker) (m : Table) (s : Sound I m)
    (at : lookup t m.worker_states ≡ some w) where
  leave-owned :
      (i : ℕ)
      → has i (without w.id m.target_chans) ≡ true
      → (u : ℕ) × ((v : TargetWorker) × ((lookup u (delete t m.worker_states) ≡ some v)
            × (v.id ≡ i)))
  leave-owned i h =
      let (ne, q) = has-without-true w.id i m.target_chans h in
      let (u, (v, (r, own))) = s.owned i q in
      let other : t ≡ u → ⊥ = λ e.
        let value : some w ≡ some v = sym at ∙ ap (λ k. lookup k m.worker_states) e ∙ r in
        let inner : w ≡ v = cc in ne (ap TargetWorker.id inner ∙ own) in
      (u, (v, (lookup-delete_ne t u m.worker_states other ∙ r, own)))

  leave-connected :
      (u : ℕ) (v : TargetWorker)
      → lookup u (delete t m.worker_states) ≡ some v
      → has v.id (without w.id m.target_chans) ≡ true
  leave-connected u v h =
      let (ne, q) = lookup-delete-some t u v m.worker_states h in
      let other : w.id ≡ v.id → ⊥ = λ e. ne (s.apart t u w v at q e) in
      has-without_ne w.id v.id m.target_chans other ∙ s.connected u v q

  leave-addressed :
      (u : ℕ)
      → lookup u (delete t m.worker_states) ≡ none
      → lookup u (delete t m.resolve_addresses) ≡ none
  leave-addressed u h = elim (Bool-cases (t == u)) [
    | inl e ↦
        let same : t ≡ u = ground arith in
        ap (λ k. lookup k (delete t m.resolve_addresses)) (sym same)
        ∙ lookup-delete_self t m.resolve_addresses
    | inr e ↦
        let ne : t ≡ u → ⊥ = λ q. ground arith in
        lookup-delete_ne t u m.resolve_addresses ne
        ∙ s.addressed u (sym (lookup-delete_ne t u m.worker_states ne) ∙ h)
  ]

  pub leave-Sound :
      (n : ℤ)
      → Sound I (record {
        worker_states = delete t m.worker_states;
        target_chans = without w.id m.target_chans;
        resolve_addresses = delete t m.resolve_addresses;
        active_workers = n;
      })
  leave-Sound n = record {
    issued = λ u v h. s.issued u v (lookup-delete-some t u v m.worker_states h).1;
    connected = leave-connected;
    owned = leave-owned;
    apart = λ u u' v v' h h' e.
        s.apart u u' v v' (lookup-delete-some t u v m.worker_states h).1
          (lookup-delete-some t u' v' m.worker_states h').1 e;
    addressed = leave-addressed;
  }

-- What a removal leaves, whether or not the worker had returned.
pub remove_worker-eq :
    (t : ℕ) (w : TargetWorker) (m : Table)
    → remove_worker t w m ≡ record {
      worker_states = delete t m.worker_states;
      target_chans = without w.id m.target_chans;
      resolve_addresses = delete t m.resolve_addresses;
      active_workers = if w.running then m.active_workers -ℤ pos 1 else m.active_workers;
    }
unfolding remove_worker return_worker
remove_worker-eq t w m = elim (Bool-cases w.running) [
  | inl e ↦ simp (e, delete-put_self t (record w { running = false }) m.worker_states) refl
  | inr e ↦ simp e refl
]

pub remove_table-Sound :
    (I : ℕ → Type 0) (t : ℕ) (m : Table) → Sound I m → Sound I (remove_table t m)
unfolding remove_table
remove_table-Sound I t m s = elim (Option-cases (lookup t m.worker_states)) [
  | inl e ↦ rw (remove_table, e) s
  | inr (w, e) ↦
      rw (remove_table, e)
        (subst (Sound I) (sym (remove_worker-eq t w m)) (
          leave-Sound I t w m s e
            (if w.running then m.active_workers -ℤ pos 1 else m.active_workers)))
]

pub finish_table-Sound :
    (I : ℕ → Type 0) (t : ℕ) (m : Table) → Sound I m → Sound I (finish_table t m)
unfolding finish_table return_worker
finish_table-Sound I t m s = elim (Option-cases (lookup t m.worker_states)) [
  | inl e ↦ rw (finish_table, e) s
  | inr (w, e) ↦ elim (Bool-cases w.running) [
    | inl r ↦
        rw (finish_table, e, return_worker, r)
          (relabel-Sound I t w (record w { running = false }) m s e refl
            (m.active_workers -ℤ pos 1))
    | inr r ↦ rw (finish_table, e, return_worker, r) s
  ]
]
