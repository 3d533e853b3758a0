-- ===== src/Members/Rollback.antt =====
-- `registerTargets` in cmd/main/live_targets.go adds all the targets or none.
use mathlib.Core.Path.{subst}
use mping.Base.{
  ℕ, ◌≡◌, refl, sym, ap, ◌∙◌, inl, inr, false, none, List, [], ◌∷◌, ◌++◌, ◌==◌, Bool-cases,
  Option-cases, if◌then◌else◌, arith,
}
use mping.Base.Int.{ℤ, pos, ◌+ℤ◌, ◌-ℤ◌, +ℤ_parts, -ℤ_parts, eq_of_parts}
use mping.Base.Text.{String}
use mping.Base.Dict.{
  lookup, delete, has, without, lookup-put_self, lookup-put_ne, lookup-delete_self,
  lookup-delete_ne, delete-none, delete-put_self, delete-put_ne, without-false, without_comm,
  without-cons_ne, without-cons_self,
}
use mping.Members.{
  Table, Members, launch_target, remove_worker, remove_table, remove_target, remove_targets,
}
use mping.Members.Sound.{Sound, launched, remove_worker-eq, remove_table-Sound}

succ_pred : (a : ℤ) → (a +ℤ pos 1) -ℤ pos 1 ≡ a
succ_pred a =
    eq_of_parts ((a +ℤ pos 1) -ℤ pos 1) a
      (omega (arith, -ℤ_parts (a +ℤ pos 1) (pos 1), +ℤ_parts a (pos 1)))

pred_succ : (a : ℤ) → (a -ℤ pos 1) +ℤ pos 1 ≡ a
pred_succ a =
    eq_of_parts ((a -ℤ pos 1) +ℤ pos 1) a
      (omega (arith, -ℤ_parts a (pos 1), +ℤ_parts (a -ℤ pos 1) (pos 1)))

-- A removal undoes the launch of a target that was not there.
pub remove-launch :
    (t id : ℕ) (address : String) (m : Table)
    → lookup t m.worker_states ≡ none
    → lookup t m.resolve_addresses ≡ none
    → has id m.target_chans ≡ false
    → remove_table t (launch_target t address id m) ≡ m
unfolding remove_table launch_target
remove-launch t id address m no_worker no_address no_chan =
    let at = lookup-put_self t (launched id) m.worker_states in
    let states =
      delete-put_self t (launched id) m.worker_states ∙ delete-none t m.worker_states no_worker in
    let addresses =
      delete-put_self t address m.resolve_addresses
      ∙ delete-none t m.resolve_addresses no_address in
    let chans =
      without-cons_self id (without id m.target_chans)
      ∙ ap (without id) (without-false id m.target_chans no_chan)
      ∙ without-false id m.target_chans no_chan in
    let gone = remove_worker-eq t (launched id) (launch_target t address id m) in
    rw (remove_table, at) (gone ∙ simp (states, addresses, chans, succ_pred m.active_workers) refl)

-- A removal and the launch of another target under a new number can change places.
remove-launch_comm :
    (I : ℕ → Type 0) (d t id : ℕ) (address : String) (m : Table)
    → Sound I m
    → (t ≡ d → ⊥)
    → (I id → ⊥)
    → remove_table d (launch_target t address id m) ≡ launch_target t address id (remove_table d m)
unfolding remove_table launch_target
remove-launch_comm I d t id address m s ne new =
    let there = lookup-put_ne t d (launched id) m.worker_states ne in
    elim (Option-cases (lookup d m.worker_states)) [
      | inl e ↦ simp (remove_table, there, e) refl
      | inr (w, e) ↦
          let fresh : id ≡ w.id → ⊥ = λ q. new (subst I (sym q) (s.issued d w e)) in
          let states = delete-put_ne t d (launched id) m.worker_states ne in
          let addresses = delete-put_ne t d address m.resolve_addresses ne in
          let chans : without w.id (id ∷ without id m.target_chans)
              ≡ id ∷ without id (without w.id m.target_chans) =
            without-cons_ne id w.id (without id m.target_chans) fresh
            ∙ ap (λ r. id ∷ r) (without_comm w.id id m.target_chans) in
          let count : (if w.running
                then (m.active_workers +ℤ pos 1) -ℤ pos 1
                else m.active_workers +ℤ pos 1)
              ≡ (if w.running then m.active_workers -ℤ pos 1 else m.active_workers) +ℤ pos 1 =
            elim (Bool-cases w.running) [
              | inl r ↦ rw r (succ_pred m.active_workers ∙ sym (pred_succ m.active_workers))
              | inr r ↦ rw r refl
            ] in
          let left : remove_table d (launch_target t address id m)
              ≡ remove_worker d w (launch_target t address id m) =
            simp (remove_table, there, e) refl in
          let right : remove_table d m ≡ remove_worker d w m = simp (remove_table, e) refl in
          left
          ∙ remove_worker-eq d w (launch_target t address id m)
          ∙ simp (states, addresses, chans, count) refl
          ∙ ap (launch_target t address id) (sym (right ∙ remove_worker-eq d w m))
    ]

unfoldable pub remove_tables : List ℕ → Table → Table
remove_tables [] m = m
remove_tables (t ∷ ts) m = remove_tables ts (remove_table t m)

pub remove_targets-table :
    (ts : List ℕ) (p : Members) → (remove_targets ts p).table ≡ remove_tables ts p.table
unfolding remove_targets remove_tables remove_target
remove_targets-table [] p = refl
remove_targets-table (t ∷ ts) p = remove_targets-table ts (remove_target t p)

pub remove_tables-append :
    (ts : List ℕ) (t : ℕ) (m : Table)
    → remove_tables (ts ++ (t ∷ [])) m ≡ remove_table t (remove_tables ts m)
unfolding remove_tables
remove_tables-append [] t m = refl
remove_tables-append (u ∷ ts) t m = remove_tables-append ts t (remove_table u m)

pub remove_tables-Sound :
    (I : ℕ → Type 0) (ts : List ℕ) (m : Table) → Sound I m → Sound I (remove_tables ts m)
unfolding remove_tables
remove_tables-Sound I [] m s = s
remove_tables-Sound I (t ∷ ts) m s =
    remove_tables-Sound I ts (remove_table t m) (remove_table-Sound I t m s)

remove_table-none :
    (d t : ℕ) (m : Table)
    → lookup t m.worker_states ≡ none
    → lookup t (remove_table d m).worker_states ≡ none
unfolding remove_table
remove_table-none d t m h = elim (Option-cases (lookup d m.worker_states)) [
  | inl e ↦ rw (remove_table, e) h
  | inr (w, e) ↦
      rw (remove_table, e)
        (subst (λ r. lookup t r.worker_states ≡ none) (sym (remove_worker-eq d w m))
          (elim (Bool-cases (d == t)) [
            | inl q ↦
                let same : d ≡ t = ground arith in
                ap (λ k. lookup k (delete d m.worker_states)) (sym same)
                ∙ lookup-delete_self d m.worker_states
            | inr q ↦
                let ne : d ≡ t → ⊥ = λ r. ground arith in
                lookup-delete_ne d t m.worker_states ne ∙ h
          ]))
]

pub remove_tables-none :
    (ts : List ℕ) (t : ℕ) (m : Table)
    → lookup t m.worker_states ≡ none
    → lookup t (remove_tables ts m).worker_states ≡ none
unfolding remove_tables
remove_tables-none [] t m h = h
remove_tables-none (d ∷ ts) t m h =
    remove_tables-none ts t (remove_table d m) (remove_table-none d t m h)

pub remove_tables-launch :
    (I : ℕ → Type 0) (ts : List ℕ) (t id : ℕ) (address : String) (m : Table)
    → Sound I m
    → has t ts ≡ false
    → (I id → ⊥)
    → remove_tables ts (launch_target t address id m)
      ≡ launch_target t address id (remove_tables ts m)
unfolding remove_tables has
remove_tables-launch I [] t id address m s h new = refl
remove_tables-launch I (d ∷ ts) t id address m s h new =
    let ne : t ≡ d → ⊥ = λ e. ground arith in
    let rest : has t ts ≡ false = ground arith in
    ap (remove_tables ts) (remove-launch_comm I d t id address m s ne new)
    ∙ remove_tables-launch I ts t id address (remove_table d m) (remove_table-Sound I d m s) rest
        new
