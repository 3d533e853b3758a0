-- ===== src/Members/Register.antt =====
-- The results of `AddTarget` and of `registerTargets` (cmd/main/live_targets.go).
use mathlib.Core.Path.{subst}
use mping.Base.{
  ℕ, ◌≡◌, refl, sym, ap, ◌∙◌, inl, inr, false, Option, none, some, List, [], ◌∷◌, ◌++◌, Bool-cases,
  Option-cases, arith,
}
use mping.Base.Text.{String}
use mping.Base.Dict.{lookup, put, has, has-append, lookup-put_self, lookup-put_ne}
use mping.Members.{
  IdAllocator, MemberError, stopped_pinger, already_registered, Table, Members, allocate_worker_id,
  launch_target, launch_allocated, add_target, remove_table, after_add, register_targets,
}
use mping.Members.Ids.{IssuedBy, Allocated, allocate_worker_id-Allocated}
use mping.Members.Sound.{Sound, launched}
use mping.Members.Calls.{
  SoundMembers, add_target-Good, Call, calls, new_members, calls-SoundMembers,
}
use mping.Members.Rollback.{
  remove_tables, remove_targets-table, remove_tables-append, remove_tables-Sound,
  remove_tables-none, remove_tables-launch, remove-launch,
}

-- `AddTarget` fails and leaves the maps, or launches a target without a worker under a new number.
abbrev pub Added : ℕ → String → Members → Option MemberError × Members → Type 0
Added t address p (some e, q) = q.table ≡ p.table
Added t address p (none, q) =
    (lookup t p.table.worker_states ≡ none)
    × ((id : ℕ) × ((IssuedBy p id → ⊥) × (q.table ≡ launch_target t address id p.table)))

launch-Added :
    (t : ℕ) (address : String) (p : Members) (r : Option ℕ × Members)
    → lookup t p.table.worker_states ≡ none
    → Allocated p r
    → Added t address p (launch_allocated t address r)
unfolding launch_allocated
launch-Added t address p (none, q) absent (same, mono) = same
launch-Added t address p (some id, q) absent ((same, mono), (now, new)) =
    (absent, (id, (new, ap (launch_target t address id) same)))

pub add_target-Added :
    (t : ℕ) (address : String) (p : Members) → Added t address p (add_target t address p)
unfolding add_target
add_target-Added t address p = elim (Bool-cases p.stopped) [
  | inl e ↦
      let same : add_target t address p ≡ (some stopped_pinger, p) = simp (add_target, e) refl in
      subst (Added t address p) (sym same) refl
  | inr e ↦ elim (Option-cases (lookup t p.table.worker_states)) [
    | inl absent ↦
        let same : add_target t address p ≡ launch_allocated t address (allocate_worker_id p) =
          simp (add_target, e, absent) refl in
        subst (Added t address p) (sym same)
          (launch-Added t address p (allocate_worker_id p) absent (allocate_worker_id-Allocated p))
    | inr (w, at) ↦
        let same : add_target t address p ≡ (some already_registered, p) =
          simp (add_target, e, at) refl in
        subst (Added t address p) (sym same) refl
  ]
]

-- Taking back the targets `added` leads from the maps of `p` to those of `m`.
abbrev Undoes : List ℕ → Members → Table → Type 0
Undoes added p m =
    (remove_tables added p.table ≡ m)
    × ((t : ℕ) → lookup t p.table.worker_states ≡ none → has t added ≡ false)

unissued-has :
    (I : ℕ → Type 0) (id : ℕ) (m : Table) → Sound I m → (I id → ⊥) → has id m.target_chans ≡ false
unissued-has I id m s new = elim (Bool-cases (has id m.target_chans)) [
  | inl e ↦ let (t, (w, (at, own))) = s.owned id e in absurd (new (subst I own (s.issued t w at)))
  | inr e ↦ e
]

launch-none :
    (t u id : ℕ) (address : String) (m : Table)
    → lookup u (launch_target t address id m).worker_states ≡ none
    → (t ≡ u → ⊥) × (lookup u m.worker_states ≡ none)
unfolding launch_target
launch-none t u id address m h =
    let ne : t ≡ u → ⊥ = λ e.
      let no : some (launched id) ≡ none =
        sym (lookup-put_self t (launched id) m.worker_states)
        ∙ ap (λ k. lookup k (put t (launched id) m.worker_states)) e
        ∙ h in
      cc in
    (ne, sym (lookup-put_ne t u (launched id) m.worker_states ne) ∙ h)

has-singleton : (t u : ℕ) → (t ≡ u → ⊥) → has u (t ∷ []) ≡ false
unfolding has
has-singleton t u ne = ground arith

-- A launch is taken back with the targets added before it.
launch-Undoes :
    (added : List ℕ) (t id : ℕ) (address : String) (p q : Members) (m : Table)
    → SoundMembers p
    → Undoes added p m
    → lookup t p.table.worker_states ≡ none
    → (IssuedBy p id → ⊥)
    → q.table ≡ launch_target t address id p.table
    → Undoes (added ++ (t ∷ [])) q m
launch-Undoes added t id address p q m s (undone, known) absent new launch =
    let before = remove_tables added p.table in
    let sound = remove_tables-Sound (IssuedBy p) added p.table s in
    let no_worker = remove_tables-none added t p.table absent in
    let no_chan : has id before.target_chans ≡ false =
      unissued-has (IssuedBy p) id before sound new in
    (
      ap (remove_tables (added ++ (t ∷ []))) launch
          ∙ remove_tables-append added t (launch_target t address id p.table)
          ∙ ap (remove_table t)
              (remove_tables-launch (IssuedBy p) added t id address p.table s (known t absent) new)
          ∙ remove-launch t id address before no_worker (sound.addressed t no_worker) no_chan
          ∙ undone,
      λ u h.
          let (ne, other) =
            launch-none t u id address p.table
              (sym (ap (λ x. lookup u x.worker_states) launch) ∙ h) in
          let last : has u (t ∷ []) ≡ false = has-singleton t u ne in
          has-append u added (t ∷ []) ∙ rw (known u other, last) refl,
    )

after_add-undone :
    (added : List ℕ) (t : ℕ) (address : String) (p : Members) (m : Table) (e : MemberError)
    (r rest : Option MemberError × Members)
    → Undoes added p m
    → Added t address p r
    → (Undoes (added ++ (t ∷ [])) r.1 m → rest.0 ≡ some e → rest.1.table ≡ m)
    → SoundMembers p
    → (after_add added r rest).0 ≡ some e
    → (after_add added r rest).1.table ≡ m
unfolding after_add
after_add-undone added t address p m e (none, q) rest u (absent, (id, (new, launch))) go s h =
    go (launch-Undoes added t id address p q m s u absent new launch) h
after_add-undone added t address p m e (some error, q) rest (undone, known) same go s h =
    remove_targets-table added q ∙ ap (remove_tables added) same ∙ undone

register-undone :
    (added : List ℕ) (ts : List (ℕ × String)) (p : Members) (m : Table) (e : MemberError)
    → SoundMembers p
    → Undoes added p m
    → (register_targets added ts p).0 ≡ some e
    → (register_targets added ts p).1.table ≡ m
unfolding register_targets
register-undone added [] p m e s u h = cc
register-undone added ((t, address) ∷ ts) p m e s u h =
    let r = add_target t address p in
    after_add-undone added t address p m e r (register_targets (added ++ (t ∷ [])) ts r.1) u
      (add_target-Added t address p)
      (λ u' h'.
        register-undone (added ++ (t ∷ [])) ts r.1 m e (add_target-Good t address p s).0 u' h')
      s h

-- A registration that fails leaves the maps of a sound pinger.
pub register_targets-undone :
    (ts : List (ℕ × String)) (p : Members) (e : MemberError)
    → SoundMembers p
    → (register_targets [] ts p).0 ≡ some e
    → (register_targets [] ts p).1.table ≡ p.table
unfolding remove_tables has
register_targets-undone ts p e s h = register-undone [] ts p p.table e s (refl, λ t a. refl) h

-- If adding one of several targets to a running pinger fails, all those added before it are taken
-- back: the workers, the reply channels, the addresses and the count of active workers are as
-- before. The pinger is in a state that calls on a new one lead to; no worker returns meanwhile.
pub register_targets-error :
    (ids : Option IdAllocator) (base : ℕ) (cs : List Call) (ts : List (ℕ × String))
    (e : MemberError)
    → (register_targets [] ts (calls cs (new_members ids base))).0 ≡ some e
    → (register_targets [] ts (calls cs (new_members ids base))).1.table
      ≡ (calls cs (new_members ids base)).table
register_targets-error ids base cs ts e h =
    register_targets-undone ts (calls cs (new_members ids base)) e (calls-SoundMembers ids base cs)
      h
