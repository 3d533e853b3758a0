-- ===== src/Members/Membership.antt =====
-- Which targets a pinger has after `AddTarget`, `RemoveTarget` and `registerTargets`.
use mping.Base.{
  ℕ, ◌≡◌, refl, sym, ap, ◌∙◌, inl, inr, Bool, true, false, not, ◌&&◌, ◌||◌, Option, none, some,
  List, [], ◌∷◌, ◌++◌, ◌==◌, Bool-cases, Option-cases, is_some, arith,
}
use mping.Base.Text.{String}
use mping.Base.Dict.{
  lookup, delete, put, has, lookup-put_self, lookup-put_ne, lookup-delete_self, lookup-delete_ne,
}
use mping.Members.{
  MemberError, Table, Members, is_member, launch_target, add_target, remove_worker, remove_table,
  remove_target, remove_targets, after_add, register_targets,
}
use mping.Members.Sound.{launched, remove_worker-eq}
use mping.Members.Calls.{SoundMembers, add_target-Good, remove_target-Good}
use mping.Members.Register.{Added, add_target-Added}

is_member-launch :
    (t u id : ℕ) (address : String) (m : Table)
    → is_member u (launch_target t address id m) ≡ ((t == u) || is_member u m)
unfolding launch_target
is_member-launch t u id address m = elim (Bool-cases (t == u)) [
  | inl e ↦
      let same : t ≡ u = ground arith in
      let at : lookup u (put t (launched id) m.worker_states) ≡ some (launched id) =
        ap (λ k. lookup k (put t (launched id) m.worker_states)) (sym same)
        ∙ lookup-put_self t (launched id) m.worker_states in
      rw (e, at) refl
  | inr e ↦
      let ne : t ≡ u → ⊥ = λ q. ground arith in
      let at = lookup-put_ne t u (launched id) m.worker_states ne in rw (e, at) refl
]

pub is_member-remove :
    (t u : ℕ) (m : Table) → is_member u (remove_table t m) ≡ (not (t == u) && is_member u m)
unfolding remove_table
is_member-remove t u m = elim (Option-cases (lookup t m.worker_states)) [
  | inl e ↦
      let same : remove_table t m ≡ m = simp (remove_table, e) refl in
      ap (is_member u) same ∙ elim (Bool-cases (t == u)) [
        | inl f ↦
            let eq : t ≡ u = ground arith in
            let no : lookup u m.worker_states ≡ none =
              ap (λ k. lookup k m.worker_states) (sym eq) ∙ e in
            rw (f, no) refl
        | inr f ↦ rw f refl
      ]
  | inr (w, e) ↦
      let same : (remove_table t m).worker_states ≡ delete t m.worker_states =
        ap Table.worker_states (
          let opened : remove_table t m ≡ remove_worker t w m = simp (remove_table, e) refl in
          opened ∙ remove_worker-eq t w m) in
      ap (λ s. is_some (lookup u s)) same ∙ elim (Bool-cases (t == u)) [
        | inl f ↦
            let eq : t ≡ u = ground arith in
            let no : lookup u (delete t m.worker_states) ≡ none =
              ap (λ k. lookup k (delete t m.worker_states)) (sym eq)
              ∙ lookup-delete_self t m.worker_states in
            rw (f, no) refl
        | inr f ↦
            let ne : t ≡ u → ⊥ = λ q. ground arith in
            rw (f, lookup-delete_ne t u m.worker_states ne) refl
      ]
]

remove_targets-Sound :
    (ts : List ℕ) (p : Members) → SoundMembers p → SoundMembers (remove_targets ts p)
unfolding remove_targets
remove_targets-Sound [] p s = s
remove_targets-Sound (t ∷ ts) p s =
    remove_targets-Sound ts (remove_target t p) (remove_target-Good t p s).0

after_add-Sound :
    (added : List ℕ) (r rest : Option MemberError × Members)
    → SoundMembers r.1
    → SoundMembers rest.1
    → SoundMembers (after_add added r rest).1
unfolding after_add
after_add-Sound added (none, p) rest s q = q
after_add-Sound added (some e, p) rest s q = remove_targets-Sound added p s

pub register_targets-Sound :
    (added : List ℕ) (ts : List (ℕ × String)) (p : Members)
    → SoundMembers p
    → SoundMembers (register_targets added ts p).1
unfolding register_targets
register_targets-Sound added [] p s = s
register_targets-Sound added ((t, address) ∷ ts) p s =
    let next = (add_target-Good t address p s).0 in
    let r = add_target t address p in
    after_add-Sound added r (register_targets (added ++ (t ∷ [])) ts r.1) next
      (register_targets-Sound (added ++ (t ∷ [])) ts r.1 next)

-- The targets of a list of targets with addresses.
abbrev pub targets_of : List (ℕ × String) → List ℕ
targets_of [] = []
targets_of ((t, address) ∷ ts) = t ∷ targets_of ts

or_assoc : (a b c : Bool) → (b || (a || c)) ≡ ((a || b) || c)
or_assoc true true c = refl
or_assoc true false c = refl
or_assoc false b c = refl

after_add-member :
    (added : List ℕ) (t u : ℕ) (address : String) (ts : List ℕ) (p : Members)
    (r rest : Option MemberError × Members)
    → Added t address p r
    → (rest.0 ≡ none → is_member u rest.1.table ≡ (has u ts || is_member u r.1.table))
    → (after_add added r rest).0 ≡ none
    → is_member u (after_add added r rest).1.table ≡ (has u (t ∷ ts) || is_member u p.table)
unfolding after_add has
after_add-member added t u address ts p (none, q) rest (absent, (id, (new, launch))) go h =
    go h
    ∙ ap (λ b. has u ts || b) (ap (is_member u) launch ∙ is_member-launch t u id address p.table)
    ∙ or_assoc (t == u) (has u ts) (is_member u p.table)
after_add-member added t u address ts p (some e, q) rest a go h = cc

-- A registration that succeeds adds exactly its targets.
pub register_targets-member :
    (added : List ℕ) (ts : List (ℕ × String)) (p : Members) (u : ℕ)
    → (register_targets added ts p).0 ≡ none
    → is_member u (register_targets added ts p).1.table
      ≡ (has u (targets_of ts) || is_member u p.table)
unfolding register_targets has
register_targets-member added [] p u h = refl
register_targets-member added ((t, address) ∷ ts) p u h =
    let r = add_target t address p in
    after_add-member added t u address (targets_of ts) p r
      (register_targets (added ++ (t ∷ [])) ts r.1) (add_target-Added t address p)
      (λ h'. register_targets-member (added ++ (t ∷ [])) ts r.1 u h') h
