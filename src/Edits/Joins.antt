-- ===== src/Edits/Joins.antt =====
-- New hosts join a session in cmd/main/live_targets.go.
use mathlib.Core.Path.{subst}
use mping.Base.{
  ℕ, ◌+◌, ◌≡◌, refl, sym, ap, ◌∙◌, inl, inr, Bool, true, false, ◌||◌, Option, none, some, List, [],
  ◌∷◌, ◌++◌, Option-cases, if_split, arith, length, length-append,
}
use mping.Base.Dict.{has, has-append}
use mping.Hosts.{TargetSpec, range_from}
use mping.Members.{MemberError, Members, is_member, register_targets}
use mping.Members.Register.{register_targets-undone}
use mping.Members.Membership.{register_targets-Sound, register_targets-member}
use mping.Edits.{
  Session, EditError, attach_target_monitors, attach_all, join_targets, with_addresses,
  join_registered, join_running, join_specs,
}
use mping.Edits.Shape.{
  AllBelow-mono, GroupsBelow, GroupsBelow-mono, AllBelow-extended, Distinct-extended,
  length-range_from, targets_of-with_addresses,
}
use mping.Edits.Consistent.{Measured, Consistent}

-- What the monitors leave alone.
abbrev SameCore : Session → Session → Type 0
SameCore s r =
    ((r.targets ≡ s.targets) × (r.specs ≡ s.specs))
    × ((r.groups ≡ s.groups) × ((r.running ≡ s.running) × (r.pinger ≡ s.pinger)))

attach-SameCore : (t : ℕ) (s : Session) → SameCore s (attach_target_monitors t s)
unfolding attach_target_monitors
attach-SameCore t s =
    if_split (SameCore s) s.running _ _ (λ h. ((refl, refl), (refl, (refl, refl))))
      (λ h. ((refl, refl), (refl, (refl, refl))))

attach_all-SameCore : (ts : List ℕ) (s : Session) → SameCore s (attach_all ts s)
unfolding attach_all
attach_all-SameCore [] s = ((refl, refl), (refl, (refl, refl)))
attach_all-SameCore (t ∷ ts) s =
    let ((a, b), (c, (d, e))) = attach-SameCore t s in
    let ((a', b'), (c', (d', e'))) = attach_all-SameCore ts (attach_target_monitors t s) in
    ((a' ∙ a, b' ∙ b), (c' ∙ c, (d' ∙ d, e' ∙ e)))

made-attach : (ts : List ℕ) (s : Session) → (attach_all ts s).made ≡ s.made
unfolding attach_all attach_target_monitors
made-attach [] s = refl
made-attach (t ∷ ts) s =
    made-attach ts (attach_target_monitors t s)
    ∙ if_split (λ (r : Session). r.made ≡ s.made) s.running _ _ (λ h. refl) (λ h. refl)

-- New targets join; the pinger measures them already if the session runs.
join_targets-Consistent :
    (specs : List TargetSpec) (o : Option Members) (s : Session)
    → Consistent s
    → Measured s.running o (s.targets ++ range_from s.made (length specs))
    → Consistent (join_targets specs (record s { pinger = o }))
unfolding join_targets
join_targets-Consistent specs o s c m =
    let added = range_from s.made (length specs) in
    let before : Session = record s { pinger = o } in
    let r = attach_all added before in
    let ((a, b), (g, (run, ping))) = attach_all-SameCore added before in
    let made = made-attach added before in
    let after : Session = record r {
      targets = s.targets ++ added;
      specs = s.specs ++ specs;
      finished = false;
      made = s.made + length specs;
    } in
    let same : after ≡ join_targets specs before = simp (join_targets, a, b, made) refl in
    let counts = length-append s.specs specs in
    let counts' = length-append s.targets added in
    let n = length-range_from s.made (length specs) in
    let goal : Consistent after = record {
      parallel = omega (arith, c.parallel, counts, counts', n);
      grouped =
          subst (λ gs. GroupsBelow (length (s.targets ++ added)) gs) (sym g)
            (GroupsBelow-mono (length s.targets) (length (s.targets ++ added)) s.groups
              (omega (arith, counts')) c.grouped);
      distinct = Distinct-extended s.made (length specs) s.targets c.numbered c.distinct;
      numbered = AllBelow-extended s.made (length specs) s.targets c.numbered;
      measured =
          subst (λ x. Measured x r.pinger (s.targets ++ added)) (sym run)
            (subst (λ o. Measured s.running o (s.targets ++ added)) (sym ping) m);
    } in
    subst Consistent same goal

or_comm : (a b : Bool) → (a || b) ≡ (b || a)
or_comm true true = refl
or_comm true false = refl
or_comm false true = refl
or_comm false false = refl

-- What a registration leaves measured: with an error the old targets, else the new ones as well.
abbrev Registered : List ℕ → List ℕ → Option MemberError × Members → Type 0
Registered ts added (some e, p) = Measured true (some p) ts
Registered ts added (none, p) = Measured true (some p) (ts ++ added)

abbrev Outcome : List ℕ → List ℕ → Option MemberError → Members → Type 0
Outcome ts added e p = Registered ts added (e, p)

register-Registered :
    (specs : List TargetSpec) (made : ℕ) (p : Members) (ts : List ℕ)
    → Measured true (some p) ts
    → Registered ts
        (range_from made (length specs))
        (register_targets [] (with_addresses made specs) p)
register-Registered specs made p ts (s, m) =
    let r = register_targets [] (with_addresses made specs) p in
    let sound = register_targets-Sound [] (with_addresses made specs) p s in
    let added = range_from made (length specs) in
    elim (Option-cases r.0) [
      | inl e ↦
          subst (λ o. Outcome ts added o r.1) (sym e)
            (
              sound,
              λ u.
                  register_targets-member [] (with_addresses made specs) p u e
                  ∙ ap (λ l. has u l || is_member u p.table) (targets_of-with_addresses made specs)
                  ∙ ap (λ b. has u added || b) (m u)
                  ∙ or_comm (has u added) (has u ts)
                  ∙ sym (has-append u ts added),
            )
      | inr (error, e) ↦
          subst (λ o. Outcome ts added o r.1) (sym e)
            (
              sound,
              λ u.
                  ap (is_member u) (register_targets-undone (with_addresses made specs) p error s e)
                  ∙ m u,
            )
    ]

-- Numbers that are not used are spent.
spend : (n : ℕ) (s : Session) → Consistent s → Consistent (record s { made = s.made + n })
spend n s c = record {
  parallel = c.parallel;
  grouped = c.grouped;
  distinct = c.distinct;
  numbered = AllBelow-mono s.made (s.made + n) s.targets (omega arith) c.numbered;
  measured = c.measured;
}

join_registered-Consistent :
    (specs : List TargetSpec) (r : Option MemberError × Members) (s : Session)
    → Consistent s
    → s.running ≡ true
    → Registered s.targets (range_from s.made (length specs)) r
    → Consistent (join_registered specs r s).1
unfolding join_registered
join_registered-Consistent specs (none, p) s c run m =
    join_targets-Consistent specs (some p) s c
      (subst (λ b. Measured b (some p) (s.targets ++ range_from s.made (length specs))) (sym run) m)
join_registered-Consistent specs (some e, p) s c run m = record {
  parallel = c.parallel;
  grouped = c.grouped;
  distinct = c.distinct;
  numbered = AllBelow-mono s.made (s.made + length specs) s.targets (omega arith) c.numbered;
  measured = subst (λ b. Measured b (some p) s.targets) (sym run) m;
}

join_running-Consistent :
    (specs : List TargetSpec) (o : Option Members) (s : Session)
    → Consistent s
    → s.running ≡ true
    → s.pinger ≡ o
    → Consistent (join_running specs o s).1
unfolding join_running
join_running-Consistent specs none s c run e = spend (length specs) s c
join_running-Consistent specs (some p) s c run e =
    let before : Measured true (some p) s.targets =
      subst (λ b. Measured b (some p) s.targets) run
        (subst (λ o. Measured s.running o s.targets) e c.measured) in
    join_registered-Consistent specs (register_targets [] (with_addresses s.made specs) p) s c run
      (register-Registered specs s.made p s.targets before)

abbrev pub ConsistentAfter : Option EditError × Session → Type 0
ConsistentAfter r = Consistent r.1

pub join_specs-Consistent :
    (specs : List TargetSpec) (s : Session) → Consistent s → ConsistentAfter (join_specs specs s)
unfolding join_specs
join_specs-Consistent specs s c =
    if_split ConsistentAfter s.running _ _
      (λ run. join_running-Consistent specs s.pinger s c run refl)
      (λ run. join_targets-Consistent specs s.pinger s c (
        subst (λ b. Measured b s.pinger (s.targets ++ range_from s.made (length specs))) (sym run)
          tt))
