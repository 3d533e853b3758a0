-- ===== src/Edits/Consistent.antt =====
-- The edits of a session in cmd/main/live_targets.go keep its lists, its groups and its pinger
-- together.
use mathlib.Core.Path.{subst}
use mping.Base.{
  ℕ, ◌<◌, ◌≡◌, refl, sym, ap, ◌∙◌, inl, inr, Bool, true, false, not, ◌&&◌, Option, none, some, List,
  Option-cases, if_split, arith, leb, length, get_elem?, ◌==◌,
}
use mping.Base.Dict.{has}
use mping.Members.{Members, is_member, remove_target}
use mping.Members.Calls.{SoundMembers, remove_target-Good}
use mping.Members.Membership.{is_member-remove}
use mping.Edits.{
  Session, EditError, archive_target, detach_target_monitors, remove_at, renumber_groups, not_found,
  take_out, take_out_running, remove_target_at, remove_index,
}
use mping.Edits.Removal.{detach-SameLists, get_elem?-some}
use mping.Edits.Shape.{
  Distinct, AllBelow, GroupsBelow, length-remove_at, Distinct-remove_at, AllBelow-remove_at,
  has-remove_at, GroupsBelow-renumber,
}

-- While the session runs, its pinger measures its targets.
abbrev pub Measured : Bool → Option Members → List ℕ → Type 0
Measured false p ts = Unit {0}
Measured true none ts = Unit {0}
Measured true (some p) ts = SoundMembers p × ((t : ℕ) → is_member t p.table ≡ has t ts)

-- Every target has its spec, the groups have indices in range, no target stands twice, and the
-- running pinger measures exactly the targets.
pub record Consistent (s : Session) : Type 0 where
  pub parallel : length s.specs ≡ length s.targets
  pub grouped : GroupsBelow (length s.targets) s.groups
  pub distinct : Distinct s.targets
  pub numbered : AllBelow s.made s.targets
  pub measured : Measured s.running s.pinger s.targets

archive-pinger : (t : ℕ) (s : Session) → (archive_target t s).pinger ≡ s.pinger
unfolding archive_target
archive-pinger t s = if_split (λ (r : Session). r.pinger ≡ s.pinger) _ _ _ (λ h. refl) (λ h. refl)

-- A pinger that measures the targets goes on to measure those left.
Measured-remove :
    (i t : ℕ) (p : Members) (ts : List ℕ)
    → Distinct ts
    → get_elem? ts i ≡ some t
    → Measured true (some p) ts
    → Measured true (some (remove_target t p)) (remove_at i ts)
unfolding remove_target
Measured-remove i t p ts d at (s, m) = (
  (remove_target-Good t p s).0,
  λ u.
      is_member-remove t u p.table
      ∙ ap (λ b. not (t == u) && b) (m u)
      ∙ sym (has-remove_at u i t ts d at),
)

-- The target at `i` leaves, and the pinger is as given.
take_out-Consistent :
    (i t : ℕ) (p : Option Members) (s : Session)
    → Consistent s
    → get_elem? s.targets i ≡ some t
    → i < length s.targets
    → Measured s.running (take_out i t p s).pinger (remove_at i s.targets)
    → Consistent (take_out i t p s)
unfolding take_out
take_out-Consistent i t p s c at h m =
    let r = detach_target_monitors p t s in
    let (a, (b, (g, (run, made)))) = detach-SameLists p t s in
    let n = length-remove_at i s.targets h in
    let k = length-remove_at i s.specs (omega (arith, c.parallel)) in
    let after : Session = record r {
      specs = remove_at i s.specs;
      groups = renumber_groups i s.groups;
      targets = remove_at i s.targets;
    } in
    let same : after ≡ take_out i t p s = simp (take_out, a, b, g) refl in
    let goal : Consistent after = record {
      parallel = omega (arith, n, k, c.parallel);
      grouped =
          GroupsBelow-renumber (length (remove_at i s.targets)) i s.groups
            (subst (λ l. GroupsBelow l s.groups) (sym n) c.grouped) (omega (arith, n));
      distinct = Distinct-remove_at i s.targets c.distinct;
      numbered =
          subst (λ l. AllBelow l (remove_at i s.targets)) (sym made)
            (AllBelow-remove_at s.made i s.targets c.numbered);
      measured = subst (λ b. Measured b r.pinger (remove_at i s.targets)) (sym run) m;
    } in
    subst Consistent same goal

running-Consistent :
    (i t : ℕ) (p : Option Members) (s : Session)
    → Consistent s
    → get_elem? s.targets i ≡ some t
    → s.running ≡ true
    → s.pinger ≡ p
    → Consistent (take_out_running i t p s).1
unfolding take_out_running take_out detach_target_monitors
running-Consistent i t none s c at run e = c
running-Consistent i t (some p) s c at run e =
    let before : Measured true (some p) s.targets =
      subst (λ b. Measured b (some p) s.targets) run
        (subst (λ o. Measured s.running o s.targets) e c.measured) in
    let after = Measured-remove i t p s.targets c.distinct at before in
    let left : (take_out i t (some p) s).pinger ≡ some (remove_target t p) = archive-pinger t _ in
    take_out-Consistent i t (some p) s c at (get_elem?-some s.targets i t at) (
      subst (λ o. Measured s.running o (remove_at i s.targets)) (sym left)
        (subst (λ b. Measured b (some (remove_target t p)) (remove_at i s.targets)) (sym run)
          after))

stopped-Consistent :
    (i t : ℕ) (s : Session)
    → Consistent s
    → get_elem? s.targets i ≡ some t
    → s.running ≡ false
    → Consistent (take_out i t none s)
stopped-Consistent i t s c at run =
    take_out-Consistent i t none s c at (get_elem?-some s.targets i t at)
      (subst (λ b. Measured b (take_out i t none s).pinger (remove_at i s.targets)) (sym run) tt)

pub remove_index-Consistent : (i : ℕ) (s : Session) → Consistent s → Consistent (remove_index i s).1
unfolding remove_index remove_target_at
remove_index-Consistent i s c = elim (Option-cases (get_elem? s.targets i)) [
  | inl e ↦
      let same : remove_index i s ≡ (some not_found, s) = simp (remove_index, e) refl in
      subst (λ r. Consistent r.1) (sym same) c
  | inr (t, e) ↦
      let same : remove_index i s ≡ remove_target_at i (some t) s = simp (remove_index, e) refl in
      subst (λ r. Consistent r.1) (sym same)
        (if_split (λ (r : Option EditError × Session). Consistent r.1) (leb (length s.targets) 1) _
          _ (λ h. c)
          (λ h.
            if_split (λ (r : Option EditError × Session). Consistent r.1) s.running _ _
              (λ run. running-Consistent i t s.pinger s c e run refl)
              (λ run. stopped-Consistent i t s c e run)))
]
