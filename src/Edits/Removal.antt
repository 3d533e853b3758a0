-- ===== src/Edits/Removal.antt =====
-- The removal of a target from a session: `removeTarget`, `deleteHost` and `deleteTargetID` in
-- cmd/main/live_targets.go.
use mathlib.Core.Path.{subst}
use mping.Base.{
  ℕ, zero, suc, ◌<◌, ◌≡◌, refl, sym, ap, ◌∙◌, inl, inr, Option, none, some, List, [], ◌∷◌, map,
  Option-cases, if_split, arith, leb, length, get_elem?,
}
use mping.Base.Text.{String}
use mping.Members.{Members, remove_target}
use mping.Edits.{
  Session, EditError, not_found, archive_target, remove_monitor, detach_target_monitors, remove_at,
  renumber_groups, take_out, take_out_running, remove_target_at, remove_index, matches_from,
  delete_matching, edit_targets, delete_host, index_of, delete_found, delete_target_id,
}
use mping.Edits.Groups.{group_targets, groups_without, renumber_groups-targets}

pub get_elem?-some :
    {A : Type 0} (xs : List A) (i : ℕ) (a : A) → get_elem? xs i ≡ some a → i < length xs
get_elem?-some [] i a h = cc
get_elem?-some (x ∷ xs) zero a h = omega arith
get_elem?-some (x ∷ xs) (suc i) a h = let rest = get_elem?-some xs i a h in omega (arith, rest)

-- The lists, the live flag and the count of targets made are those of the other session.
abbrev pub SameLists : Session → Session → Type 0
SameLists s r =
    (r.targets ≡ s.targets)
    × ((r.specs ≡ s.specs)
        × ((r.groups ≡ s.groups) × ((r.running ≡ s.running) × (r.made ≡ s.made))))

archive-SameLists : (t : ℕ) (s : Session) → SameLists s (archive_target t s)
unfolding archive_target
archive-SameLists t s =
    if_split (SameLists s) _ _ _ (λ h. (refl, (refl, (refl, (refl, refl)))))
      (λ h. (refl, (refl, (refl, (refl, refl)))))

pub detach-SameLists :
    (p : Option Members) (t : ℕ) (s : Session) → SameLists s (detach_target_monitors p t s)
unfolding detach_target_monitors
detach-SameLists none t s = archive-SameLists t s
detach-SameLists (some p) t s = archive-SameLists t (record s {
  route = remove_monitor t s.route;
  port = remove_monitor t s.port;
  pinger = some (remove_target t p);
})

-- The lists after the target at `i` is taken out.
abbrev pub Without : ℕ → Session → Session → Type 0
Without i s r =
    ((r.targets ≡ remove_at i s.targets) × (r.specs ≡ remove_at i s.specs))
    × ((r.groups ≡ renumber_groups i s.groups) × ((r.running ≡ s.running) × (r.made ≡ s.made)))

take_out-Without : (i t : ℕ) (p : Option Members) (s : Session) → Without i s (take_out i t p s)
unfolding take_out
take_out-Without i t p s =
    let (a, (b, (c, (d, e)))) = detach-SameLists p t s in
    ((ap (remove_at i) a, ap (remove_at i) b), (ap (renumber_groups i) c, (d, e)))

-- What a removal did: with an error nothing, else it took out one of several targets.
abbrev pub Removed : ℕ → Session → Option EditError × Session → Type 0
Removed i s (some e, r) = r ≡ s
Removed i s (none, r) = ((i < length s.targets) × (1 < length s.targets)) × Without i s r

running-Removed :
    (i t : ℕ) (p : Option Members) (s : Session)
    → i < length s.targets
    → 1 < length s.targets
    → Removed i s (take_out_running i t p s)
unfolding take_out_running
running-Removed i t none s h k = refl
running-Removed i t (some p) s h k = ((h, k), take_out-Without i t (some p) s)

remove_target_at-Removed :
    (i t : ℕ) (s : Session) → i < length s.targets → Removed i s (remove_target_at i (some t) s)
unfolding remove_target_at
remove_target_at-Removed i t s h =
    if_split (Removed i s) (leb (length s.targets) 1) _ _ (λ e. refl)
      (λ e.
        let several : 1 < length s.targets = ground arith in
        if_split (Removed i s) s.running _ _ (λ r. running-Removed i t s.pinger s h several)
          (λ r. ((h, several), take_out-Without i t none s)))

pub remove_index-Removed : (i : ℕ) (s : Session) → Removed i s (remove_index i s)
unfolding remove_index remove_target_at
remove_index-Removed i s = elim (Option-cases (get_elem? s.targets i)) [
  | inl e ↦
      let same : remove_index i s ≡ (some not_found, s) = simp (remove_index, e) refl in
      subst (Removed i s) (sym same) refl
  | inr (t, e) ↦
      let same : remove_index i s ≡ remove_target_at i (some t) s = simp (remove_index, e) refl in
      subst (Removed i s) (sym same)
        (remove_target_at-Removed i t s (get_elem?-some s.targets i t e))
]

delete_matching-Removed : (is : List ℕ) (s : Session) → (i : ℕ) × Removed i s (delete_matching is s)
unfolding delete_matching
delete_matching-Removed [] s = (0, refl)
delete_matching-Removed (i ∷ []) s = (i, remove_index-Removed i s)
delete_matching-Removed (i ∷ j ∷ js) s = (i, refl)

edit-Removed :
    (edit : Session → Option EditError × Session) (s : Session)
    → ((i : ℕ) × Removed i s (edit s))
    → (i : ℕ) × Removed i s (edit_targets edit s)
unfolding edit_targets
edit-Removed edit s h =
    if_split (λ r. (i : ℕ) × Removed i s r) s.terminated _ _ (λ e. (0, refl)) (λ e. h)

pub delete_host-Removed : (host : String) (s : Session) → (i : ℕ) × Removed i s (delete_host host s)
unfolding delete_host
delete_host-Removed host s =
    edit-Removed (λ r. delete_matching (matches_from 0 host r.specs) r) s
      (delete_matching-Removed (matches_from 0 host s.specs) s)

delete_found-Removed : (o : Option ℕ) (s : Session) → (i : ℕ) × Removed i s (delete_found o s)
unfolding delete_found
delete_found-Removed none s = (0, refl)
delete_found-Removed (some i) s = (i, remove_index-Removed i s)

pub delete_target_id-Removed : (t : ℕ) (s : Session) → (i : ℕ) × Removed i s (delete_target_id t s)
unfolding delete_target_id
delete_target_id-Removed t s =
    edit-Removed (λ r. delete_found (index_of t 0 r.targets) r) s
      (delete_found-Removed (index_of t 0 s.targets) s)

-- The removal of one target by index.
Removed-groups :
    (i : ℕ) (s : Session) (r : Option EditError × Session)
    → Removed i s r
    → r.0 ≡ none
    → map (group_targets r.1.targets) r.1.groups ≡ groups_without i s.targets s.groups
Removed-groups i s (some e, r) h q = cc
Removed-groups i s (none, r) ((h, k), ((a, b), (c, d))) q =
    ap (λ ts. map (group_targets ts) r.groups) a
    ∙ ap (map (group_targets (remove_at i s.targets))) c
    ∙ renumber_groups-targets i s.targets s.groups h

-- If the removal of a target succeeds, every group stands for the targets it stood for, less the
-- removed one, and exactly the groups that are left with none are gone.
pub remove_index-groups :
    (i : ℕ) (s : Session)
    → (remove_index i s).0 ≡ none
    → map (group_targets (remove_index i s).1.targets) (remove_index i s).1.groups
      ≡ groups_without i s.targets s.groups
remove_index-groups i s h = Removed-groups i s (remove_index i s) (remove_index-Removed i s) h
