-- ===== src/Edits/Sessions.antt =====
-- Any edits of the hosts in cmd/main/live_targets.go keep a session consistent.
use mping.Base.{ℕ, Bool, Option, none, some, List, [], ◌∷◌, if_split}
use mping.Base.Text.{String, is_empty}
use mping.Edits.{
  Session, EditError, is_listed, add_unlisted, add_host, edit_targets, matches_from,
  delete_matching, delete_host, index_of, delete_found, delete_target_id,
}
use mping.Edits.Consistent.{Consistent, remove_index-Consistent}
use mping.Edits.Joins.{ConsistentAfter, join_specs-Consistent}

edit_targets-Consistent :
    (edit : Session → Option EditError × Session) (s : Session)
    → Consistent s
    → ConsistentAfter (edit s)
    → ConsistentAfter (edit_targets edit s)
unfolding edit_targets
edit_targets-Consistent edit s c h = if_split ConsistentAfter s.terminated _ _ (λ e. c) (λ e. h)

delete_matching-Consistent :
    (is : List ℕ) (s : Session) → Consistent s → ConsistentAfter (delete_matching is s)
unfolding delete_matching
delete_matching-Consistent [] s c = c
delete_matching-Consistent (i ∷ []) s c = remove_index-Consistent i s c
delete_matching-Consistent (i ∷ j ∷ js) s c = c

delete_found-Consistent :
    (o : Option ℕ) (s : Session) → Consistent s → ConsistentAfter (delete_found o s)
unfolding delete_found
delete_found-Consistent none s c = c
delete_found-Consistent (some i) s c = remove_index-Consistent i s c

-- The edits that a user can make.
pub data Edit : Type 0 where
  add delete : String → Edit
  delete_id : ℕ → Edit

module _ (resolve_all : Bool) (is_addr : String → Bool) (lookup_ip : ℕ → String → List String) where
  unfoldable pub edit : Edit → Session → Option EditError × Session
  edit (add host) s = add_host resolve_all is_addr lookup_ip host s
  edit (delete host) s = delete_host host s
  edit (delete_id t) s = delete_target_id t s

  unfoldable pub edits : List Edit → Session → Session
  edits [] s = s
  edits (e ∷ es) s = edits es (edit e s).1

  edit-Consistent : (e : Edit) (s : Session) → Consistent s → ConsistentAfter (edit e s)
  unfolding edit add_host add_unlisted delete_host delete_target_id
  edit-Consistent (add host) s c =
      if_split ConsistentAfter (is_empty host) _ _ (λ h. c)
        (λ h. edit_targets-Consistent (add_unlisted resolve_all is_addr lookup_ip host) s c (
          if_split ConsistentAfter (is_listed host s.specs) _ _ (λ l. c)
            (λ l. join_specs-Consistent _ s c)))
  edit-Consistent (delete host) s c =
      edit_targets-Consistent (λ r. delete_matching (matches_from 0 host r.specs) r) s c
        (delete_matching-Consistent (matches_from 0 host s.specs) s c)
  edit-Consistent (delete_id t) s c =
      edit_targets-Consistent (λ r. delete_found (index_of t 0 r.targets) r) s c
        (delete_found-Consistent (index_of t 0 s.targets) s c)

  -- Any edits of a consistent session, those that fail included, leave it consistent: a spec for
  -- each target, every index of a group in range, no target twice, and a running pinger that has
  -- exactly the targets of the session.
  pub edits-Consistent : (es : List Edit) (s : Session) → Consistent s → Consistent (edits es s)
  unfolding edits
  edits-Consistent [] s c = c
  edits-Consistent (e ∷ es) s c = edits-Consistent es (edit e s).1 (edit-Consistent e s c)
