-- ===== src/Hosts/Expand.antt =====
-- What the expansion of hosts in cmd/main/targetspec.go keeps.
use mping.Base.{
  ℕ, zero, suc, ◌-◌, ◌≡◌, refl, sym, ap, ◌∙◌, Bool, true, Option, none, some, List, [], ◌∷◌, ◌++◌,
  map, arith, length, get_elem?, get_or, length-append, get_elem?-append_right,
}
use mathlib.Core.List.{append_assoc, append-nil}
use mping.Base.Text.{String}
use mping.Hosts.{
  TargetSpec, TargetGroup, Resolved, resolve_all, expand_spec, range_from, expand_specs,
  expand_indices, expand_groups, expand_targets,
}

-- The hosts that a group stands for.
abbrev pub members : List TargetSpec → List ℕ → List (Option TargetSpec)
members specs is = map (get_elem? specs) is

-- What an index stands for after the expansion; one that is out of range stands for nothing.
abbrev pub expansions_at : Resolved → Option TargetSpec → List TargetSpec
expansions_at r none = []
expansions_at r (some t) = expand_spec r t

abbrev pub flat_expansions : Resolved → List (Option TargetSpec) → List TargetSpec
flat_expansions r [] = []
flat_expansions r (o ∷ os) = expansions_at r o ++ flat_expansions r os

members-append :
    (specs : List TargetSpec) (is js : List ℕ)
    → members specs (is ++ js) ≡ members specs is ++ members specs js
members-append specs [] js = refl
members-append specs (i ∷ is) js = ap (λ r. get_elem? specs i ∷ r) (members-append specs is js)

map-append :
    (xs ys : List TargetSpec)
    → map {B = Option TargetSpec} some (xs ++ ys) ≡ map some xs ++ map some ys
map-append [] ys = refl
map-append (x ∷ xs) ys = ap (λ r. some x ∷ r) (map-append xs ys)

-- A block of consecutive indices stands for the specs of that block.
members-range_from :
    (before own after : List TargetSpec)
    → members (before ++ (own ++ after)) (range_from (length before) (length own)) ≡ map some own
unfolding range_from
members-range_from before [] after = refl
members-range_from before (t ∷ own) after =
    let whole : before ++ (t ∷ (own ++ after)) ≡ (before ++ (t ∷ [])) ++ (own ++ after) =
      sym (append_assoc before (t ∷ []) (own ++ after)) in
    let next : length (before ++ (t ∷ [])) ≡ suc (length before) =
      length-append before (t ∷ []) ∙ omega arith in
    let head : get_elem? (before ++ (t ∷ (own ++ after))) (length before) ≡ some t =
      get_elem?-append_right before (t ∷ (own ++ after)) (length before) (omega arith)
      ∙ ap (get_elem? (t ∷ (own ++ after)))
          (let z : length before - length before ≡ 0 = omega arith in z) in
    let tail : members (before ++ (t ∷ (own ++ after)))
          (range_from (suc (length before)) (length own))
        ≡ map some own =
      ap (λ l. members l (range_from (suc (length before)) (length own))) whole
      ∙ ap (λ n. members ((before ++ (t ∷ [])) ++ (own ++ after)) (range_from n (length own)))
          (sym next)
      ∙ members-range_from (before ++ (t ∷ [])) own after in
    cc

expand_specs-prefix :
    (r : Resolved) (ts expanded : List TargetSpec)
    → (after : List TargetSpec) × ((expand_specs r ts expanded).0 ≡ expanded ++ after)
unfolding expand_specs
expand_specs-prefix r [] expanded = ([], sym (append-nil expanded))
expand_specs-prefix r (t ∷ ts) expanded =
    let (after, e) = expand_specs-prefix r ts (expanded ++ expand_spec r t) in
    (expand_spec r t ++ after, e ∙ append_assoc expanded (expand_spec r t) after)

members-expand_specs :
    (r : Resolved) (ts expanded : List TargetSpec) (k : ℕ)
    → members (expand_specs r ts expanded).0 (get_or (expand_specs r ts expanded).1 k [])
      ≡ map some (expansions_at r (get_elem? ts k))
unfolding expand_specs
members-expand_specs r [] expanded k = refl
members-expand_specs r (t ∷ ts) expanded zero =
    let own = expand_spec r t in
    let (after, e) = expand_specs-prefix r ts (expanded ++ own) in
    ap (λ l. members l (range_from (length expanded) (length own)))
      (e ∙ append_assoc expanded own after)
    ∙ members-range_from expanded own after
members-expand_specs r (t ∷ ts) expanded (suc k) =
    members-expand_specs r ts (expanded ++ expand_spec r t) k

members-expand_indices :
    (r : Resolved) (ts : List TargetSpec) (is : List ℕ)
    → members (expand_specs r ts []).0 (expand_indices (expand_specs r ts []).1 is)
      ≡ map some (flat_expansions r (members ts is))
unfolding expand_indices
members-expand_indices r ts [] = refl
members-expand_indices r ts (i ∷ is) =
    let all = (expand_specs r ts []).0 in
    let expansion = (expand_specs r ts []).1 in
    members-append all (get_or expansion i []) (expand_indices expansion is)
    ∙ ap (λ l. l ++ members all (expand_indices expansion is)) (members-expand_specs r ts [] i)
    ∙ ap (λ l. map some (expansions_at r (get_elem? ts i)) ++ l) (members-expand_indices r ts is)
    ∙ sym (map-append (expansions_at r (get_elem? ts i)) (flat_expansions r (members ts is)))

-- The name of a group and the hosts that it stands for.
abbrev pub group_members : List TargetSpec → TargetGroup → String × List (Option TargetSpec)
group_members specs g = (g.name, members specs g.indices)

abbrev pub expanded_members :
    Resolved → List TargetSpec → TargetGroup → String × List (Option TargetSpec)
expanded_members r specs g = (g.name, map some (flat_expansions r (members specs g.indices)))

members-expand_groups :
    (r : Resolved) (ts : List TargetSpec) (gs : List TargetGroup)
    → map (group_members (expand_specs r ts []).0) (expand_groups (expand_specs r ts []).1 gs)
      ≡ map (expanded_members r ts) gs
unfolding expand_groups
members-expand_groups r ts [] = refl
members-expand_groups r ts (g ∷ gs) =
    let here = members-expand_indices r ts g.indices in
    let rest = members-expand_groups r ts gs in cc

-- After the expansion every group has its name, and stands for the expansions of the hosts it stood
-- for, in their order; an index out of range is dropped.
pub expand_targets-groups :
    (is_addr : String → Bool) (lookup_ip : ℕ → String → List String) (specs : List TargetSpec)
    (groups : List TargetGroup)
    → let (all, expanded) = expand_targets true is_addr lookup_ip specs groups in
      map (group_members all) expanded
      ≡ map (expanded_members (resolve_all is_addr lookup_ip 0 specs []) specs) groups
unfolding expand_targets
expand_targets-groups is_addr lookup_ip specs groups =
    members-expand_groups (resolve_all is_addr lookup_ip 0 specs []) specs groups
