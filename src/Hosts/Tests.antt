-- ===== src/Hosts/Tests.antt =====
-- The expansion of hosts in cmd/main/targetspec.go, at an example.
use mping.Base.{ℕ, ◌≤◌, ◌≡◌, refl, Bool, true, false, List, [], ◌∷◌, map, length}
use mping.Base.Text.{String, str_eq}
use mping.Hosts.{
  TargetSpec, TargetGroup, resolved_ips, resolve_host, resolve_all, pin, pin_all, expand_spec,
  range_from, expand_specs, expand_indices, expand_groups, expand_targets,
}
use mping.Hosts.Expand.{group_members, expanded_members, expand_targets-groups}
use mping.Hosts.Coverage.{Of, expand_spec-Of}

abbrev is_local : String → Bool
is_local host = str_eq host "10.0.0.1"

abbrev answers_for : Bool → List String
answers_for true = "192.0.2.1" ∷ "192.0.2.2" ∷ []
answers_for false = []

abbrev two_answers : ℕ → String → List String
two_answers i host = answers_for (str_eq host "example.com")

abbrev spec_of : String → TargetSpec
spec_of host = record { host = host; pinned_ip = ""; name = "" }

abbrev hosts : List TargetSpec
hosts = spec_of "10.0.0.1" ∷ spec_of "example.com" ∷ spec_of "unknown" ∷ []

abbrev site_groups : List TargetGroup
site_groups = record { name = "site"; indices = 1 ∷ 2 ∷ [] } ∷ []

abbrev expanded : List TargetSpec × List TargetGroup
expanded = expand_targets true is_local two_answers hosts site_groups

expand_targets-groups_example :
    map (group_members expanded.0) expanded.1
    ≡ map (expanded_members (resolve_all is_local two_answers 0 hosts []) hosts) site_groups
expand_targets-groups_example = expand_targets-groups is_local two_answers hosts site_groups

-- The group has the two addresses of one host and the other host.
expanded_indices : map TargetGroup.indices expanded.1 ≡ (1 ∷ 2 ∷ 3 ∷ []) ∷ []
unfolding expand_targets resolve_all resolve_host resolved_ips expand_specs expand_spec pin pin_all
    range_from expand_indices expand_groups
expanded_indices = refl

expand_spec-Of_example :
    (1 ≤ length (expand_spec (resolve_all is_local two_answers 0 hosts []) (spec_of "unknown")))
    × Of
        (spec_of "unknown")
        (expand_spec (resolve_all is_local two_answers 0 hosts []) (spec_of "unknown"))
expand_spec-Of_example = expand_spec-Of is_local two_answers hosts 2 (spec_of "unknown") refl
