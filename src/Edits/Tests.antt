-- ===== src/Edits/Tests.antt =====
-- The edits of a running session in cmd/main/live_targets.go, at an example.
use mping.Base.{ℕ, ◌≡◌, refl, ◌∙◌, Bool, true, false, ◌||◌, none, some, List, [], ◌∷◌, map, arith}
use mping.Base.Text.{String}
use mping.Base.Dict.{lookup, has, put, delete, without}
use mping.Hosts.{TargetSpec}
use mping.Members.{
  Members, register_targets, after_add, add_target, launch_allocated, launch_target,
  allocate_worker_id,
}
use mping.Members.Calls.{new_members, new_members-Sound}
use mping.Members.Membership.{register_targets-member, register_targets-Sound}
use mping.Edits.{Session, remove_index, remove_target_at, take_out_running}
use mping.Edits.Groups.{group_targets, groups_without}
use mping.Edits.Removal.{remove_index-groups}
use mping.Edits.Consistent.{Consistent}
use mping.Edits.Sessions.{Edit, edits, edits-Consistent}

abbrev start : Members
start = (register_targets [] ((0, "a") ∷ (1, "b") ∷ (2, "c") ∷ []) (new_members none 100)).1

abbrev spec_of : String → TargetSpec
spec_of host = record { host = host; pinned_ip = ""; name = "" }

abbrev session : Session
session = record {
  terminated = false;
  running = true;
  targets = 0 ∷ 1 ∷ 2 ∷ [];
  specs = spec_of "a" ∷ spec_of "b" ∷ spec_of "c" ∷ [];
  groups =
      record { name = "left"; indices = 0 ∷ [] }
      ∷ record { name = "all"; indices = 2 ∷ 0 ∷ [] }
      ∷ [];
  pinger = some start;
  route = some [];
  port = none;
  removed = [];
  removed_dropped = 0;
  finished = false;
  made = 3;
}

or_false : (b : Bool) → (b || false) ≡ b
or_false true = refl
or_false false = refl

session-Consistent : Consistent session
unfolding register_targets after_add add_target launch_allocated launch_target allocate_worker_id
    lookup has put delete new_members without
session-Consistent = record {
  parallel = refl;
  grouped = ((omega arith, tt), ((omega arith, (omega arith, tt)), tt));
  distinct = (refl, (refl, (refl, tt)));
  numbered = (omega arith, (omega arith, (omega arith, tt)));
  measured = (
    register_targets-Sound [] ((0, "a") ∷ (1, "b") ∷ (2, "c") ∷ []) (new_members none 100)
        (new_members-Sound none 100),
    λ u.
        register_targets-member [] ((0, "a") ∷ (1, "b") ∷ (2, "c") ∷ []) (new_members none 100) u
          refl
        ∙ or_false (has u (0 ∷ 1 ∷ 2 ∷ [])),
  );
}

abbrev no_answer : ℕ → String → List String
no_answer i host = []

abbrev not_addr : String → Bool
not_addr host = false

abbrev some_edits : List Edit
some_edits = Edit.add "d" ∷ Edit.delete "b" ∷ Edit.delete_id 7 ∷ []

edits-Consistent_example : Consistent (edits true not_addr no_answer some_edits session)
edits-Consistent_example =
    edits-Consistent true not_addr no_answer some_edits session session-Consistent

-- The group "left" loses its only target.
remove_index-groups_example :
    map (group_targets (remove_index 0 session).1.targets) (remove_index 0 session).1.groups
    ≡ groups_without 0 session.targets session.groups
remove_index-groups_example =
    remove_index-groups 0 session (unfold remove_index remove_target_at take_out_running in refl)

left_over : groups_without 0 session.targets session.groups ≡ ("all", some 2 ∷ []) ∷ []
unfolding groups_without without
left_over = refl
