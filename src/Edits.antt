-- ===== src/Edits.antt =====
-- cmd/main/live_targets.go: the edits of the hosts of a session while it runs, one at a time on the
-- supervisor's loop (`editTargets`), with `archiveTarget` of cmd/main/report.go. A target is a
-- number; a new one gets the next number, as every `NewTargetStats` makes a new object. Of the
-- statistics of a target only its membership is here. The pinger is the one of the session if it
-- supports edits while it runs (`livePinger`), and the monitors are sets of the targets they run.
pub mod Groups
pub mod Removal
pub mod Shape
pub mod Consistent
pub mod Joins
pub mod Sessions
mod Tests
use mping.Base.{
  ℕ, zero, suc, ◌+◌, ◌-◌, Bool, true, false, not, ◌||◌, Option, none, some, List, [], ◌∷◌, ◌++◌,
  ltb, leb, ◌==◌, if◌then◌else◌, length, get_elem?, take, drop, take_last,
}
use mping.Base.Text.{String, str_eq, is_empty}
use mping.Base.Dict.{has, without}
use mping.Hosts.{TargetSpec, TargetGroup, resolve_addr, display, expand_targets, range_from}
use mping.Members.{MemberError, Members, remove_target, register_targets}

-- A record of the archive: the target and the name of its group.
pub record Archived : Type 0 where
  pub target : ℕ
  pub group : String

pub record Session : Type 0 where
  pub terminated : Bool
  pub running : Bool
  pub targets : List ℕ
  pub specs : List TargetSpec
  pub groups : List TargetGroup
  pub pinger : Option Members
  pub route : Option (List ℕ)
  pub port : Option (List ℕ)
  pub removed : List Archived
  pub removed_dropped : ℕ
  pub finished : Bool
  pub made : ℕ

pub data EditError : Type 0 where
  is_terminated empty_host already_listed not_found ambiguous last_host not_live no_longer_active :
      EditError
  not_added : MemberError → EditError

abbrev pub max_removed_targets : ℕ
max_removed_targets = 128

-- The name of the last group that has the index, or none.
unfoldable pub group_name_for_index : ℕ → List TargetGroup → String → String
group_name_for_index i [] name = name
group_name_for_index i (g ∷ gs) name =
    group_name_for_index i gs (if has i g.indices then g.name else name)

-- The position of a target from `i` on.
unfoldable pub index_of : ℕ → ℕ → List ℕ → Option ℕ
index_of t i [] = none
index_of t i (u ∷ us) = let rest = index_of t (suc i) us in if u == t then some i else rest

abbrev pub group_at : Option ℕ → List TargetGroup → String
group_at none groups = ""
group_at (some i) groups = group_name_for_index i groups ""

unfoldable pub archive_target : ℕ → Session → Session
archive_target t s =
    let record_of : Archived = record {
      target = t;
      group = group_at (index_of t 0 s.targets) s.groups;
    } in
    let removed = s.removed ++ (record_of ∷ []) in
    if ltb max_removed_targets (length removed)
    then record s {
      removed = take_last max_removed_targets removed;
      removed_dropped = s.removed_dropped + 1;
    }
    else record s { removed = removed }

-- `AddTarget` and `RemoveTarget` of the route engine and of the port checker.
unfoldable pub add_monitor : ℕ → Option (List ℕ) → Option (List ℕ)
add_monitor t none = none
add_monitor t (some runs) = some (if has t runs then runs else t ∷ runs)

unfoldable pub remove_monitor : ℕ → Option (List ℕ) → Option (List ℕ)
remove_monitor t none = none
remove_monitor t (some runs) = some (without t runs)

unfoldable pub attach_target_monitors : ℕ → Session → Session
attach_target_monitors t s =
    if s.running then record s { route = add_monitor t s.route; port = add_monitor t s.port } else s

unfoldable pub attach_all : List ℕ → Session → Session
attach_all [] s = s
attach_all (t ∷ ts) s = attach_all ts (attach_target_monitors t s)

-- `detachTargetMonitors`; the pinger is there only while the session runs.
unfoldable pub detach_target_monitors : Option Members → ℕ → Session → Session
detach_target_monitors none t s = archive_target t s
detach_target_monitors (some p) t s = archive_target t (record s {
  route = remove_monitor t s.route;
  port = remove_monitor t s.port;
  pinger = some (remove_target t p);
})

abbrev pub remove_at : {A : Type 0} → ℕ → List A → List A
remove_at i xs = take i xs ++ drop (suc i) xs

-- The indices of a group once the target at `i` is gone.
unfoldable pub renumber : ℕ → List ℕ → List ℕ
renumber i [] = []
renumber i (j ∷ js) =
    let rest = renumber i js in if j == i then rest else (if ltb i j then j - 1 else j) ∷ rest

-- The groups that keep a target.
unfoldable pub renumber_groups : ℕ → List TargetGroup → List TargetGroup
renumber_groups i [] = []
renumber_groups i (g ∷ gs) =
    let indices = renumber i g.indices in
    let rest = renumber_groups i gs in
    if ltb 0 (length indices) then record { name = g.name; indices = indices } ∷ rest else rest

-- What `removeTarget` does to a session that has more targets.
unfoldable pub take_out : ℕ → ℕ → Option Members → Session → Session
take_out i t p s0 =
    let s = detach_target_monitors p t s0 in
    record s {
      specs = remove_at i s.specs;
      groups = renumber_groups i s.groups;
      targets = remove_at i s.targets;
    }

-- The pinger of a running session.
unfoldable pub take_out_running : ℕ → ℕ → Option Members → Session → Option EditError × Session
take_out_running i t none s = (some not_live, s)
take_out_running i t (some p) s = (none, take_out i t (some p) s)

-- `removeTarget`; an index out of range, which the code never passes, changes nothing.
unfoldable pub remove_target_at : ℕ → Option ℕ → Session → Option EditError × Session
remove_target_at i none s = (some not_found, s)
remove_target_at i (some t) s =
    if leb (length s.targets) 1
    then (some last_host, s)
    else if s.running
    then take_out_running i t s.pinger s
    else (none, take_out i t none s)

unfoldable pub remove_index : ℕ → Session → Option EditError × Session
remove_index i s = remove_target_at i (get_elem? s.targets i) s

-- `editTargets`: the supervisor's loop refuses an edit once it has ended.
unfoldable pub edit_targets :
    (Session → Option EditError × Session) → Session → Option EditError × Session
edit_targets edit s = if s.terminated then (some is_terminated, s) else edit s

-- The positions of the specs that are displayed as the host.
unfoldable pub matches_from : ℕ → String → List TargetSpec → List ℕ
matches_from i host [] = []
matches_from i host (t ∷ ts) =
    let rest = matches_from (suc i) host ts in if str_eq (display t) host then i ∷ rest else rest

unfoldable pub delete_matching : List ℕ → Session → Option EditError × Session
delete_matching [] s = (some not_found, s)
delete_matching (i ∷ []) s = remove_index i s
delete_matching (i ∷ j ∷ js) s = (some ambiguous, s)

unfoldable pub delete_host : String → Session → Option EditError × Session
delete_host host s = edit_targets (λ r. delete_matching (matches_from 0 host r.specs) r) s

unfoldable pub delete_found : Option ℕ → Session → Option EditError × Session
delete_found none s = (some no_longer_active, s)
delete_found (some i) s = remove_index i s

-- `deleteTargetID`.
unfoldable pub delete_target_id : ℕ → Session → Option EditError × Session
delete_target_id t s = edit_targets (λ r. delete_found (index_of t 0 r.targets) r) s

-- The targets and the addresses that `registerTargets` adds.
unfoldable pub with_addresses : ℕ → List TargetSpec → List (ℕ × String)
with_addresses n [] = []
with_addresses n (t ∷ ts) = (n, resolve_addr t) ∷ with_addresses (suc n) ts

-- The session after its new targets are in the pinger.
unfoldable pub join_targets : List TargetSpec → Session → Session
join_targets specs s0 =
    let added = range_from s0.made (length specs) in
    let s = attach_all added s0 in
    record s {
      targets = s.targets ++ added;
      specs = s.specs ++ specs;
      finished = false;
      made = s.made + length specs;
    }

unfoldable pub join_registered :
    List TargetSpec → Option MemberError × Members → Session → Option EditError × Session
join_registered specs (none, p) s = (none, join_targets specs (record s { pinger = some p }))
join_registered specs (some e, p) s =
    (some (not_added e), record s { pinger = some p; made = s.made + length specs })

unfoldable pub join_running :
    List TargetSpec → Option Members → Session → Option EditError × Session
join_running specs none s = (some not_live, record s { made = s.made + length specs })
join_running specs (some p) s =
    join_registered specs (register_targets [] (with_addresses s.made specs) p) s

-- The new targets join the pinger only if the session runs.
unfoldable pub join_specs : List TargetSpec → Session → Option EditError × Session
join_specs specs s =
    if s.running then join_running specs s.pinger s else (none, join_targets specs s)

unfoldable pub is_listed : String → List TargetSpec → Bool
is_listed host [] = false
is_listed host (t ∷ ts) = (str_eq (display t) host || str_eq t.host host) || is_listed host ts

abbrev pub named_spec : String → TargetSpec
named_spec host = record { host = host; pinned_ip = ""; name = "" }

-- The edit of `addHost`.
unfoldable pub add_unlisted :
    Bool
    → (String → Bool)
    → (ℕ → String → List String)
    → String
    → Session
    → Option EditError × Session
add_unlisted resolve_all is_addr lookup_ip host s =
    if is_listed host s.specs
    then (some already_listed, s)
    else join_specs (expand_targets resolve_all is_addr lookup_ip (named_spec host ∷ []) []).0 s

-- `addHost` after `strings.TrimSpace`; the first argument is the setting `resolveAll`.
unfoldable pub add_host :
    Bool
    → (String → Bool)
    → (ℕ → String → List String)
    → String
    → Session
    → Option EditError × Session
add_host resolve_all is_addr lookup_ip host s =
    if is_empty host
    then (some empty_host, s)
    else edit_targets (add_unlisted resolve_all is_addr lookup_ip host) s
