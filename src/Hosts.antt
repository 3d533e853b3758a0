-- ===== src/Hosts.antt =====
-- cmd/main/targetspec.go: the hosts that the user configured and their expansion into one target per
-- address (`--resolve-all`). Whether a host is an address (`netip.ParseAddr`) and what a lookup
-- answers are the environment's: `is_addr`, and `lookup_ip` for the call at each position, which
-- is empty if it fails.
pub mod Expand
pub mod Coverage
mod Tests
use mping.Base.{
  ℕ, zero, suc, ◌+◌, Bool, true, false, not, ◌||◌, Option, none, some, List, [], ◌∷◌, ◌++◌,
  if◌then◌else◌, length, get_or,
}
use mping.Base.Text.{String, ◌<>◌, str_eq, is_empty}

-- `targetSpec`.
pub record TargetSpec : Type 0 where
  pub host : String
  pub pinned_ip : String
  pub name : String

-- `ui.TargetGroup`.
pub record TargetGroup : Type 0 where
  pub name : String
  pub indices : List ℕ

unfoldable pub resolve_addr : TargetSpec → String
resolve_addr t = if is_empty t.pinned_ip then t.host else t.pinned_ip

unfoldable pub display : TargetSpec → String
display t =
    let label = if is_empty t.name then t.host else t.name in
    if is_empty t.pinned_ip then label else label <> (" (" <> (t.pinned_ip <> ")"))

-- `resolvedIPs`, the newest entry first: an entry made later hides those before it.
abbrev pub Resolved : Type 0
Resolved = List (String × List String)

unfoldable pub resolved_ips : Resolved → String → List String
resolved_ips [] host = []
resolved_ips ((h, ips) ∷ r) host = if str_eq h host then ips else resolved_ips r host

abbrev or_host : String → List String → List String
or_host host [] = host ∷ []
or_host host (ip ∷ ips) = ip ∷ ips

-- The entry that the first loop of `expandTargets` makes for a spec that is not pinned.
unfoldable pub resolve_host : Bool → String → List String → List String
resolve_host true host answer = host ∷ []
resolve_host false host answer = or_host host answer

unfoldable pub resolve_all :
    (String → Bool) → (ℕ → String → List String) → ℕ → List TargetSpec → Resolved → Resolved
resolve_all is_addr lookup_ip i [] r = r
resolve_all is_addr lookup_ip i (t ∷ ts) r =
    let entry : String × List String =
      (t.host, resolve_host (is_addr t.host) t.host (lookup_ip i t.host)) in
    resolve_all is_addr lookup_ip (suc i) ts (if is_empty t.pinned_ip then entry ∷ r else r)

unfoldable pub pin : TargetSpec → String → TargetSpec
pin t ip = record {
  host = t.host;
  name = t.name;
  pinned_ip = if not (str_eq t.host ip) then ip else "";
}

unfoldable pub pin_all : TargetSpec → List String → List TargetSpec
pin_all t [] = []
pin_all t (ip ∷ ips) = pin t ip ∷ pin_all t ips

-- The specs that one spec becomes.
unfoldable pub expand_spec : Resolved → TargetSpec → List TargetSpec
expand_spec r t = if is_empty t.pinned_ip then pin_all t (resolved_ips r t.host) else t ∷ []

-- The numbers from `start` on, `n` of them.
unfoldable pub range_from : ℕ → ℕ → List ℕ
range_from start zero = []
range_from start (suc n) = start ∷ range_from (suc start) n

-- The second loop of `expandTargets`: the expanded specs, and for each spec their indices.
unfoldable pub expand_specs :
    Resolved → List TargetSpec → List TargetSpec → List TargetSpec × List (List ℕ)
expand_specs r [] expanded = (expanded, [])
expand_specs r (t ∷ ts) expanded =
    let own = expand_spec r t in
    let (all, map) = expand_specs r ts (expanded ++ own) in
    (all, range_from (length expanded) (length own) ∷ map)

-- An index that the map does not have adds nothing.
unfoldable pub expand_indices : List (List ℕ) → List ℕ → List ℕ
expand_indices expansion [] = []
expand_indices expansion (i ∷ is) = get_or expansion i [] ++ expand_indices expansion is

unfoldable pub expand_groups : List (List ℕ) → List TargetGroup → List TargetGroup
expand_groups expansion [] = []
expand_groups expansion (g ∷ gs) =
    record { name = g.name; indices = expand_indices expansion g.indices }
    ∷ expand_groups expansion gs

-- `expandTargets`; the first argument is the setting `resolveAll`.
unfoldable pub expand_targets :
    Bool
    → (String → Bool)
    → (ℕ → String → List String)
    → List TargetSpec
    → List TargetGroup
    → List TargetSpec × List TargetGroup
expand_targets false is_addr lookup_ip specs groups = (specs, groups)
expand_targets true is_addr lookup_ip specs groups =
    let resolved = resolve_all is_addr lookup_ip 0 specs [] in
    let (all, expansion) = expand_specs resolved specs [] in (all, expand_groups expansion groups)
