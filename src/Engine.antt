-- ===== src/Engine.antt =====
-- internal/mtr/engine.go: the rounds that find the route to a target and probe its hops, and
-- internal/mtr/annotate.go: the background lookups for the addresses found. A round is the list of
-- the probes that completed, in the order in which they did, and whether its context was
-- cancelled; sockets, lookups and timers are the environment.
pub mod Discovery
pub mod Order
pub mod Commute
mod Tests
use mping.Base.{
  ℕ, zero, suc, ◌+◌, ◌-◌, ◌≤◌, min, Bool, true, false, not, ◌&&◌, ◌||◌, Option, none, some, List,
  [], ◌∷◌, ltb, leb, ◌==◌, if◌then◌else◌,
}
use mping.Base.Int.{ℤ, pos, negsuc, pos_part, leb_ℤ}
use mping.Base.Float.{Floats}
use mping.Base.Text.{String, str_eq, is_empty}
use mping.Route.{
  HopAnnotation, MtrStats, ensure_len, truncate_len, set_ip_annotated, record_reply_annotated,
  record_loss, annotate_ip, set_error, route_snapshot, check_flap,
}

-- `Config`, its durations in nanoseconds.
pub record Config : Type 0 where
  pub path_only : Bool
  pub max_hops : ℤ
  pub probe_interval : ℤ
  pub hop_timeout : ℤ
  pub rediscover_every : ℤ
  pub max_concurrent_probes : ℤ
  pub annotation_retry : ℤ

abbrev positive_or : ℤ → ℤ → ℤ
positive_or d x = if leb_ℤ x (pos 0) then d else x

unfoldable pub with_defaults : Config → Config
with_defaults c = record {
  path_only = c.path_only;
  max_hops = positive_or (pos 30) c.max_hops;
  probe_interval = positive_or (pos 1000000000) c.probe_interval;
  hop_timeout = positive_or (pos 1000000000) c.hop_timeout;
  rediscover_every = positive_or (pos 600000000000) c.rediscover_every;
  max_concurrent_probes = positive_or (pos 50) c.max_concurrent_probes;
  annotation_retry = positive_or (pos 30000000000) c.annotation_retry;
}

-- `hopInfo`.
pub record HopInfo : Type 0 where
  pub ann : HopAnnotation
  pub complete : Bool
  pub retry_at : ℕ

-- `hopAnnotator`: `known` has the newest entry of an address first.
pub record Annotator : Type 0 where
  pub closed : Bool
  pub known : List (String × HopInfo)
  pub inflight : List String
  pub retry : ℕ

unfoldable pub info_of : List (String × HopInfo) → String → Option HopInfo
info_of [] ip = none
info_of ((k, i) ∷ m) ip = let rest = info_of m ip in if str_eq k ip then some i else rest

abbrev no_annotation : HopAnnotation
no_annotation = record { asn = ""; country = ""; org = ""; ptr = "" }

abbrev ann_of : Option HopInfo → HopAnnotation
ann_of none = no_annotation
ann_of (some i) = i.ann

unfoldable pub cached : String → Annotator → HopAnnotation
cached ip a = ann_of (info_of a.known ip)

unfoldable pub in_flight : String → List String → Bool
in_flight ip [] = false
in_flight ip (k ∷ ks) = str_eq k ip || in_flight ip ks

unfoldable pub landed : String → List String → List String
landed ip [] = []
landed ip (k ∷ ks) = if str_eq k ip then landed ip ks else k ∷ landed ip ks

abbrev pub is_settled : ℕ → Option HopInfo → Bool
is_settled now none = false
is_settled now (some i) = i.complete || ltb now i.retry_at

unfoldable pub note : ℕ → String → Annotator → Annotator
note now ip a =
    if is_empty ip
    then a
    else if a.closed || in_flight ip a.inflight
    then a
    else if is_settled now (info_of a.known ip)
    then a
    else record a { inflight = ip ∷ a.inflight }

-- `rememberLocked`: a lookup without a number or a name keeps the earlier ones.
unfoldable pub remember : ℕ → String → HopAnnotation → Annotator → HopAnnotation × Annotator
remember now ip answer a =
    let old = cached ip a in
    let named =
      if is_empty answer.asn
      then old
      else record old { asn = answer.asn; country = answer.country; org = answer.org } in
    let merged = if is_empty answer.ptr then named else record named { ptr = answer.ptr } in
    let info : HopInfo = record {
      ann = merged;
      complete = not (is_empty merged.asn) && not (is_empty merged.ptr);
      retry_at = now + a.retry;
    } in
    (merged, record a { known = (ip, info) ∷ a.known })

-- The end of a lookup; `cancelled` is that the context was cancelled before its answer was used.
unfoldable pub lookup_done :
    ℕ → Bool → String → HopAnnotation → Annotator → MtrStats → Annotator × MtrStats
lookup_done now cancelled ip answer a m =
    if cancelled || a.closed
    then (record a { inflight = landed ip a.inflight }, m)
    else let (merged, a') = remember now ip answer a in
      (record a' { inflight = landed ip a'.inflight }, annotate_ip ip merged m)

-- A probe that completed: `pinger.HopReply` with the TTL it was sent with.
pub record HopResult : Type 0 where
  pub ttl : ℕ
  pub reached_dest : Bool
  pub responded : Bool
  pub src_ip : String
  pub rtt : ℤ

-- `firstReachedTTL`, as the replies come in.
unfoldable pub first_reached : ℕ → List HopResult → ℕ
first_reached best [] = best
first_reached best (r ∷ rs) =
    first_reached (if r.reached_dest && ltb r.ttl best then r.ttl else best) rs

-- The reply is from an address on the path.
abbrev pub is_hop : ℕ → HopResult → Bool
is_hop hop_count r = leb r.ttl hop_count && (r.responded && not (is_empty r.src_ip))

-- A reply names the hop of its TTL, if that is on the path.
unfoldable pub register_hop : ℕ → Annotator → HopResult → MtrStats → MtrStats
register_hop hop_count a r m =
    if is_hop hop_count r then set_ip_annotated (pos r.ttl) r.src_ip (cached r.src_ip a) m else m

unfoldable pub note_hop : ℕ → ℕ → HopResult → Annotator → Annotator
note_hop now hop_count r a = if is_hop hop_count r then note now r.src_ip a else a

unfoldable pub register_hops : ℕ → ℕ → List HopResult → Annotator → MtrStats → Annotator × MtrStats
register_hops now hop_count [] a m = (a, m)
register_hops now hop_count (r ∷ rs) a m =
    register_hops now hop_count rs (note_hop now hop_count r a) (register_hop hop_count a r m)

-- `discover`: the number of hops, which is 0 for a cancelled round.
unfoldable pub discover :
    ℕ → ℕ → Bool → List HopResult → Annotator → MtrStats → ℕ × Annotator × MtrStats
discover now max_hops cancelled results a m =
    if cancelled
    then (0, a, m)
    else let hop_count = min (first_reached (max_hops + 1) results) max_hops in
      let (a', m') =
        register_hops now hop_count results a
          (ensure_len hop_count (truncate_len (pos hop_count) m)) in
      (hop_count, a', m')

-- One reply of a round of `probe`.
unfoldable pub probe_hop : ℕ → HopResult → Annotator → MtrStats → Annotator × MtrStats
probe_hop now r a m =
    if r.responded
    then (
      note now r.src_ip a,
      record_reply_annotated (pos r.ttl) r.src_ip (cached r.src_ip a) r.rtt m,
    )
    else (a, record_loss (pos r.ttl) m)

unfoldable pub probe : ℕ → List HopResult → Annotator → MtrStats → Annotator × MtrStats
probe now [] a m = (a, m)
probe now (r ∷ rs) a m = let (a', m') = probe_hop now r a m in probe now rs a' m'

-- The goroutine of one target, `runTarget`: whether its socket is open and for which address, the
-- number of hops, which is 0 before the first round, the route and the annotator.
pub record TargetRun : Type 0 where
  pub sock : Bool
  pub dest : String
  pub hop_count : ℕ
  pub mtr : MtrStats
  pub ann : Annotator

-- What a round of discovery meets: the target's address, the error of `OpenHopSocket` and whether
-- the context was cancelled by then, the replies, and whether it was cancelled during the round and
-- after it.
pub record Round : Type 0 where
  pub current : String
  pub open_error : Option String
  pub cancelled_before : Bool
  pub results : List HopResult
  pub cancelled : Bool
  pub cancelled_after : Bool

-- The socket for the round; `false` ends the round.
unfoldable pub open_socket : Round → Option String → TargetRun → Bool × TargetRun
open_socket e none r = (true, record r { sock = true; dest = e.current })
open_socket e (some err) r =
    (false, if e.cancelled_before then r else record r { mtr = set_error err r.mtr })

unfoldable pub reopen : Round → TargetRun → Bool × TargetRun
reopen e r =
    if not r.sock || not (str_eq e.current r.dest) then open_socket e e.open_error r else (true, r)

module _ {F : Type 0} (fl : Floats F) where
  -- The round with an open socket: the description of a route change, if one is reported.
  unfoldable pub discover_round : ℕ → ℕ → Round → TargetRun → Option String × TargetRun
  discover_round now max_hops e r =
      let prev = route_snapshot r.mtr in
      let (n, a, m) = discover now max_hops e.cancelled e.results r.ann r.mtr in
      if n == 0 || (e.cancelled || e.cancelled_after)
      then (none, record r { ann = a; mtr = m })
      else let known = record r { ann = a; mtr = set_error "" m; hop_count = n } in
        let (changed, desc, m') = check_flap fl prev now known.mtr in
        if r.hop_count == 0
        then (none, known)
        else (if changed then some desc else none, record known { mtr = m' })

  unfoldable pub rediscover : ℕ → ℕ → Round → TargetRun → Option String × TargetRun
  rediscover now max_hops e r =
      let (ready, r') = reopen e r in if ready then discover_round now max_hops e r' else (none, r')
