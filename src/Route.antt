-- ===== src/Route.antt =====
-- internal/stats/mtr.go: the hops of a route, their counters, and route changes.
-- A locked method is a function from the old value to the new one; `mutations` is this value's share
-- of the process-wide counter of internal/stats/dirty.go.
use mping.Base.{
  ℕ, zero, suc, ◌+◌, ◌-◌, Bool, true, false, not, ◌&&◌, ◌||◌, Option, none, some, List, [], ◌∷◌,
  ◌++◌, map, length, take, modify, ltb, leb, ◌==◌, if◌then◌else◌,
}
use mping.Base.Int.{ℤ, pos, negsuc, ◌+ℤ◌, wrap64, quot, sub_ℕ, leb_ℤ, ltb_ℤ, eqb_ℤ}
use mping.Base.Float.{Floats}
use mping.Base.Text.{String, str_eq, is_empty, join, ◌<>◌}
use mping.Rtt.{update_jitter}
pub mod Hops
pub mod Flap
pub mod Tests

pub record HopStats : Type 0 where
  pub ttl : ℕ
  pub ip : String
  pub route_ip : String
  pub asn : String
  pub country : String
  pub org : String
  pub ptr : String
  pub sent : ℕ
  pub recv : ℕ
  pub last_rtt : ℤ
  pub min_rtt : ℤ
  pub max_rtt : ℤ
  pub sum_rtt : ℤ
  pub jitter : ℤ

pub record HopAnnotation : Type 0 where
  pub asn : String
  pub country : String
  pub org : String
  pub ptr : String

unfoldable pub new_hop : ℕ → HopStats
new_hop n = record {
  ttl = n;
  ip = "";
  route_ip = "";
  asn = "";
  country = "";
  org = "";
  ptr = "";
  sent = 0;
  recv = 0;
  last_rtt = pos 0;
  min_rtt = pos 0;
  max_rtt = pos 0;
  sum_rtt = pos 0;
  jitter = pos 0;
}

-- A non-empty argument replaces the old text.
abbrev pub over : String → String → String
over new old = if is_empty new then old else new

unfoldable pub annotate : String → HopAnnotation → HopStats → HopStats
annotate ip a h =
    let changed = not (is_empty ip) && not (str_eq ip h.ip) in
    record h {
      ip = over ip h.ip;
      asn = over a.asn (if changed then "" else h.asn);
      country = over a.country (if changed then "" else h.country);
      org = over a.org (if changed then "" else h.org);
      ptr = over a.ptr (if changed then "" else h.ptr);
    }

-- `last_flap_at` is `none` for the zero time.
pub record MtrStats : Type 0 where
  pub hops : List HopStats
  pub flap_count : ℕ
  pub last_flap_at : Option ℕ
  pub last_flap_desc : String
  pub last_err : String
  pub mutations : ℕ

unfoldable pub new_mtr_stats : MtrStats
new_mtr_stats = record {
  hops = [];
  flap_count = 0;
  last_flap_at = none;
  last_flap_desc = "";
  last_err = "";
  mutations = 0;
}

-- `bumpGeneration`.
abbrev pub bump : MtrStats → MtrStats
bump m = record m { mutations = m.mutations + 1 }

-- `n` hops more, numbered from the one after the first `have`.
unfoldable pub grow : ℕ → ℕ → List HopStats
grow zero have = []
grow (suc n) have = new_hop (have + 1) ∷ grow n (have + 1)

unfoldable pub ensure_len : ℕ → MtrStats → MtrStats
ensure_len n m = bump (record m { hops = m.hops ++ grow (n - length m.hops) (length m.hops) })

-- A negative `n` counts as 0.
unfoldable pub truncate_len : ℤ → MtrStats → MtrStats
truncate_len (pos n) m = bump (record m { hops = take n m.hops })
truncate_len (negsuc n) m = bump (record m { hops = [] })

-- `hopAt`, then an update of the hop in place; out of range, nothing.
unfoldable pub at_hop : ℤ → (HopStats → HopStats) → List HopStats → List HopStats
at_hop (pos zero) f hs = hs
at_hop (pos (suc i)) f hs = modify hs i f
at_hop (negsuc n) f hs = hs

-- One reply at a hop, with the RFC 1889 jitter from its second reply on.
unfoldable pub count_reply : String → HopAnnotation → ℤ → HopStats → HopStats
count_reply ip a rtt h =
    let h' = annotate ip a (record h { sent = h.sent + 1; recv = h.recv + 1 }) in
    record h' {
      jitter = if ltb 1 h'.recv then update_jitter h'.jitter rtt h'.last_rtt else h'.jitter;
      last_rtt = rtt;
      sum_rtt = wrap64 (h'.sum_rtt +ℤ rtt);
      min_rtt = if eqb_ℤ h'.min_rtt (pos 0) || ltb_ℤ rtt h'.min_rtt then rtt else h'.min_rtt;
      max_rtt = if ltb_ℤ h'.max_rtt rtt then rtt else h'.max_rtt;
    }

unfoldable pub record_reply_annotated : ℤ → String → HopAnnotation → ℤ → MtrStats → MtrStats
record_reply_annotated ttl ip a rtt m =
    bump (record m { hops = at_hop ttl (count_reply ip a rtt) m.hops })

unfoldable pub record_reply : ℤ → String → String → String → String → ℤ → MtrStats → MtrStats
record_reply ttl ip asn country org rtt m =
    record_reply_annotated ttl ip (record { asn = asn; country = country; org = org; ptr = "" }) rtt
      m

unfoldable pub count_loss : HopStats → HopStats
count_loss h = record h { sent = h.sent + 1 }

unfoldable pub record_loss : ℤ → MtrStats → MtrStats
record_loss ttl m = bump (record m { hops = at_hop ttl count_loss m.hops })

unfoldable pub identify : String → HopAnnotation → HopStats → HopStats
identify ip a h = let h' = annotate ip a h in record h' { route_ip = over ip h'.route_ip }

unfoldable pub set_ip_annotated : ℤ → String → HopAnnotation → MtrStats → MtrStats
set_ip_annotated ttl ip a m = bump (record m { hops = at_hop ttl (identify ip a) m.hops })

unfoldable pub set_hop_ip : ℤ → String → String → String → String → MtrStats → MtrStats
set_hop_ip ttl ip asn country org m =
    set_ip_annotated ttl ip (record { asn = asn; country = country; org = org; ptr = "" }) m

unfoldable pub set_hop_ptr : ℤ → String → String → MtrStats → MtrStats
set_hop_ptr ttl ip name m = bump (record m {
  hops = at_hop ttl (λ h. if str_eq h.ip ip then record h { ptr = name } else h) m.hops;
})

-- The hops still answering from `ip` take the lookup's results.
unfoldable pub annotate_matching : String → HopAnnotation → HopStats → HopStats
annotate_matching ip a h = if str_eq h.ip ip then annotate ip a h else h

unfoldable pub annotate_ip : String → HopAnnotation → MtrStats → MtrStats
annotate_ip ip a m = bump (record m { hops = map (annotate_matching ip a) m.hops })

unfoldable pub set_error : String → MtrStats → MtrStats
set_error msg m = bump (record m { last_err = msg })

unfoldable pub route_ips : List HopStats → List String
route_ips [] = []
route_ips (h ∷ hs) = h.route_ip ∷ route_ips hs

abbrev pub route_snapshot : MtrStats → List String
route_snapshot m = route_ips m.hops

-- `slices.Equal`.
unfoldable pub equal_routes : List String → List String → Bool
equal_routes [] [] = true
equal_routes [] (c ∷ cs) = false
equal_routes (p ∷ ps) [] = false
equal_routes (p ∷ ps) (c ∷ cs) = str_eq p c && equal_routes ps cs

unfoldable pub reset : MtrStats → MtrStats
reset m = bump (record new_mtr_stats { mutations = m.mutations })

module _ {F : Type 0} (fl : Floats F) where
  abbrev pub star : String → String
  star s = if is_empty s then "*" else s

  -- The hops that differ, the first of them being hop number `i`.
  unfoldable pub changed_hops : ℕ → List String → List String → List String
  changed_hops i [] cs = []
  changed_hops i (p ∷ ps) [] = []
  changed_hops i (p ∷ ps) (c ∷ cs) =
      if str_eq p c
      then changed_hops (i + 1) ps cs
      else ("hop " <> fl.itoa (pos i) <> ": " <> star p <> " → " <> star c)
        ∷ changed_hops (i + 1) ps cs

  unfoldable pub build_flap_desc : List String → List String → String
  build_flap_desc prev cur =
      if length prev == length cur
      then join (changed_hops 1 prev cur) "; "
      else "path length: "
        <> fl.itoa (pos (length prev))
        <> " → "
        <> fl.itoa (pos (length cur))
        <> " hops"

  -- `CheckFlap`: whether the route changed, what changed, and the new statistics.
  unfoldable pub check_flap : List String → ℕ → MtrStats → Bool × String × MtrStats
  check_flap prev now m =
      let cur = route_ips m.hops in
      let desc = build_flap_desc prev cur in
      if equal_routes prev cur then (false, "", m) else (
        true,
        desc,
        bump (record m {
          flap_count = m.flap_count + 1;
          last_flap_at = some now;
          last_flap_desc = desc;
        }),
      )

  pub record HopView : Type 0 where
    pub ttl : ℕ
    pub ip : String
    pub asn : String
    pub country : String
    pub org : String
    pub ptr : String
    pub sent : ℕ
    pub recv : ℕ
    pub loss_pct : F
    pub last_rtt : ℤ
    pub avg_rtt : ℤ
    pub min_rtt : ℤ
    pub max_rtt : ℤ
    pub jitter : ℤ

  unfoldable pub hop_view : HopStats → HopView
  hop_view h = record {
    ttl = h.ttl;
    ip = h.ip;
    asn = h.asn;
    country = h.country;
    org = h.org;
    ptr = h.ptr;
    sent = h.sent;
    recv = h.recv;
    loss_pct =
        if ltb 0 h.sent
        then fl.mul (fl.div (fl.of_int (sub_ℕ h.sent h.recv)) (fl.of_int (pos h.sent)))
            (fl.of_int (pos 100))
        else fl.of_int (pos 0);
    last_rtt = h.last_rtt;
    avg_rtt = if ltb 0 h.recv then quot h.sum_rtt h.recv else pos 0;
    min_rtt = h.min_rtt;
    max_rtt = h.max_rtt;
    jitter = h.jitter;
  }

  -- `View`.
  unfoldable pub view : MtrStats → List HopView
  view m = map hop_view m.hops
