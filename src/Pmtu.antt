-- ===== src/Pmtu.antt =====
-- internal/pinger/pmtu.go: the search for the largest IPv4 payload that a path carries
-- (`discoverIPv4MaxPayload`). Probing, cancellation and the probe IDs are the environment's: its
-- answers may change from one attempt to the next. Sizes are numbers of bytes that a Go int holds.
use mping.Base.{
  ℕ, zero, suc, ◌+◌, ◌-◌, ◌/◌, Bool, true, false, not, Option, none, some, List, [], ◌∷◌, ltb, leb,
  ◌==◌, if◌then◌else◌,
}
use mping.Base.Int.{ℤ, pos, negsuc, leb_ℤ}
use mping.Base.Text.{String, is_empty}
pub mod Search
pub mod Exact
pub mod Tests

-- What `canSendPayload` answers: an echo reply, no reply (with the hop that refused, if it is known) or
-- an error.
pub data Answer : Type 0 where
  fits : Answer
  blocked : String → Answer
  broken : String → String → Answer  -- the error and the hop

pub data PmtuError : Type 0 where
  bad_start cancelled no_probe_id : PmtuError
  probe_failed : String → PmtuError
  no_reply : PmtuError

-- `overflowed` is where `low + high + 1` is no int: the sum of the source wraps, and what the search does
-- from there is not followed. `out_of_fuel` is of the model only.
pub data Discovery : Type 0 where
  payload : ℕ → String → Discovery
  error : PmtuError → String → Discovery  -- with the hop
  overflowed out_of_fuel : Discovery

pub record Network : Type 0 where
  pub id_free : Bool
  pub is_done : ℕ → Bool  -- `ctx.Err` at the check of that number
  pub answer : ℕ → ℕ → Answer  -- to the attempt of that number, of that size

-- The largest number of a Go int.
abbrev pub largest_int : ℕ
largest_int = 9223372036854775807

-- A payload size that is not positive counts as 0.
abbrev pub nonnegative : ℤ → ℕ
nonnegative (pos n) = n
nonnegative (negsuc n) = 0

-- `max(minPayload, 0)`, at most the start.
abbrev pub baseline : ℕ → ℤ → ℕ
baseline start least = if ltb start (nonnegative least) then start else nonnegative least

-- The loop: the number of the attempt, the bounds, and the bottleneck seen last.
unfoldable pub narrow : ℕ → Network → ℕ → ℕ → ℕ → String → Discovery
narrow zero net n low high hop = if ltb low high then out_of_fuel else payload low hop
narrow (suc fuel) net n low high hop =
    let mid = (low + high + 1) / 2 in
    elim (ltb low high) [
      | false ↦ payload low hop
      | true ↦ elim (net.is_done n) [
        | true ↦ error cancelled ""
        | false ↦ elim (ltb largest_int (low + high + 1)) [
          | true ↦ overflowed
          | false ↦ elim (net.answer n mid) [
            | fits ↦ narrow fuel net (n + 1) mid high hop
            | blocked h ↦ narrow fuel net (n + 1) low (mid - 1) (if is_empty h then hop else h)
            | broken e h ↦ error (probe_failed e) ""
          ]
        ]
      ]
    ]

-- 63 rounds halve every interval of sizes of a Go int.
abbrev pub max_rounds : ℕ
max_rounds = 63

-- What follows the baseline attempt.
unfoldable pub after_baseline : Network → ℕ → ℕ → Answer → Discovery
after_baseline net low top fits = elim (net.is_done 1) [
  | true ↦ error cancelled ""
  | false ↦ narrow max_rounds net 2 low top ""
]
after_baseline net low top (blocked h) =
    if net.is_done 1 then error cancelled h else error no_reply h
after_baseline net low top (broken e h) = error (probe_failed e) h

-- `discoverIPv4MaxPayload`. The checks of the context are numbered as the attempts are, the first two
-- 0 and 1, and those of the loop from 2; the attempt for the baseline is number 0, those of the loop
-- are numbered as their checks.
unfoldable pub discover_max_payload : Network → ℤ → ℤ → Discovery
discover_max_payload net start least =
    let top = nonnegative start in
    let low = baseline top least in
    elim (leb_ℤ start (pos 0)) [
      | true ↦ error bad_start ""
      | false ↦ elim (net.is_done 0) [
        | true ↦ error cancelled ""
        | false ↦ elim net.id_free [
          | false ↦ error no_probe_id ""
          | true ↦ after_baseline net low top (net.answer 0 low)
        ]
      ]
    ]
