-- ===== src/Ipv6.antt =====
-- internal/pinger/pmtu_ipv6.go: the path MTU of an IPv6 target (`discoverIPv6PathMTU`), an estimate of
-- the operating system that an echo of that size confirms. The socket is the environment's: an
-- attempt is what its calls answer, to an echo of a number of bytes. A negative estimate is as one below 1280.
pub mod Confirmed
mod Tests
use mping.Base.{
  ℕ, zero, suc, ◌+◌, ◌-◌, Bool, true, false, Option, none, some, ltb, leb, if◌then◌else◌,
}

abbrev pub ipv6_minimum_mtu : ℕ
ipv6_minimum_mtu = 1280

-- The header of IPv6 and that of an echo.
abbrev pub ipv6_echo_overhead : ℕ
ipv6_echo_overhead = 48

abbrev pub pmtu_max_attempts : ℕ
pmtu_max_attempts = 8

-- `receiverBufferSize` and the header of IPv6.
abbrev pub max_probe_mtu : ℕ
max_probe_mtu = 65535 + 40

pub data WriteResult : Type 0 where
  sent too_large write_failed : WriteResult

pub data ReplyResult : Type 0 where
  matched unmatched reply_failed : ReplyResult

-- What one turn of the loop meets: whether the context was cancelled, the estimate before the echo
-- (`none` is an error), whether the echo could not be prepared, how the write and the wait for the
-- reply ended, and the estimate after it.
pub record Attempt : Type 0 where
  pub cancelled : Bool
  pub before : Option ℕ
  pub unprepared : Bool
  pub write : ℕ → WriteResult  -- to an echo with that number of bytes
  pub reply : ℕ → ReplyResult
  pub after : Option ℕ

pub data PmtuStatus : Type 0 where
  estimated confirmed : PmtuStatus

pub record PathMtuResult : Type 0 where
  pub mtu : ℕ
  pub payload : ℕ
  pub status : PmtuStatus

pub data Ipv6Error : Type 0 where
  no_probe_id is_cancelled query_failed not_sent no_answer query_after_failed : Ipv6Error
  invalid_mtu : ℕ → Ipv6Error

-- The end of the function, or the next turn.
pub data Turn : Type 0 where
  stop : Option Ipv6Error → PathMtuResult → Turn
  again : PathMtuResult → Turn

-- The bytes of the echo, `min(mtu, maxProbeMTU) - ipv6EchoOverhead`.
abbrev pub echo_size : ℕ → ℕ
echo_size mtu = (if leb mtu max_probe_mtu then mtu else max_probe_mtu) - ipv6_echo_overhead

abbrev pub with_mtu : ℕ → PathMtuResult → PathMtuResult
with_mtu mtu r = record r { mtu = mtu; payload = mtu - ipv6_echo_overhead }

-- The estimate after the echo: one that is not smaller ends the search.
unfoldable pub requery : ℕ → Option ℕ → PathMtuResult → Turn
requery mtu none r = stop (some query_after_failed) r
requery mtu (some next) r =
    if leb mtu next
    then stop none r
    else if ltb next ipv6_minimum_mtu
    then stop (some (invalid_mtu next)) r
    else again (with_mtu next r)

unfoldable pub after_reply : Attempt → ℕ → ReplyResult → PathMtuResult → Turn
after_reply a mtu matched r =
    stop none (if leb mtu max_probe_mtu then record r { status = confirmed } else r)
after_reply a mtu unmatched r = requery mtu a.after r
after_reply a mtu reply_failed r = stop (some no_answer) r

unfoldable pub after_write : Attempt → ℕ → WriteResult → PathMtuResult → Turn
after_write a mtu sent r = after_reply a mtu (a.reply (echo_size mtu)) r
after_write a mtu too_large r = requery mtu a.after r
after_write a mtu write_failed r = stop (some not_sent) r

unfoldable pub queried : Attempt → Option ℕ → PathMtuResult → Turn
queried a none r = stop (some query_failed) r
queried a (some mtu) r =
    if ltb mtu ipv6_minimum_mtu
    then stop (some (invalid_mtu mtu)) r
    else if a.unprepared
    then stop (some not_sent) (with_mtu mtu r)
    else after_write a mtu (a.write (echo_size mtu)) (with_mtu mtu r)

-- One turn of the loop.
unfoldable pub attempt : Attempt → PathMtuResult → Turn
attempt a r = if a.cancelled then stop (some is_cancelled) r else queried a a.before r

unfoldable pub go_on :
    Turn → (PathMtuResult → Option Ipv6Error × PathMtuResult) → Option Ipv6Error × PathMtuResult
go_on (stop e r) rest = (e, r)
go_on (again r) rest = rest r

-- The loop with `n` attempts left, at the attempt `seq`.
unfoldable pub attempts : ℕ → ℕ → (ℕ → Attempt) → PathMtuResult → Option Ipv6Error × PathMtuResult
attempts zero seq env r = (none, r)
attempts (suc n) seq env r = go_on (attempt (env seq) r) (λ r'. attempts n (seq + 1) env r')

abbrev pub fresh_result : PathMtuResult
fresh_result = record { mtu = 0; payload = 0; status = estimated }

-- `discoverIPv6PathMTU`; the first argument is that there is an identifier for the probes.
unfoldable pub discover_ipv6_path_mtu : Bool → (ℕ → Attempt) → Option Ipv6Error × PathMtuResult
discover_ipv6_path_mtu false env = (some no_probe_id, fresh_result)
discover_ipv6_path_mtu true env = attempts pmtu_max_attempts 1 env fresh_result
