-- ===== src/Ipv6/Tests.antt =====
-- The path MTU of internal/pinger/pmtu_ipv6.go, at an example.
use mping.Base.{ℕ, zero, suc, ◌≡◌, refl, false, true, none, some, leb, if◌then◌else◌}
use mping.Ipv6.{
  too_large, sent, matched, unmatched, Attempt, confirmed, attempts, attempt, queried, after_write,
  after_reply, requery, go_on, discover_ipv6_path_mtu,
}
use mping.Ipv6.Confirmed.{Found, discover_ipv6_path_mtu-Found}

abbrev second : Attempt
second = record {
  cancelled = false;
  before = some 1400;
  unprepared = false;
  write = λ n. sent;
  reply = λ n. matched;
  after = none;
}

-- The first echo is too large for the estimate after it, the second is answered.
abbrev tunnel : ℕ → Attempt
tunnel zero = second
tunnel (suc zero) = record {
  cancelled = false;
  before = some 1500;
  unprepared = false;
  write = λ n. if leb n 1352 then sent else too_large;
  reply = λ n. unmatched;
  after = some 1400;
}
tunnel (suc (suc n)) = second

discover_ipv6_path_mtu-Found_example : Found 1 8 tunnel (discover_ipv6_path_mtu true tunnel)
discover_ipv6_path_mtu-Found_example = discover_ipv6_path_mtu-Found true tunnel

tunnel_mtu :
    discover_ipv6_path_mtu true tunnel
    ≡ (none, record { mtu = 1400; payload = 1352; status = confirmed })
unfolding discover_ipv6_path_mtu attempts attempt queried after_write after_reply requery go_on
tunnel_mtu = refl
