-- ===== src/Pmtu/Tests.antt =====
-- The search of internal/pinger/pmtu.go on networks of one limit.
use mping.Base.{◌≡◌, refl, leb, if◌then◌else◌, true, false, arith}
use mping.Base.Int.{pos}
use mping.Base.Text.{String}
use mping.Pmtu.{
  fits, blocked, Network, payload, nonnegative, baseline, narrow, after_baseline,
  discover_max_payload,
}
use mping.Pmtu.Search.{Found, discover_max_payload-Found}
use mping.Pmtu.Exact.{CarriesUpTo, discover_max_payload-limit}

-- A tunnel in the way carries payloads of up to 1372 bytes.
abbrev tunnel : Network
tunnel = record {
  id_free = true;
  is_done = λ n. false;
  answer = λ n s. if leb s 1372 then fits else blocked "192.0.2.1";
}

tunnel-run : discover_max_payload tunnel (pos 1472) (pos 0) ≡ payload 1372 "192.0.2.1"
unfolding discover_max_payload after_baseline narrow
tunnel-run = refl

tunnel-CarriesUpTo : CarriesUpTo tunnel 1372
tunnel-CarriesUpTo = record {
  carries = λ n s h. ground arith;
  refuses = λ n s h. ("192.0.2.1", ground arith);
  undone = λ n. refl;
  has_id = refl;
}

discover_max_payload-limit_example :
    (h : String) × (discover_max_payload tunnel (pos 1472) (pos 0)
      ≡ payload (if leb 1472 1372 then 1472 else 1372) h)
discover_max_payload-limit_example =
    discover_max_payload-limit tunnel 1472 (pos 0) 1372 tunnel-CarriesUpTo (omega arith)
      (omega arith) (omega arith)

discover_max_payload-Found_example :
    Found tunnel
      (baseline (nonnegative (pos 1472)) (pos 0))
      (nonnegative (pos 1472))
      (discover_max_payload tunnel (pos 1472) (pos 0))
discover_max_payload-Found_example =
    discover_max_payload-Found tunnel (pos 1472) (pos 0) (omega arith)
