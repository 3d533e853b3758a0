-- ===== src/Ipv6/Confirmed.antt =====
-- What a path MTU of internal/pinger/pmtu_ipv6.go rests on.
use mathlib.Core.Path.{subst}
use mping.Base.{
  ℕ, zero, suc, ◌+◌, ◌<◌, ◌≤◌, ◌≡◌, refl, sym, inl, inr, Bool, true, false, Option, none, some,
  arith, ltb, leb, Bool-cases, if_split, if◌then◌else◌,
}
use mping.Ipv6.{
  WriteResult, sent, too_large, write_failed, ReplyResult, matched, unmatched, reply_failed,
  Attempt, PmtuStatus, estimated, confirmed, PathMtuResult, Ipv6Error, invalid_mtu, not_sent,
  is_cancelled, Turn, stop, again, with_mtu, requery, after_reply, after_write, queried, attempt,
  go_on, attempts, fresh_result, discover_ipv6_path_mtu, max_probe_mtu, echo_size,
}

-- The estimate of the attempt was `mtu`. An echo that makes a packet of that size, with its 48 bytes of
-- headers, was sent, and the reply to an echo of that size came.
abbrev pub Echoed : ℕ → Attempt → Type 0
Echoed mtu a =
    (a.before ≡ some mtu) × ((n : ℕ) × (n + 48 ≡ mtu) × (a.write n ≡ sent) × (a.reply n ≡ matched))

-- A confirmed MTU was echoed in an attempt from `seq` on, of `n`, and is not too large for an echo.
abbrev pub Backed : ℕ → ℕ → (ℕ → Attempt) → ℕ → PmtuStatus → Type 0
Backed seq n env mtu estimated = Unit {0}
Backed seq n env mtu confirmed =
    (i : ℕ) × ((seq ≤ i) × ((i < seq + n) × ((mtu ≤ max_probe_mtu) × Echoed mtu (env i))))

-- What holds of a result without an error.
abbrev pub GoodMtu : PathMtuResult → Type 0
GoodMtu r = (1280 ≤ r.mtu) × (r.payload + 48 ≡ r.mtu)

abbrev BackedBy : Attempt → ℕ → PmtuStatus → Type 0
BackedBy a mtu estimated = Unit {0}
BackedBy a mtu confirmed = (mtu ≤ max_probe_mtu) × Echoed mtu a

-- What holds of a turn: the MTU that it goes on with is an estimate, one that it ends with is good.
abbrev TurnGood : Attempt → Turn → Type 0
TurnGood a (stop (some e) r) = Unit {0}
TurnGood a (stop none r) = GoodMtu r × BackedBy a r.mtu r.status
TurnGood a (again r) = GoodMtu r × (r.status ≡ estimated)

abbrev Estimate : PathMtuResult → Type 0
Estimate r = GoodMtu r × (r.status ≡ estimated)

estimated-BackedBy :
    (a : Attempt) (r : PathMtuResult) → r.status ≡ estimated → BackedBy a r.mtu r.status
estimated-BackedBy a r e = subst (BackedBy a r.mtu) (sym e) tt

requery-TurnGood :
    (a : Attempt) (mtu : ℕ) (o : Option ℕ) (r : PathMtuResult)
    → Estimate r
    → TurnGood a (requery mtu o r)
unfolding requery
requery-TurnGood a mtu none r g = tt
requery-TurnGood a mtu (some next) r (g, e) = elim (Bool-cases (leb mtu next)) [
  | inl h ↦ rw h (g, estimated-BackedBy a r e)
  | inr h ↦ elim (Bool-cases (ltb next 1280)) [
    | inl k ↦ rw (h, k) tt
    | inr k ↦ let large : 1280 ≤ next = ground arith in rw (h, k) ((large, omega arith), e)
  ]
]

after_reply-TurnGood :
    (a : Attempt) (x : ReplyResult) (r : PathMtuResult)
    → Estimate r
    → a.before ≡ some r.mtu
    → a.write (echo_size r.mtu) ≡ sent
    → a.reply (echo_size r.mtu) ≡ x
    → TurnGood a (after_reply a r.mtu x r)
unfolding after_reply
after_reply-TurnGood a matched r (g, e) b w m = elim (Bool-cases (leb r.mtu max_probe_mtu)) [
  | inl h ↦
      let small : r.mtu ≤ max_probe_mtu = ground arith in
      let whole_packet : echo_size r.mtu + 48 ≡ r.mtu = let (large, q) = g in ground arith in
      rw h (g, (small, (b, (echo_size r.mtu, whole_packet, w, m))))
  | inr h ↦ rw h (g, estimated-BackedBy a r e)
]
after_reply-TurnGood a unmatched r g b w m = requery-TurnGood a r.mtu a.after r g
after_reply-TurnGood a reply_failed r g b w m = tt

after_write-TurnGood :
    (a : Attempt) (x : WriteResult) (r : PathMtuResult)
    → Estimate r
    → a.before ≡ some r.mtu
    → a.write (echo_size r.mtu) ≡ x
    → TurnGood a (after_write a r.mtu x r)
unfolding after_write
after_write-TurnGood a sent r g b w =
    after_reply-TurnGood a (a.reply (echo_size r.mtu)) r g b w refl
after_write-TurnGood a too_large r g b w = requery-TurnGood a r.mtu a.after r g
after_write-TurnGood a write_failed r g b w = tt

queried-TurnGood :
    (a : Attempt) (o : Option ℕ) (r : PathMtuResult)
    → a.before ≡ o
    → r.status ≡ estimated
    → TurnGood a (queried a o r)
unfolding queried
queried-TurnGood a none r b e = tt
queried-TurnGood a (some mtu) r b e =
    if_split (TurnGood a) (ltb mtu 1280) (stop (some (invalid_mtu mtu)) r)
      (if a.unprepared
        then stop (some not_sent) (with_mtu mtu r)
        else after_write a mtu (a.write (echo_size mtu)) (with_mtu mtu r))
      (λ h. tt)
      (λ h.
        let large : 1280 ≤ mtu = ground arith in
        if_split (TurnGood a) a.unprepared (stop (some not_sent) (with_mtu mtu r))
          (after_write a mtu (a.write (echo_size mtu)) (with_mtu mtu r)) (λ k. tt)
          (λ k.
            after_write-TurnGood a (a.write (echo_size mtu)) (with_mtu mtu r)
              ((large, omega arith), e) b refl))

attempt-TurnGood :
    (a : Attempt) (r : PathMtuResult) → r.status ≡ estimated → TurnGood a (attempt a r)
unfolding attempt
attempt-TurnGood a r e =
    if_split (TurnGood a) a.cancelled (stop (some is_cancelled) r) (queried a a.before r) (λ h. tt)
      (λ h. queried-TurnGood a a.before r refl e)

-- What holds of the result of attempts from `seq` on.
abbrev pub Found : ℕ → ℕ → (ℕ → Attempt) → Option Ipv6Error × PathMtuResult → Type 0
Found seq n env (some e, r) = Unit {0}
Found seq n env (none, r) = GoodMtu r × Backed seq n env r.mtu r.status

Backed-first :
    (seq n mtu : ℕ) (env : ℕ → Attempt) (s : PmtuStatus)
    → BackedBy (env seq) mtu s
    → Backed seq (suc n) env mtu s
Backed-first seq n mtu env estimated b = tt
Backed-first seq n mtu env confirmed (small, e) = (seq, (omega arith, (omega arith, (small, e))))

Backed-later :
    (seq n mtu : ℕ) (env : ℕ → Attempt) (s : PmtuStatus)
    → Backed (seq + 1) n env mtu s
    → Backed seq (suc n) env mtu s
Backed-later seq n mtu env estimated b = tt
Backed-later seq n mtu env confirmed (i, (lo, (hi, e))) = (i, (omega arith, (omega arith, e)))

Found-later :
    (seq n : ℕ) (env : ℕ → Attempt) (x : Option Ipv6Error × PathMtuResult)
    → Found (seq + 1) n env x
    → Found seq (suc n) env x
Found-later seq n env (some e, r) f = tt
Found-later seq n env (none, r) (g, b) = (g, Backed-later seq n r.mtu env r.status b)

go_on-Found :
    (seq n : ℕ) (env : ℕ → Attempt) (t : Turn)
    (rest : PathMtuResult → Option Ipv6Error × PathMtuResult)
    → TurnGood (env seq) t
    → ((r : PathMtuResult) → Estimate r → Found (seq + 1) n env (rest r))
    → Found seq (suc n) env (go_on t rest)
unfolding go_on
go_on-Found seq n env (stop (some e) r) rest g f = tt
go_on-Found seq n env (stop none r) rest (g, b) f = (g, Backed-first seq n r.mtu env r.status b)
go_on-Found seq n env (again r) rest g f = Found-later seq n env (rest r) (f r g)

attempts-Found :
    (n seq : ℕ) (env : ℕ → Attempt) (r : PathMtuResult)
    → r.status ≡ estimated
    → (n ≡ 0 → GoodMtu r)
    → Found seq n env (attempts n seq env r)
unfolding attempts
attempts-Found zero seq env r e g = (g refl, subst (Backed seq 0 env r.mtu) (sym e) tt)
attempts-Found (suc n) seq env r e g =
    go_on-Found seq n env (attempt (env seq) r) (λ r'. attempts n (seq + 1) env r')
      (attempt-TurnGood (env seq) r e)
      (λ r' (g', e'). attempts-Found n (seq + 1) env r' e' (λ z. g'))

-- Whatever the socket answers: a path MTU found without an error is at least 1280 and 48 more than its
-- payload. If it is confirmed, it is at most 65575, and one of the at most 8 attempts had it as its
-- estimate, sent an echo that makes a packet of exactly that size, and had the matching reply.
pub discover_ipv6_path_mtu-Found :
    (has_id : Bool) (env : ℕ → Attempt) → Found 1 8 env (discover_ipv6_path_mtu has_id env)
unfolding discover_ipv6_path_mtu
discover_ipv6_path_mtu-Found false env = tt
discover_ipv6_path_mtu-Found true env =
    attempts-Found 8 1 env fresh_result refl (λ z. absurd (omega arith))
