-- ===== src/Worker/Ledger.antt =====
-- The account of internal/pinger/worker.go over whole runs: each probe sent is a reply, a loss, a
-- cancellation or outstanding.
use mping.Base.{
  ℕ, suc, ◌+◌, ◌≤◌, ◌≡◌, refl, ap, Bool, true, false, Option, none, some, List, [], ◌∷◌, arith,
  if◌then◌else◌,
}
use mping.Base.Float.{Floats}
use mping.Base.Text.{String}
use mping.Target.Probe.{new_probe, inc_sent}
use mping.Target.Window.{sent, failure, call}
use mping.Worker.Loop.{
  Resolution, cancelled_lookup, stopped_lookup, failed_lookup, found, SendResult, refused,
  unmarshalled, written, Worker, WorkerEvent, dns, send, wire, wire_seqs, put_pending,
  resolve_target, send_probe, send_now, send_case,
}
use mping.Worker.Moves.{same-Moved, call-Moved, lookup_trouble, resolve_target-Moved}
use mping.Worker.Accounts.{Outstanding-mono, delete-fresh, Balanced, Moved-Balanced}

-- The failures an event may add that are of no probe sent, at most.
abbrev pub send_trouble : Resolution → SendResult → ℕ
send_trouble failed_lookup _ = 1
send_trouble _ (refused reason) = 1
send_trouble _ _ = 0

abbrev pub trouble : WorkerEvent → ℕ
trouble (dns res now) = lookup_trouble res
trouble (send res result now) = send_trouble res result
trouble _ = 0

abbrev pub troubles : List WorkerEvent → ℕ
troubles [] = 0
troubles (e ∷ es) = trouble e + troubles es

abbrev pub is_send : WorkerEvent → ℕ
is_send (send res result now) = 1
is_send _ = 0

abbrev pub sends : List WorkerEvent → ℕ
sends [] = 0
sends (e ∷ es) = is_send e + sends es

module _ {F : Type 0} (fl : Floats F) (epoch s0 : ℕ) where
  -- The next state has at most `x` further failures of that kind, and at most `n` sequence numbers more.
  pub record Next (x n u : ℕ) (w w' : Worker F) : Type 0 where
    pub more : ℕ
    pub least : u ≤ more
    pub most : more ≤ u + x
    pub used : w'.seq ≤ w.seq + n
    pub balanced : Balanced fl epoch s0 more w'

  pub same-Next :
      (u : ℕ) (w w' : Worker F) → w'.seq ≡ w.seq → Balanced fl epoch s0 u w' → Next 0 0 u w w'
  same-Next u w w' e b = record {
    more = u;
    least = omega arith;
    most = omega arith;
    used = omega (arith, e);
    balanced = b;
  }

  refused-Next :
      (reason : String) (now u : ℕ) (w : Worker F)
      → Balanced fl epoch s0 u w
      → Next 1 1 u w (record w {
        target = (send_probe fl (new_probe w.target) (refused reason) now w.target).1;
        seq = w.seq + 1;
      })
  unfolding send_probe new_probe call
  refused-Next reason now u w b =
      let one = call-Moved fl (some w.target.probe_epoch) (failure reason now) w.target refl in
      let o = Outstanding-mono epoch s0 w.seq (w.seq + 1) w.unacked (omega arith) b.outstanding in
      record {
        more = u + 1;
        least = omega arith;
        most = omega arith;
        used = omega arith;
        balanced = Moved-Balanced fl epoch s0 w _ b one o (omega arith) (omega arith);
      }

  unmarshalled-Next :
      (u : ℕ) (w : Worker F)
      → Balanced fl epoch s0 u w
      → Next 0 1 u w (record w { seq = w.seq + 1 })
  unmarshalled-Next u w b =
      let o = Outstanding-mono epoch s0 w.seq (w.seq + 1) w.unacked (omega arith) b.outstanding in
      record {
        more = u;
        least = omega arith;
        most = omega arith;
        used = omega arith;
        balanced =
            Moved-Balanced fl epoch s0 w _ b (same-Moved fl w.target) o (omega arith) (omega arith);
      }

  written-Next :
      (start u : ℕ) (w : Worker F)
      → suc w.seq ≤ s0 + wire_seqs
      → Balanced fl epoch s0 u w
      → Next 0 1 u w (record w {
        target = (inc_sent (new_probe w.target) w.target).1;
        seq = w.seq + 1;
        unacked =
            put_pending
              (wire (w.seq + 1))
              (record { start = start; stats = new_probe w.target })
              w.unacked;
        replying = true;
      })
  unfolding new_probe call
  written-Next start u w few b =
      let one = call-Moved fl (some w.target.probe_epoch) sent w.target refl in
      let o = Outstanding-mono epoch s0 w.seq (w.seq + 1) w.unacked (omega arith) b.outstanding in
      let fresh = delete-fresh epoch s0 w.seq w.unacked few b.outstanding in
      record {
        more = u;
        least = omega arith;
        most = omega arith;
        used = omega arith;
        balanced =
            Moved-Balanced fl epoch s0 w _ b one
              (rw fresh
                (ap some b.window, (w.seq + 1, refl, omega (arith, b.ahead), omega arith), o))
              (omega arith) (rw fresh (omega arith));
      }

  done-Next :
      {x n u : ℕ} {w w' : Worker F}
      → Next x n u w w'
      → Next x n u w (record w' { done_sending = true })
  done-Next m = record {
    more = m.more;
    least = m.least;
    most = m.most;
    used = m.used;
    balanced = record {
      window = m.balanced.window;
      outstanding = m.balanced.outstanding;
      ahead = m.balanced.ahead;
      balance = m.balanced.balance;
    };
  }

  at_count-Next :
      {x n u : ℕ} (b : Bool) {w w' : Worker F}
      → Next x n u w w'
      → Next x n u w (if b then record w' { done_sending = true } else w')
  at_count-Next true m = done-Next m
  at_count-Next false m = m

  abbrev result_trouble : SendResult → ℕ
  result_trouble (refused reason) = 1
  result_trouble _ = 0

  send_now-Next :
      (count : ℕ) (result : SendResult) (now u : ℕ) (w : Worker F)
      → suc w.seq ≤ s0 + wire_seqs
      → Balanced fl epoch s0 u w
      → Next (result_trouble result) 1 u w (send_now fl count result now w)
  unfolding send_now send_probe
  send_now-Next count (refused reason) now u w few b =
      at_count-Next _ (refused-Next reason now u w b)
  send_now-Next count unmarshalled now u w few b = at_count-Next _ (unmarshalled-Next u w b)
  send_now-Next count (written start) now u w few b = at_count-Next _ (written-Next start u w few b)

  pub relax-Next :
      {x n x' n' u : ℕ} {w w' : Worker F} → x ≤ x' → n ≤ n' → Next x n u w w' → Next x' n' u w w'
  relax-Next p q m = record {
    more = m.more;
    least = m.least;
    most = omega (arith, m.most);
    used = omega (arith, m.used);
    balanced = m.balanced;
  }

  pub resolve-Balanced :
      (res : Resolution) (now u u' : ℕ) (dst : Option String) (w : Worker F)
      → u' ≡ u + lookup_trouble res
      → Balanced fl epoch s0 u w
      → Balanced fl epoch s0 u'
          (record w { target = (resolve_target fl res now w.target).1; dst = dst })
  resolve-Balanced res now u u' dst w e b =
      Moved-Balanced fl epoch s0 w _ b (resolve_target-Moved fl res now w.target) b.outstanding
        (omega arith) (omega (arith, e))

  pub resolve-Next :
      (res : Resolution) (now u : ℕ) (dst : Option String) (w : Worker F)
      → Balanced fl epoch s0 u w
      → Next
          (lookup_trouble res)
          0
          u
          w
          (record w { target = (resolve_target fl res now w.target).1; dst = dst })
  resolve-Next res now u dst w b = record {
    more = u + lookup_trouble res;
    least = omega arith;
    most = omega arith;
    used = omega arith;
    balanced = resolve-Balanced res now u _ dst w refl b;
  }

  result-trouble : (r : Resolution) (s : SendResult) → result_trouble s ≤ send_trouble r s
  result-trouble failed_lookup (refused reason) = omega arith
  result-trouble failed_lookup unmarshalled = omega arith
  result-trouble failed_lookup (written start) = omega arith
  result-trouble cancelled_lookup (refused reason) = omega arith
  result-trouble cancelled_lookup unmarshalled = omega arith
  result-trouble cancelled_lookup (written start) = omega arith
  result-trouble stopped_lookup (refused reason) = omega arith
  result-trouble stopped_lookup unmarshalled = omega arith
  result-trouble stopped_lookup (written start) = omega arith
  result-trouble (found ip) (refused reason) = omega arith
  result-trouble (found ip) unmarshalled = omega arith
  result-trouble (found ip) (written start) = omega arith

  from-Next : {x n u : ℕ} {w w1 w' : Worker F} → w1.seq ≡ w.seq → Next x n u w1 w' → Next x n u w w'
  from-Next e m = record {
    more = m.more;
    least = m.least;
    most = m.most;
    used = omega (arith, e, m.used);
    balanced = m.balanced;
  }

  pub send_case-Next :
      (count : ℕ) (dst : Option String) (res : Resolution) (result : SendResult) (now u : ℕ)
      (w : Worker F)
      → suc w.seq ≤ s0 + wire_seqs
      → Balanced fl epoch s0 u w
      → Next (send_trouble res result) 1 u w (send_case fl count dst res result now w)
  unfolding send_case
  send_case-Next count (some a) res result now u w few b =
      relax-Next (result-trouble res result) (omega arith)
        (send_now-Next count result now u w few b)
  send_case-Next count none cancelled_lookup result now u w few b =
      unfold resolve_target in
      relax-Next (omega arith) (omega arith) (resolve-Next cancelled_lookup now u none w b)
  send_case-Next count none stopped_lookup result now u w few b =
      unfold resolve_target in
      relax-Next (omega arith) (omega arith) (resolve-Next stopped_lookup now u none w b)
  send_case-Next count none failed_lookup result now u w few b =
      unfold resolve_target in
      relax-Next (omega arith) (omega arith) (resolve-Next failed_lookup now u none w b)
  send_case-Next count none (found ip) result now u w few b =
      unfold resolve_target in
      relax-Next (result-trouble (found ip) result) (omega arith) (
        from-Next refl (
          send_now-Next count result now u _ few
            (resolve-Balanced (found ip) now u u (some ip) w (omega arith) b)))
