-- ===== src/Worker/Turns.antt =====
-- Which turns of `runTargetWorker` in internal/pinger/worker.go return.
use mping.Base.{ℕ, ◌≡◌, refl, Bool, true, false, Option, none, some, if◌then◌else◌}
use mping.Base.Float.{Floats}
use mping.Base.Text.{String}
use mping.Worker.Loop.{
  settle_found, Reply, PendingProbe, Resolution, cancelled_lookup, stopped_lookup, failed_lookup,
  found, SendResult, refused, unmarshalled, written, Worker, WorkerEvent, dns, send, reply, sweep,
  stop, find_pending, resolve_target, send_probe, settle_reply, send_now, send_case, turn,
}

-- Only the stop ends a worker within a turn.
abbrev pub Goes : WorkerEvent → Type 0
Goes stop = ⊥
Goes _ = Unit {0}

module _ {F : Type 0} (fl : Floats F) where
  at_count-running :
      (b : Bool) (w : Worker F)
      → (if b then record w { done_sending = true } else w).running ≡ w.running
  at_count-running true w = refl
  at_count-running false w = refl

  send_now-running :
      (count : ℕ) (result : SendResult) (now : ℕ) (w : Worker F)
      → (send_now fl count result now w).running ≡ w.running
  unfolding send_now send_probe
  send_now-running count (refused reason) now w = at_count-running _ _
  send_now-running count unmarshalled now w = at_count-running _ _
  send_now-running count (written start) now w = at_count-running _ _

  send_case-running :
      (count : ℕ) (dst : Option String) (res : Resolution) (result : SendResult) (now : ℕ)
      (w : Worker F)
      → (send_case fl count dst res result now w).running ≡ w.running
  unfolding send_case resolve_target
  send_case-running count (some a) res result now w = send_now-running count result now w
  send_case-running count none cancelled_lookup result now w = refl
  send_case-running count none stopped_lookup result now w = refl
  send_case-running count none failed_lookup result now w = refl
  send_case-running count none (found ip) result now w = send_now-running count result now _

  settle_found-running :
      (f : Option PendingProbe) (r : Reply) (now : ℕ) (w : Worker F)
      → (settle_found fl f r now w).running ≡ w.running
  unfolding settle_found
  settle_found-running none r now w = refl
  settle_found-running (some pend) r now w = refl

  if-running :
      (b : Bool) (w w1 w2 : Worker F)
      → w1.running ≡ w.running
      → w2.running ≡ w.running
      → (if b then w1 else w2).running ≡ w.running
  if-running true w w1 w2 p q = p
  if-running false w w1 w2 p q = q

  pub turn-running :
      (count timeout : ℕ) (e : WorkerEvent) (w : Worker F)
      → Goes e
      → (turn fl count timeout e w).running ≡ w.running
  unfolding turn settle_reply
  turn-running count timeout (dns res now) w g = refl
  turn-running count timeout (send res result now) w g =
      if-running w.done_sending w w (send_case fl count w.dst res result now w) refl
        (send_case-running count w.dst res result now w)
  turn-running count timeout (reply x now) w g =
      if-running w.replying w (settle_found fl (find_pending x.seq w.unacked) x now w) w
        (settle_found-running (find_pending x.seq w.unacked) x now w) refl
  turn-running count timeout (sweep now) w g = refl
  turn-running count timeout stop w g = absurd g
