-- ===== src/Worker/Loop.antt =====
-- The select loop of internal/pinger/worker.go (`runTargetWorker`) with `settleReply`,
-- `sweepTimeouts`, and `resolveTargetContext` of resolve.go. Name resolution, sockets and the clock
-- are the environment's: an event says which case of the select was ready, and what they answered.
-- A time is a number of nanoseconds; the map `unacked` is a list of its entries.
use mping.Base.{
  ℕ, ◌+◌, ◌-◌, ◌%◌, Bool, true, false, ◌&&◌, Option, none, some, List, [], ◌∷◌, length, ltb, leb,
  ◌==◌, if◌then◌else◌,
}
use mping.Base.Int.{ℤ, pos, leb_ℤ}
use mping.Base.Float.{Floats}
use mping.Base.Text.{String, is_empty}
use mping.Target.State.{Target}
use mping.Target.Update.{set_ip}
use mping.Target.Probe.{
  Probe, new_probe, inc_sent, on_success, on_failure, on_duplicate, on_late_reply, on_cancelled,
}
use mping.Worker.History.{
  RecentSeqHistory, RecentEntry, acked, timed_out, new_history, record_seq, lookup_seq,
}

abbrev pub wire_seqs : ℕ
wire_seqs = 65536

-- `seq & seqMask`.
abbrev pub wire : ℕ → ℕ
wire seq = seq % wire_seqs

pub record PendingProbe : Type 0 where
  pub start : ℕ
  pub stats : Probe

abbrev pub Unacked : Type 0
Unacked = List (ℕ × PendingProbe)

unfoldable pub find_pending : ℕ → Unacked → Option PendingProbe
find_pending s [] = none
find_pending s ((k, p) ∷ m) = if k == s then some p else find_pending s m

unfoldable pub delete_pending : ℕ → Unacked → Unacked
delete_pending s [] = []
delete_pending s ((k, p) ∷ m) = if k == s then m else (k, p) ∷ delete_pending s m

-- An assignment to the map: an entry under the same key is replaced.
abbrev pub put_pending : ℕ → PendingProbe → Unacked → Unacked
put_pending s p m = (s, p) ∷ delete_pending s m

-- A reply from the receiver; `err` is empty for an echo reply.
pub record Reply : Type 0 where
  pub rtt : ℤ
  pub ttl : ℤ
  pub seq : ℕ
  pub err : String

-- What a name resolution answered: the operation was cancelled, the pinger stopped, it failed or
-- had no address, or an address.
pub data Resolution : Type 0 where
  cancelled_lookup stopped_lookup failed_lookup : Resolution
  found : String → Resolution

-- What sending a probe came to: no socket or a failed write, with the reason recorded; a message that
-- could not be marshalled; or the time at which the probe was sent.
pub data SendResult : Type 0 where
  refused : String → SendResult
  unmarshalled : SendResult
  written : ℕ → SendResult

pub record Worker (F : Type 0) : Type 0 where
  pub target : Target F
  pub unacked : Unacked
  pub hist : RecentSeqHistory
  pub seq : ℕ
  pub done_sending : Bool
  pub dst : Option String
  pub replying : Bool  -- `replyCh` is set
  pub running : Bool

pub data WorkerEvent : Type 0 where
  dns : Resolution → ℕ → WorkerEvent
  send : Resolution → SendResult → ℕ → WorkerEvent
  reply : Reply → ℕ → WorkerEvent
  sweep : ℕ → WorkerEvent
  stop : WorkerEvent

module _ {F : Type 0} (fl : Floats F) where
  -- `resolveTargetContext`, less the lookups of ASN and PTR that it starts.
  unfoldable pub resolve_target : Resolution → ℕ → Target F → Option String × Target F
  resolve_target cancelled_lookup now t = (none, t)
  resolve_target stopped_lookup now t = (none, t)
  resolve_target failed_lookup now t = (none, (on_failure fl (new_probe t) "DNS Error" now t).1)
  resolve_target (found ip) now t = (some ip, set_ip ip now t)

  -- `sendProbeWithStats`: the time of a successful send, and the target.
  unfoldable pub send_probe : Probe → SendResult → ℕ → Target F → Option ℕ × Target F
  send_probe p (refused reason) now t = (none, (on_failure fl p reason now t).1)
  send_probe p unmarshalled now t = (none, t)
  send_probe p (written start) now t = (some start, (inc_sent p t).1)

  -- The first half of `settleReply`: a reply to an outstanding probe.
  unfoldable pub settle_pending : Reply → PendingProbe → ℕ → Target F → Target F
  settle_pending r pend now t =
      let rtt = if leb_ℤ r.rtt (pos 0) then pos (now - pend.start) else r.rtt in
      if is_empty r.err
      then (on_success fl pend.stats rtt r.ttl now t).1
      else (on_failure fl pend.stats r.err now t).1

  -- The second half: a reply to a probe settled before, or to none.
  unfoldable pub settle_recent : Option RecentEntry → Target F → Target F
  settle_recent none t = t
  settle_recent (some e) t = elim e.kind [
    | acked ↦ (on_duplicate e.stats t).1
    | timed_out ↦ (on_late_reply e.stats t).1
  ]

  -- `settleReply`.
  unfoldable pub settle_found : Option PendingProbe → Reply → ℕ → Worker F → Worker F
  settle_found (some pend) r now w = record w {
    unacked = delete_pending r.seq w.unacked;
    target = settle_pending r pend now w.target;
    hist = record_seq r.seq acked pend.stats w.hist;
  }
  settle_found none r now w = record w { target = settle_recent (lookup_seq r.seq w.hist) w.target }

  unfoldable pub settle_reply : Reply → ℕ → Worker F → Worker F
  settle_reply r now w = settle_found (find_pending r.seq w.unacked) r now w

  -- `sweepTimeouts`: what is left outstanding, the target and the history.
  unfoldable pub sweep_timeouts :
      ℕ → ℕ → Unacked → Target F → RecentSeqHistory → Unacked × Target F × RecentSeqHistory
  sweep_timeouts timeout now [] t h = ([], t, h)
  sweep_timeouts timeout now ((s, pend) ∷ m) t h =
      let expired = leb timeout (now - pend.start) in
      let t' = if expired then (on_failure fl pend.stats "Timeout" now t).1 else t in
      let h' = if expired then record_seq s timed_out pend.stats h else h in
      let (m', t'', h'') = sweep_timeouts timeout now m t' h' in
      (if expired then m' else (s, pend) ∷ m', t'', h'')

  -- The deferred loop at the return: the outstanding probes are cancelled. The map stays as it is.
  unfoldable pub cancel_all : Unacked → Target F → Target F
  cancel_all [] t = t
  cancel_all ((s, pend) ∷ m) t = cancel_all m (on_cancelled pend.stats t).1

  unfoldable pub leave : Worker F → Worker F
  leave w = record w { target = cancel_all w.unacked w.target; running = false }

  -- A probe is sent to the address at hand.
  unfoldable pub send_now : ℕ → SendResult → ℕ → Worker F → Worker F
  send_now count result now w =
      let seq' = w.seq + 1 in
      let probe = new_probe w.target in
      let (sent_at, t) = send_probe probe result now w.target in
      let w' : Worker F = elim sent_at [
        | none ↦ record w { target = t; seq = seq' }
        | some start ↦ record w {
          target = t;
          seq = seq';
          unacked = put_pending (wire seq') (record { start = start; stats = probe }) w.unacked;
          replying = true;
        }
      ] in
      if ltb 0 count && leb count seq' then record w' { done_sending = true } else w'

  -- The case of the send timer, with an address resolved first if there is none. A count of 0 stands
  -- for every count that is not positive.
  unfoldable pub send_case : ℕ → Option String → Resolution → SendResult → ℕ → Worker F → Worker F
  send_case count (some addr) res result now w = send_now count result now w
  send_case count none res result now w =
      let (addr, t) = resolve_target res now w.target in
      let w' = record w { target = t; dst = addr } in
      elim addr [ none ↦ w' | some a ↦ send_now count result now w' ]

  -- One turn of the loop, before its final test.
  unfoldable pub turn : ℕ → ℕ → WorkerEvent → Worker F → Worker F
  turn count timeout (dns res now) w =
      let (addr, t) = resolve_target res now w.target in
      record w { target = t; dst = elim addr [ none ↦ w.dst | some a ↦ some a ] }
  turn count timeout (send res result now) w =
      if w.done_sending then w else send_case count w.dst res result now w
  turn count timeout (reply r now) w = if w.replying then settle_reply r now w else w
  turn count timeout (sweep now) w =
      let (m, t, h) = sweep_timeouts timeout now w.unacked w.target w.hist in
      record w { unacked = m; target = t; hist = h }
  turn count timeout stop w = leave w

  -- The final test of a turn, which a turn that returned does not reach.
  abbrev pub drained : Worker F → Bool
  drained w = w.running && (w.done_sending && length w.unacked == 0)

  -- A worker that has returned does nothing more.
  unfoldable pub step : ℕ → ℕ → WorkerEvent → Worker F → Worker F
  step count timeout e w =
      let w' = turn count timeout e w in
      if w.running then (if drained w' then leave w' else w') else w

  unfoldable pub run : ℕ → ℕ → List WorkerEvent → Worker F → Worker F
  run count timeout [] w = w
  run count timeout (e ∷ es) w = run count timeout es (step count timeout e w)

  -- The worker at its start, after the first resolution.
  unfoldable pub start_worker : ℕ → Resolution → ℕ → Target F → Worker F
  start_worker initial_seq res now t =
      let (addr, t') = resolve_target res now t in
      record {
        target = t';
        unacked = [];
        hist = new_history;
        seq = initial_seq;
        done_sending = false;
        dst = addr;
        replying = false;
        running = true;
      }
