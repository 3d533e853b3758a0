-- ===== src/Worker/Tests.antt =====
-- The loop of internal/pinger/worker.go on a short run.
use mping.Base.{some, ℕ, ◌+◌, ◌≡◌, ◌≤◌, refl, length, List, [], ◌∷◌, false, arith}
use mping.Base.Int.{pos}
use mping.Base.Sample.{whole}
use mping.Target.State.{Target}
use mping.Target.New.{new_target_stats}
use mping.Target.Update.{set_ip, note_ip}
use mping.Target.Log.{record_event, keep_event, append_event}
use mping.Target.Probe.{new_probe, inc_sent}
use mping.Worker.Loop.{
  PendingProbe, Reply, found, failed_lookup, Worker, WorkerEvent, send, reply, stop, sweep, written,
  refused, run, start_worker, resolve_target, send_probe, send_case, send_now, find_pending,
  delete_pending, turn, step, leave,
}
use mping.Worker.Moves.{lookup_trouble}
use mping.Worker.Ledger.{troubles}
use mping.Worker.Return.{step-AllExpired}
use mping.Worker.Balance.{outstanding, run-accounts}

abbrev host : Target ℕ
host = new_target_stats whole 1 "192.0.2.1" 1000

-- Two probes, of which one is answered, a refused write, and the stop.
abbrev events : List WorkerEvent
events =
    send failed_lookup (written 1001) 1001
    ∷ send failed_lookup (written 1002) 1002
    ∷ reply (record { rtt = pos 5; ttl = pos 64; seq = 8; err = "" }) 1006
    ∷ send failed_lookup (refused "Send Error") 1007
    ∷ stop
    ∷ []

run-accounts_example :
    let w = run whole 0 100 events (start_worker whole 7 (found "192.0.2.1") 1000 host) in
    (v : ℕ) × (0 ≤ v)
    × (v ≤ 0 + lookup_trouble (found "192.0.2.1") + troubles events)
    × (w.target.sent + v
        ≡ w.target.recv + w.target.loss + w.target.cancelled + length (outstanding w))
run-accounts_example =
    run-accounts whole 0 100 7 (found "192.0.2.1") 1000 0 host events
      (unfold new_target_stats in refl) (omega arith)

abbrev answer : Reply
answer = record { rtt = pos 5; ttl = pos 64; seq = 8; err = "" }

abbrev one_send : List WorkerEvent
one_send = send failed_lookup (written 1001) 1001 ∷ []

abbrev first_probe : PendingProbe
first_probe = record { start = 1001; stats = some 0 }

-- The only probe of a worker is sent at 1001 ns and times out after 100.
abbrev sent_all : Worker ℕ
sent_all = run whole 1 100 one_send (start_worker whole 7 (found "192.0.2.1") 1000 host)

step-AllExpired_example : (step whole 1 100 (sweep 1201) sent_all).running ≡ false
step-AllExpired_example =
    step-AllExpired whole 1 100 1201 sent_all
      (unfold run step turn send_case send_now send_probe find_pending delete_pending leave
          start_worker resolve_target set_ip note_ip record_event keep_event append_event
          new_target_stats new_probe inc_sent in
        refl)
      (unfold run step turn send_case send_now send_probe find_pending delete_pending leave
          start_worker resolve_target set_ip note_ip record_event keep_event append_event
          new_target_stats new_probe inc_sent in
        (omega arith, tt))
