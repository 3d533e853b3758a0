-- ===== src/Receiver/Tests.antt =====
-- An ICMP error on its way from internal/pinger/receiver.go to the worker in worker.go, at an example.
use mping.Base.{ℕ, ◌+◌, ◌*◌, ◌≡◌, refl, Option, some, List, [], ◌∷◌, ◌++◌, arith, get_or}
use mping.Base.Int.{ℤ}
use mping.Base.Text.{String}
use mping.Base.Sample.{whole}
use mping.Base.Dict.{has}
use mping.Target.State.{Target}
use mping.Target.New.{new_target_stats}
use mping.Target.Update.{set_ip, note_ip}
use mping.Target.Log.{record_event, keep_event, append_event}
use mping.Target.Probe.{new_probe, inc_sent, on_failure}
use mping.Worker.Loop.{
  PendingProbe, found, failed_lookup, Worker, WorkerEvent, send, written, run, start_worker,
  resolve_target, send_probe, send_case, send_now, settle_reply, find_pending, delete_pending, turn,
  step, leave,
}
use mping.Receiver.{
  Channels, Message, dest_unreach_v4, echo_reply_v4, echo, dst_unreach, icmp_error_body_data,
  handle_icmp_error,
}
use mping.Receiver.Codes.{icmp_error_string}
use mping.Receiver.Quoted.{lost_reply, handle_icmp_error-settled}

-- A parser that reads the identifier and the sequence number at their places.
abbrev parse_echo : ℕ → List ℕ → Option Message
parse_echo proto bytes = some (record {
  type = echo_reply_v4;
  code = 0;
  body =
      echo (get_or bytes 4 0 * 256 + get_or bytes 5 0) (get_or bytes 6 0 * 256 + get_or bytes 7 0)
        [];
})

abbrev header : List ℕ
header = 69 ∷ 0 ∷ 0 ∷ 28 ∷ 0 ∷ 1 ∷ 64 ∷ 0 ∷ 64 ∷ 1 ∷ 0 ∷ 0 ∷ 192 ∷ 0 ∷ 2 ∷ 1 ∷ 192 ∷ 0 ∷ 2 ∷ 9 ∷ []

abbrev quoted : List ℕ
quoted = 8 ∷ 0 ∷ 0 ∷ 0 ∷ 0 ∷ 3 ∷ 0 ∷ 8 ∷ []

abbrev unreachable : Message
unreachable = record { type = dest_unreach_v4; code = 1; body = dst_unreach (header ++ quoted) }

abbrev two_channels : Channels
two_channels = record { ids = 2 ∷ 3 ∷ []; full = 2 ∷ [] }

abbrev no_digits : ℤ → String
no_digits n = "?"

abbrev host : Target ℕ
host = new_target_stats whole 1 "192.0.2.9" 1000

abbrev one_send : List WorkerEvent
one_send = send failed_lookup (written 1001) 1001 ∷ []

abbrev waiting : Worker ℕ
waiting = run whole 0 100 one_send (start_worker whole 7 (found "192.0.2.9") 1000 host)

abbrev first_probe : PendingProbe
first_probe = record { start = 1001; stats = some 0 }

first_probe-pending : find_pending 8 waiting.unacked ≡ some first_probe
unfolding run step turn send_case send_now send_probe find_pending delete_pending leave start_worker
    resolve_target set_ip note_ip record_event keep_event append_event new_target_stats new_probe
    inc_sent
first_probe-pending = refl

handle_icmp_error-settled_example :
    let r = lost_reply no_digits unreachable 8 in
    (handle_icmp_error parse_echo no_digits icmp_error_string two_channels unreachable
      ≡ some (3, r))
    × (((settle_reply whole r 1009 waiting).target
          ≡ (on_failure whole first_probe.stats r.err 1009 waiting.target).1)
        × ((settle_reply whole r 1009 waiting).unacked ≡ delete_pending 8 waiting.unacked))
handle_icmp_error-settled_example =
    handle_icmp_error-settled whole parse_echo no_digits two_channels unreachable header quoted 3 8
      1009 waiting first_probe (unfold icmp_error_body_data in refl)
      (omega arith, (omega arith, (omega arith, omega arith))) refl (unfold has in refl)
      (unfold has in refl) first_probe-pending
