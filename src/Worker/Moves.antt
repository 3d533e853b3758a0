-- ===== src/Worker/Moves.antt =====
-- How the steps of internal/pinger/worker.go move the counters of their target.
use mping.Base.{
  ℕ, ◌+◌, ◌≡◌, refl, ◌∙◌, inl, inr, true, Option, none, some, arith, if◌then◌else◌, Bool-cases,
  ◌&&◌, not,
}
use mping.Base.Float.{Floats}
use mping.Base.Text.{String, is_empty, str_eq, ◌<>◌}
use mping.Target.State.{Target, Kind}
use mping.Target.Update.{set_ip, note_ip, no_path_mtu}
use mping.Target.Probe.{Probe, new_probe}
use mping.Target.Tally.{tally, OnlyLog, record_event-OnlyLog}
use mping.Target.Window.{
  ProbeCall, sent, success, failure, duplicate, late, cancel, counted, belongs, call, call_lem,
}
use mping.Worker.History.{RecentEntry, ResolutionKind, acked, timed_out}
use mping.Worker.Loop.{
  PendingProbe, Reply, Resolution, cancelled_lookup, stopped_lookup, failed_lookup, found,
  resolve_target, settle_pending, settle_recent,
}

-- From `t` to `t'` the replies, losses and cancellations grow by `d` and the probes sent by `n`, in the
-- same window.
pub record Moved {F : Type 0} (n d : ℕ) (t t' : Target F) : Type 0 where
  pub sends : t'.sent ≡ t.sent + n
  pub settled : t'.recv + t'.loss + t'.cancelled ≡ t.recv + t.loss + t.cancelled + d
  pub window : t'.probe_epoch ≡ t.probe_epoch

-- What a call of a probe of the current window adds to each side.
abbrev pub sent_by : ProbeCall → ℕ
sent_by sent = 1
sent_by _ = 0

abbrev pub settled_by : ProbeCall → ℕ
settled_by (success rtt ttl now) = 1
settled_by (failure reason now) = 1
settled_by cancel = 1
settled_by _ = 0

-- A failed lookup is a loss of no probe.
abbrev pub lookup_trouble : Resolution → ℕ
lookup_trouble failed_lookup = 1
lookup_trouble _ = 0

module _ {F : Type 0} (fl : Floats F) where
  tally-Moved :
      (n d : ℕ) (t t' : Target F)
      → (tally t').sent ≡ (tally t).sent + n
      → (tally t').recv + (tally t').loss + (tally t').cancelled
        ≡ (tally t).recv + (tally t).loss + (tally t).cancelled + d
      → (tally t').epoch ≡ (tally t).epoch
      → Moved n d t t'
  unfolding tally
  tally-Moved n d t t' a b c = record { sends = a; settled = b; window = c }

  counted-Moved :
      (c : ProbeCall) (t t' : Target F)
      → tally t' ≡ counted c (tally t)
      → Moved (sent_by c) (settled_by c) t t'
  counted-Moved sent t t' q = tally-Moved 1 0 t t' (rw q (omega arith)) (rw q (omega arith)) (rw q)
  counted-Moved (success rtt ttl now) t t' q =
      tally-Moved 0 1 t t' (rw q (omega arith)) (rw q (omega arith)) (rw q)
  counted-Moved (failure reason now) t t' q =
      tally-Moved 0 1 t t' (rw q (omega arith)) (rw q (omega arith)) (rw q)
  counted-Moved duplicate t t' q =
      tally-Moved 0 0 t t' (rw q (omega arith)) (rw q (omega arith)) (rw q)
  counted-Moved late t t' q = tally-Moved 0 0 t t' (rw q (omega arith)) (rw q (omega arith)) (rw q)
  counted-Moved cancel t t' q =
      tally-Moved 0 1 t t' (rw q (omega arith)) (rw q (omega arith)) (rw q)

  -- A call through a probe of the current window.
  pub call-Moved :
      (p : Probe) (c : ProbeCall) (t : Target F)
      → p ≡ some t.probe_epoch
      → Moved (sent_by c) (settled_by c) t (call fl p c t).1
  call-Moved p c t e =
      let own : belongs p t.probe_epoch ≡ true = rw e (ground arith) in
      counted-Moved c t (call fl p c t).1 ((call_lem fl p c t).0 own).1

  pub same-Moved : (t : Target F) → Moved 0 0 t t
  same-Moved t = record { sends = omega arith; settled = omega arith; window = refl }

  pub trans-Moved :
      {n d n' d' n'' d'' : ℕ} {t t' t'' : Target F}
      → Moved n d t t'
      → Moved n' d' t' t''
      → n'' ≡ n + n'
      → d'' ≡ d + d'
      → Moved n'' d'' t t''
  trans-Moved a b p q = record {
    sends = omega (arith, a.sends, b.sends);
    settled = omega (arith, a.settled, b.settled);
    window = b.window ∙ a.window;
  }

  -- A duplicate or late reply of any window moves neither side.
  foreign-Moved :
      (p : Probe) (c : ProbeCall) (t : Target F)
      → sent_by c ≡ 0
      → settled_by c ≡ 0
      → Moved 0 0 t (call fl p c t).1
  foreign-Moved p c t a b = elim (Bool-cases (belongs p t.probe_epoch)) [
    | inl e ↦ rw (a, b) at (counted-Moved c t (call fl p c t).1 ((call_lem fl p c t).0 e).1)
    | inr e ↦ rw ((call_lem fl p c t).1 e) (same-Moved t)
  ]

  note_ip-Moved : (ip : String) (now : ℕ) (t : Target F) → Moved 0 0 t (note_ip ip now t)
  unfolding note_ip OnlyLog
  note_ip-Moved ip now t =
      let (es, n, out, e) = record_event-OnlyLog Kind.dns ("IP: " <> t.ip <> " → " <> ip) now t in
      rw e (record { sends = omega arith; settled = omega arith; window = refl })

  set_ip-Moved : (ip : String) (now : ℕ) (t : Target F) → Moved 0 0 t (set_ip ip now t)
  unfolding set_ip
  set_ip-Moved ip now t = elim (Bool-cases (str_eq t.ip ip)) [
    | inl e ↦ rw e (record { sends = omega arith; settled = omega arith; window = refl })
    | inr e ↦
        let t1 = record t {
          path_mtu =
              if not (is_empty t.path_mtu.ip) && not (str_eq t.path_mtu.ip ip)
              then no_path_mtu
              else t.path_mtu;
        } in
        let m = note_ip-Moved ip now t1 in
        rw e (record { sends = m.sends; settled = m.settled; window = m.window })
  ]

  pub resolve_target-Moved :
      (res : Resolution) (now : ℕ) (t : Target F)
      → Moved 0 (lookup_trouble res) t (resolve_target fl res now t).1
  unfolding resolve_target new_probe call
  resolve_target-Moved cancelled_lookup now t = same-Moved t
  resolve_target-Moved stopped_lookup now t = same-Moved t
  resolve_target-Moved failed_lookup now t =
      call-Moved (some t.probe_epoch) (failure "DNS Error" now) t refl
  resolve_target-Moved (found ip) now t = set_ip-Moved ip now t

  pub settle_pending-Moved :
      (r : Reply) (pend : PendingProbe) (now : ℕ) (t : Target F)
      → pend.stats ≡ some t.probe_epoch
      → Moved 0 1 t (settle_pending fl r pend now t)
  unfolding settle_pending call
  settle_pending-Moved r pend now t e = elim (Bool-cases (is_empty r.err)) [
    | inl h ↦ rw h (call-Moved pend.stats (success _ r.ttl now) t e)
    | inr h ↦ rw h (call-Moved pend.stats (failure r.err now) t e)
  ]

  pub settle_recent-Moved :
      (found : Option RecentEntry) (t : Target F) → Moved 0 0 t (settle_recent fl found t)
  settle_recent-Moved none t = unfold settle_recent in same-Moved t
  settle_recent-Moved (some e) t = kinds e.kind refl
    where
      kinds : (k : ResolutionKind) → e.kind ≡ k → Moved 0 0 t (settle_recent fl (some e) t)
      kinds acked q =
          unfold settle_recent call in rw q (foreign-Moved e.stats duplicate t refl refl)
      kinds timed_out q = unfold settle_recent call in rw q (foreign-Moved e.stats late t refl refl)
