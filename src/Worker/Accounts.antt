-- ===== src/Worker/Accounts.antt =====
-- Every probe that internal/pinger/worker.go sends is accounted for once.
use mping.Base.{
  ℕ, suc, ◌+◌, ◌-◌, ◌≤◌, ◌<◌, ◌≡◌, ◌≢◌, refl, ap, sym, ◌∙◌, inl, inr, Option, none, some, [], ◌∷◌,
  arith, length, leb, ◌==◌, Bool-cases,
}
use mping.Base.Float.{Floats}
use mping.Rtt.Ring.{mod-ne}
use mping.Target.State.{Target}
use mping.Target.Probe.{on_failure}
use mping.Target.Window.{failure, cancel, call}
use mping.Worker.History.{RecentSeqHistory, timed_out, record_seq}
use mping.Worker.Loop.{
  PendingProbe, Unacked, Reply, Worker, sweep, wire, wire_seqs, find_pending, delete_pending,
  settle_found, sweep_timeouts, cancel_all, leave, turn,
}
use mping.Worker.Moves.{
  Moved, same-Moved, trans-Moved, call-Moved, settle_pending-Moved, settle_recent-Moved,
}

-- The outstanding probes are of the window `epoch`, each under the wire number of one of the sequence
-- numbers after `s0`, up to `seq`.
abbrev pub Outstanding : ℕ → ℕ → ℕ → Unacked → Type 0
Outstanding epoch s0 seq [] = Unit {0}
Outstanding epoch s0 seq ((k, p) ∷ m) =
    (p.stats ≡ some epoch)
    × ((s : ℕ) × (k ≡ wire s) × (s0 < s) × (s ≤ seq))
    × Outstanding epoch s0 seq m

module _ (epoch s0 : ℕ) where
  pub Outstanding-mono :
      (seq seq' : ℕ) (m : Unacked)
      → seq ≤ seq'
      → Outstanding epoch s0 seq m
      → Outstanding epoch s0 seq' m
  Outstanding-mono seq seq' [] le o = tt
  Outstanding-mono seq seq' ((k, p) ∷ m) le o =
      let (s, e, a, b) = o.1 in (o.0, (s, e, a, omega arith), Outstanding-mono seq seq' m le o.2)

  delete-Outstanding :
      (seq s : ℕ) (m : Unacked)
      → Outstanding epoch s0 seq m
      → Outstanding epoch s0 seq (delete_pending s m)
  unfolding delete_pending
  delete-Outstanding seq s [] o = tt
  delete-Outstanding seq s ((k, p) ∷ m) o = elim (Bool-cases (k == s)) [
    | inl e ↦ rw e (o.2)
    | inr e ↦ rw e (o.0, o.1, delete-Outstanding seq s m o.2)
  ]

  find-Outstanding :
      (seq s : ℕ) (m : Unacked) {p : PendingProbe}
      → Outstanding epoch s0 seq m
      → find_pending s m ≡ some p
      → (p.stats ≡ some epoch) × (length (delete_pending s m) + 1 ≡ length m)
  unfolding find_pending delete_pending
  find-Outstanding seq s [] o e = cc
  find-Outstanding seq s ((k, q) ∷ m) o e = elim (Bool-cases (k == s)) [
    | inl h ↦ rw h (ground arith, omega arith)
    | inr h ↦
        let found = find-Outstanding seq s m o.2 (rw h at e) in
        rw h (found.0, omega (arith, found.1))
  ]

  -- The wire number after `seq` is free, as long as fewer than 65536 numbers are in use.
  pub delete-fresh :
      (seq : ℕ) (m : Unacked)
      → suc seq ≤ s0 + wire_seqs
      → Outstanding epoch s0 seq m
      → delete_pending (wire (seq + 1)) m ≡ m
  unfolding delete_pending
  delete-fresh seq [] few o = refl
  delete-fresh seq ((k, p) ∷ m) few o =
      let (s, e, a, b) = o.1 in
      let other : k ≢ wire (seq + 1) =
        λ q. mod-ne wire_seqs s (seq + 1) (omega arith) (omega arith) (sym e ∙ q) in
      ground (arith, delete-fresh seq m few o.2, other)

module _ {F : Type 0} (fl : Floats F) (epoch s0 : ℕ) where
  sweep-Moved :
      (timeout now seq : ℕ) (m : Unacked) (t : Target F) (h : RecentSeqHistory)
      → t.probe_epoch ≡ epoch
      → Outstanding epoch s0 seq m
      → let (m', t', h') = sweep_timeouts fl timeout now m t h in
        (d : ℕ) × Moved 0 d t t' × (length m' + d ≡ length m) × Outstanding epoch s0 seq m'
  unfolding sweep_timeouts call
  sweep-Moved timeout now seq [] t h e o = (0, same-Moved fl t, omega arith, tt)
  sweep-Moved timeout now seq ((k, p) ∷ m) t h e o =
      elim (Bool-cases (leb timeout (now - p.start))) [
        | inl old ↦
            let one = call-Moved fl p.stats (failure "Timeout" now) t (o.0 ∙ ap some (sym e)) in
            let t' = (on_failure fl p.stats "Timeout" now t).1 in
            let h' = record_seq k timed_out p.stats h in
            let (d, moved, len, left) = sweep-Moved timeout now seq m t' h' (one.window ∙ e) o.2 in
            rw old (d + 1, trans-Moved fl one moved refl (omega arith), omega (arith, len), left)
        | inr young ↦
            let (d, moved, len, left) = sweep-Moved timeout now seq m t h e o.2 in
            rw young (d, moved, omega (arith, len), (o.0, o.1, left))
      ]

  cancel_all-Moved :
      (seq : ℕ) (m : Unacked) (t : Target F)
      → t.probe_epoch ≡ epoch
      → Outstanding epoch s0 seq m
      → Moved 0 (length m) t (cancel_all fl m t)
  unfolding cancel_all call
  cancel_all-Moved seq [] t e o = same-Moved fl t
  cancel_all-Moved seq ((k, p) ∷ m) t e o =
      let one = call-Moved fl p.stats cancel t (o.0 ∙ ap some (sym e)) in
      trans-Moved fl one (cancel_all-Moved seq m (call fl p.stats cancel t).1 (one.window ∙ e) o.2)
        (omega arith) (omega arith)

  -- A worker all of whose probes are of the window `epoch`. The probes sent and the `u` failures of
  -- other kinds are the replies, losses and cancellations, and the probes outstanding.
  pub record Balanced (u : ℕ) (w : Worker F) : Type 0 where
    pub window : w.target.probe_epoch ≡ epoch
    pub outstanding : Outstanding epoch s0 w.seq w.unacked
    pub ahead : s0 ≤ w.seq
    pub balance :
        w.target.sent + u ≡ w.target.recv + w.target.loss + w.target.cancelled + length w.unacked

  pub Moved-Balanced :
      {u u' n d : ℕ} (w w' : Worker F)
      → Balanced u w
      → Moved n d w.target w'.target
      → Outstanding epoch s0 w'.seq w'.unacked
      → w.seq ≤ w'.seq
      → n + u' + length w.unacked ≡ u + d + length w'.unacked
      → Balanced u' w'
  Moved-Balanced w w' b m o le e = record {
    window = m.window ∙ b.window;
    outstanding = o;
    ahead = omega (arith, b.ahead);
    balance = omega (arith, b.balance, m.sends, m.settled);
  }

  pub settle_found-Balanced :
      (u : ℕ) (r : Reply) (now : ℕ) (w : Worker F) (f : Option PendingProbe)
      → find_pending r.seq w.unacked ≡ f
      → Balanced u w
      → Balanced u (settle_found fl f r now w)
  unfolding settle_found
  settle_found-Balanced u r now w none e b =
      Moved-Balanced w _ b (settle_recent-Moved fl _ w.target) b.outstanding (omega arith)
        (omega arith)
  settle_found-Balanced u r now w (some pend) e b =
      let found = find-Outstanding epoch s0 w.seq r.seq w.unacked b.outstanding e in
      Moved-Balanced w _ b
        (settle_pending-Moved fl r pend now w.target (found.0 ∙ ap some (sym b.window)))
        (delete-Outstanding epoch s0 w.seq r.seq w.unacked b.outstanding) (omega arith)
        (omega (arith, found.1))

  pub sweep-Balanced :
      (u count timeout now : ℕ) (w : Worker F)
      → Balanced u w
      → Balanced u (turn fl count timeout (sweep now) w)
  unfolding turn
  sweep-Balanced u count timeout now w b =
      let (d, moved, len, left) =
        sweep-Moved timeout now w.seq w.unacked w.target w.hist b.window b.outstanding in
      Moved-Balanced w _ b moved left (omega arith) (omega (arith, len))

  -- The account of a worker that has returned: nothing is outstanding any more.
  abbrev pub Settled : ℕ → Worker F → Type 0
  Settled u w = w.target.sent + u ≡ w.target.recv + w.target.loss + w.target.cancelled

  pub leave-Settled : (u : ℕ) (w : Worker F) → Balanced u w → Settled u (leave fl w)
  unfolding leave
  leave-Settled u w b =
      let m = cancel_all-Moved w.seq w.unacked w.target b.window b.outstanding in
      omega (arith, b.balance, m.sends, m.settled)
