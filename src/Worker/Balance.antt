-- ===== src/Worker/Balance.antt =====
-- The account of internal/pinger/worker.go over whole runs of `runTargetWorker`.
use mping.Base.{
  ℕ, ◌+◌, ◌≤◌, ◌≡◌, refl, Bool, true, false, Option, none, some, List, [], ◌∷◌, arith, length, sym,
  ◌∙◌, if_split, if◌then◌else◌,
}
use mathlib.Core.Path.{subst}
use mping.Base.Float.{Floats}
use mping.Target.State.{Target}
use mping.Worker.Loop.{
  drained, Unacked, settle_found, Reply, PendingProbe, Resolution, Worker, WorkerEvent, dns, send,
  reply, sweep, stop, wire_seqs, settle_reply, leave, turn, step, run, start_worker,
}
use mping.Worker.Turns.{Goes, turn-running}
use mping.Worker.Moves.{lookup_trouble, resolve_target-Moved}
use mping.Worker.Ledger.{
  trouble, troubles, is_send, sends, Next, same-Next, send_case-Next, relax-Next, resolve-Next,
}
use mping.Worker.Accounts.{Balanced, settle_found-Balanced, sweep-Balanced, Settled, leave-Settled}

-- The probes that are outstanding: the map is gone once the function has returned.
abbrev pub outstanding : {F : Type 0} → Worker F → Unacked
outstanding w = if w.running then w.unacked else []

module _ {F : Type 0} (fl : Floats F) (epoch s0 : ℕ) where
  settle_found-seq :
      (f : Option PendingProbe) (r : Reply) (now : ℕ) (w : Worker F)
      → (settle_found fl f r now w).seq ≡ w.seq
  unfolding settle_found
  settle_found-seq none r now w = refl
  settle_found-seq (some pend) r now w = refl

  pub if-Next :
      {x n u : ℕ} {w w1 w2 : Worker F} (b : Bool)
      → Next fl epoch s0 x n u w w1
      → Next fl epoch s0 x n u w w2
      → Next fl epoch s0 x n u w (if b then w1 else w2)
  if-Next true p q = p
  if-Next false p q = q

  turn-Next :
      (count timeout : ℕ) (e : WorkerEvent) (u : ℕ) (w : Worker F)
      → Goes e
      → w.seq + is_send e ≤ s0 + wire_seqs
      → Balanced fl epoch s0 u w
      → Next fl epoch s0 (trouble e) (is_send e) u w (turn fl count timeout e w)
  turn-Next count timeout (dns res now) u w g few b =
      unfold turn in resolve-Next fl epoch s0 res now u _ w b
  turn-Next count timeout (send res result now) u w g few b =
      unfold turn in
      if-Next w.done_sending
        (relax-Next fl epoch s0 (omega arith) (omega arith) (same-Next fl epoch s0 u w w refl b))
        (send_case-Next fl epoch s0 count w.dst res result now u w (omega arith) b)
  turn-Next count timeout (reply r now) u w g few b =
      unfold turn settle_reply in
      if-Next w.replying
        (same-Next fl epoch s0 u w _ (settle_found-seq _ r now w)
          (settle_found-Balanced fl epoch s0 u r now w _ refl b))
        (same-Next fl epoch s0 u w w refl b)
  turn-Next count timeout (sweep now) u w g few b =
      unfold turn in
      same-Next fl epoch s0 u w _ refl (sweep-Balanced fl epoch s0 u count timeout now w b)
  turn-Next count timeout stop u w g few b = absurd g

  -- The account of a worker, by whether it is running.
  abbrev Account : Bool → ℕ → Worker F → Type 0
  Account true u w = Balanced fl epoch s0 u w
  Account false u w = Settled fl epoch s0 u w

  -- As `Next`, for a worker that may have returned.
  record Ran (x n u : ℕ) (w w' : Worker F) : Type 0 where
    pub more : ℕ
    pub least : u ≤ more
    pub most : more ≤ u + x
    pub used : w'.seq ≤ w.seq + n
    pub account : Account w'.running more w'

  same-Ran : {x n : ℕ} (u : ℕ) (w : Worker F) → Account w.running u w → Ran x n u w w
  same-Ran u w a = record {
    more = u;
    least = omega arith;
    most = omega arith;
    used = omega arith;
    account = a;
  }

  Next-Ran :
      {x n u : ℕ} {w w' : Worker F}
      → Next fl epoch s0 x n u w w'
      → w'.running ≡ true
      → Ran x n u w w'
  Next-Ran {w' = w'} m on = record {
    more = m.more;
    least = m.least;
    most = m.most;
    used = m.used;
    account = subst (λ b. Account b m.more w') (sym on) m.balanced;
  }

  leave-Ran :
      {x n u : ℕ} {w w' : Worker F} → Next fl epoch s0 x n u w w' → Ran x n u w (leave fl w')
  unfolding leave
  leave-Ran {w' = w'} m = record {
    more = m.more;
    least = m.least;
    most = m.most;
    used = m.used;
    account = leave-Settled fl epoch s0 m.more w' m.balanced;
  }

  going-Ran :
      (count timeout : ℕ) (e : WorkerEvent) (u : ℕ) (w : Worker F)
      → Goes e
      → w.running ≡ true
      → w.seq + is_send e ≤ s0 + wire_seqs
      → Balanced fl epoch s0 u w
      → let w' = turn fl count timeout e w in
        Ran (trouble e) (is_send e) u w (if drained fl w' then leave fl w' else w')
  going-Ran count timeout e u w g on few b =
      let m = turn-Next count timeout e u w g few b in
      let w' = turn fl count timeout e w in
      if_split (Ran (trouble e) (is_send e) u w) (drained fl w') (leave fl w') w' (λ h. leave-Ran m)
        (λ h. Next-Ran m (turn-running fl count timeout e w g ∙ on))

  running_step-Ran :
      (count timeout : ℕ) (e : WorkerEvent) (u : ℕ) (w : Worker F)
      → w.running ≡ true
      → w.seq + is_send e ≤ s0 + wire_seqs
      → Balanced fl epoch s0 u w
      → let w' = turn fl count timeout e w in
        Ran (trouble e) (is_send e) u w (if drained fl w' then leave fl w' else w')
  running_step-Ran count timeout stop u w on few b =
      unfold turn leave in leave-Ran (same-Next fl epoch s0 u w w refl b)
  running_step-Ran count timeout (dns res now) u w on few b =
      going-Ran count timeout (dns res now) u w tt on few b
  running_step-Ran count timeout (send res result now) u w on few b =
      going-Ran count timeout (send res result now) u w tt on few b
  running_step-Ran count timeout (reply r now) u w on few b =
      going-Ran count timeout (reply r now) u w tt on few b
  running_step-Ran count timeout (sweep now) u w on few b =
      going-Ran count timeout (sweep now) u w tt on few b

  step-Ran :
      (count timeout : ℕ) (e : WorkerEvent) (u : ℕ) (w : Worker F)
      → w.seq + is_send e ≤ s0 + wire_seqs
      → Account w.running u w
      → Ran (trouble e) (is_send e) u w (step fl count timeout e w)
  unfolding step
  step-Ran count timeout e u w few a =
      let w' = turn fl count timeout e w in
      if_split (Ran (trouble e) (is_send e) u w) w.running
        (if drained fl w' then leave fl w' else w') w
        (λ on. running_step-Ran count timeout e u w on few (subst (λ b. Account b u w) on a))
        (λ off. same-Ran u w a)

  run-Ran :
      (count timeout : ℕ) (es : List WorkerEvent) (u : ℕ) (w : Worker F)
      → w.seq + sends es ≤ s0 + wire_seqs
      → Account w.running u w
      → Ran (troubles es) (sends es) u w (run fl count timeout es w)
  unfolding run
  run-Ran count timeout [] u w few a = same-Ran u w a
  run-Ran count timeout (e ∷ es) u w few a =
      let m = step-Ran count timeout e u w (omega arith) a in
      let rest =
        run-Ran count timeout es m.more (step fl count timeout e w) (omega (arith, m.used))
          m.account in
      record {
        more = rest.more;
        least = omega (arith, m.least, rest.least);
        most = omega (arith, m.most, rest.most);
        used = omega (arith, m.used, rest.used);
        account = rest.account;
      }

  Account-outstanding :
      (b : Bool) (u : ℕ) (w : Worker F)
      → w.running ≡ b
      → Account b u w
      → w.target.sent + u
        ≡ w.target.recv + w.target.loss + w.target.cancelled + length (outstanding w)
  Account-outstanding true u w e a = rw e (a.balance)
  Account-outstanding false u w e a = rw e (omega (arith, a))

module _ {F : Type 0} (fl : Floats F) where
  start-Balanced :
      (s0 : ℕ) (res : Resolution) (now u : ℕ) (t : Target F)
      → t.sent + u ≡ t.recv + t.loss + t.cancelled
      → Balanced fl t.probe_epoch s0 (u + lookup_trouble res) (start_worker fl s0 res now t)
  unfolding start_worker
  start-Balanced s0 res now u t e =
      let m = resolve_target-Moved fl res now t in
      record {
        window = m.window;
        outstanding = tt;
        ahead = omega arith;
        balance = omega (arith, e, m.sends, m.settled);
      }

  -- Let a worker start on a target where the probes sent and `u` other failures are the replies, losses
  -- and cancellations, and let at most 65536 of the events of a run be of the send timer. After the run,
  -- the probes sent and some `v` other failures are the replies, the losses, the cancellations and, while
  -- the worker runs, the probes outstanding: once it has returned, every probe is settled. Here `v` is at
  -- least `u`, and each failed lookup and refused write among the events (and the first lookup, if it
  -- failed) adds at most 1 to it.
  pub run-accounts :
      (count timeout s0 : ℕ) (res : Resolution) (now u : ℕ) (t : Target F) (es : List WorkerEvent)
      → t.sent + u ≡ t.recv + t.loss + t.cancelled
      → sends es ≤ wire_seqs
      → let w = run fl count timeout es (start_worker fl s0 res now t) in
        (v : ℕ) × (u ≤ v)
        × (v ≤ u + lookup_trouble res + troubles es)
        × (w.target.sent + v
            ≡ w.target.recv + w.target.loss + w.target.cancelled + length (outstanding w))
  unfolding start_worker
  run-accounts count timeout s0 res now u t es e few =
      let w0 = start_worker fl s0 res now t in
      let b = start-Balanced s0 res now u t e in
      let m =
        run-Ran fl t.probe_epoch s0 count timeout es (u + lookup_trouble res) w0 (omega arith) b in
      let w = run fl count timeout es w0 in
      (
        m.more,
        omega (arith, m.least),
        omega (arith, m.most),
        Account-outstanding fl t.probe_epoch s0 w.running m.more w refl m.account,
      )
