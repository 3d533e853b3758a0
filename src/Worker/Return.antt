-- ===== src/Worker/Return.antt =====
-- The return of `runTargetWorker` in internal/pinger/worker.go once its probes are sent.
use mping.Base.{ℕ, ◌-◌, ◌≤◌, ◌≡◌, refl, inl, inr, true, false, [], ◌∷◌, arith, leb, Bool-cases}
use mping.Base.Float.{Floats}
use mping.Target.State.{Target}
use mping.Worker.History.{RecentSeqHistory}
use mping.Worker.Loop.{Unacked, Worker, sweep, sweep_timeouts, turn, leave, step}

-- Every outstanding probe was sent at least a timeout ago.
abbrev pub AllExpired : ℕ → ℕ → Unacked → Type 0
AllExpired timeout now [] = Unit {0}
AllExpired timeout now ((s, p) ∷ m) = (timeout ≤ now - p.start) × AllExpired timeout now m

module _ {F : Type 0} (fl : Floats F) where
  sweep-AllExpired :
      (timeout now : ℕ) (m : Unacked) (t : Target F) (h : RecentSeqHistory)
      → AllExpired timeout now m
      → (sweep_timeouts fl timeout now m t h).0 ≡ []
  unfolding sweep_timeouts
  sweep-AllExpired timeout now [] t h a = refl
  sweep-AllExpired timeout now ((s, p) ∷ m) t h (a, rest) =
      let late : leb timeout (now - p.start) ≡ true = ground arith in
      rw late (sweep-AllExpired timeout now m _ _ rest)

  -- A worker that has sent all its probes returns at the latest with the first sweep at which every
  -- outstanding probe has timed out.
  pub step-AllExpired :
      (count timeout now : ℕ) (w : Worker F)
      → w.done_sending ≡ true
      → AllExpired timeout now w.unacked
      → (step fl count timeout (sweep now) w).running ≡ false
  unfolding step turn leave
  step-AllExpired count timeout now w d a = elim (Bool-cases w.running) [
    | inl on ↦
        let empty = sweep-AllExpired timeout now w.unacked w.target w.hist a in
        rw (on, d, empty) refl
    | inr off ↦ rw off refl
  ]
