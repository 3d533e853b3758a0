-- ===== src/Worker/Replies.antt =====
-- Repeated replies in internal/pinger/worker.go (`settleReply`).
use mping.Base.{◌≡◌, none, [], ◌∷◌}
use mping.Base.Float.{Floats}
use mping.Target.State.{Target}
use mping.Target.Probe.{Probe}
use mping.Worker.Cache.{InOrder}
use mping.Worker.Loop.{Unacked, Worker, find_pending}

-- No two outstanding probes have the same wire number.
abbrev pub Distinct : Unacked → Type 0
Distinct [] = Unit {0}
Distinct ((k, p) ∷ m) = (find_pending k m ≡ none) × Distinct m

module _ {F : Type 0} (fl : Floats F) where
  -- The probes outstanding are distinct, and the nodes of the cache are in order.
  abbrev pub Tidy : Worker F → Type 0
  Tidy w = Distinct w.unacked × InOrder w.hist
