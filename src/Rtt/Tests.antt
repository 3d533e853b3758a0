-- ===== src/Rtt/Tests.antt =====
-- The times and jitters of internal/stats/rtt_accumulator.go on small inputs.
use mping.Base.{◌≡◌, refl, List, [], ◌∷◌, arith, take_last}
use mping.Base.Int.{ℤ, pos, negsuc, ◌≤ℤ◌}
use mping.Base.Sample.{whole}
use mping.Rtt.{
  append_history, reconstruct_history, fresh, avg, history_snapshot, history_snapshot_window,
  update_jitter,
}
use mping.Rtt.Window.{
  append_times, history_snapshot-append_times, history_snapshot_window-append_times,
}
use mping.Rtt.Bounds.{accepted, Summarises, record_all, record_all-Summarises, avg_bounds}
use mping.Rtt.Jitter.{update_jitter_bounds}

abbrev times : List ℤ
times = pos 5 ∷ pos 0 ∷ pos 7 ∷ negsuc 1 ∷ pos 9 ∷ []

snapshot_kept :
    history_snapshot (append_times 3 times (fresh whole)) ≡ pos 7 ∷ negsuc 1 ∷ pos 9 ∷ []
unfolding append_history reconstruct_history fresh
snapshot_kept = refl

history_snapshot-append_times_example :
    history_snapshot (append_times 3 times (fresh whole)) ≡ take_last 3 times
history_snapshot-append_times_example = history_snapshot-append_times whole 3 times (omega arith)

history_snapshot_window-append_times_example :
    history_snapshot_window (append_times 3 times (fresh whole)) 2
    ≡ take_last 2 (history_snapshot (append_times 3 times (fresh whole)))
history_snapshot_window-append_times_example =
    history_snapshot_window-append_times whole 3 times 2 (omega arith)

record_all-Summarises_example : Summarises (accepted times) (record_all whole times)
record_all-Summarises_example = record_all-Summarises whole times (omega arith)

avg_bounds_example :
    ((record_all whole times).min_rtt ≤ℤ avg (record_all whole times))
    × (avg (record_all whole times) ≤ℤ (record_all whole times).max_rtt)
avg_bounds_example = avg_bounds whole times (λ e. cc) (omega arith)

update_jitter_bounds_example :
    (pos 4 ≤ℤ update_jitter (pos 20) (pos 9) (pos 5))
    × (update_jitter (pos 20) (pos 9) (pos 5) ≤ℤ pos 20)
update_jitter_bounds_example = update_jitter_bounds 20 9 5 (omega arith) (omega arith) (omega arith)
