-- ===== src/Members.antt =====
-- internal/pinger/targets.go: the identifiers of echo and route probes, and the targets that a
-- pinger measures while it runs; with `registerTargets` of cmd/main/live_targets.go. A target is
-- a number, as its pointer is its identity. The maps of a pinger are association lists. A call
-- that takes the lock is one step; a worker that returns is a step of its own (`finish_worker`).
pub mod Ids
pub mod Sound
pub mod Launch
pub mod Calls
pub mod Rollback
pub mod Register
pub mod Membership
mod Tests
use mping.Base.{
  ℕ, zero, suc, ◌+◌, ◌-◌, ◌%◌, ◌≡◌, refl, Bool, true, false, ◌&&◌, Option, none, some, List, [],
  ◌∷◌, ◌++◌, ltb, leb, ◌==◌, if◌then◌else◌, is_some,
}
use mping.Base.Int.{ℤ, pos, ◌+ℤ◌, ◌-ℤ◌, eqb_ℤ}
use mping.Base.Text.{String}
use mping.Base.Dict.{lookup, delete, put, has, without}

-- `IDAllocator`.
pub record IdAllocator : Type 0 where
  pub echo : ℕ
  pub trace : ℕ
  pub traces : List ℕ

abbrev pub id_partition_size : ℕ
id_partition_size = 32768

unfoldable pub echo_id : IdAllocator → Option ℕ × IdAllocator
echo_id a =
    if leb id_partition_size a.echo
    then (none, a)
    else (some a.echo, record a { echo = a.echo + 1 })

-- The loop of `traceID` with `n` rounds left; the result -1 is `none`.
unfoldable pub next_trace : ℕ → IdAllocator → Option ℕ × IdAllocator
next_trace zero a = (none, a)
next_trace (suc n) a =
    let id = id_partition_size + a.trace % id_partition_size in
    let moved = record a { trace = a.trace + 1 } in
    let rest = next_trace n moved in
    if has id a.traces then rest else (some id, record moved { traces = id ∷ a.traces })

unfoldable pub trace_id : IdAllocator → Option ℕ × IdAllocator
trace_id a = next_trace id_partition_size a

unfoldable pub release_trace : ℕ → IdAllocator → IdAllocator
release_trace id a = record a { traces = without id a.traces }

pub data MemberError : Type 0 where
  stopped_pinger already_registered ids_exhausted : MemberError

-- `targetWorker`; `running` is that its goroutine has not returned.
pub record TargetWorker : Type 0 where
  pub id : ℕ
  pub running : Bool

-- The maps of a pinger that its lock guards.
pub record Table : Type 0 where
  pub worker_states : List (ℕ × TargetWorker)
  pub target_chans : List ℕ
  pub resolve_addresses : List (ℕ × String)
  pub active_workers : ℤ

pub record Members : Type 0 where
  pub stopped : Bool
  pub ids : Option IdAllocator
  pub base_id : ℕ
  pub next_worker_id : ℕ
  pub table : Table
  pub worker_events : Bool  -- the channel of that name holds a notification

take_echo : Members → Option ℕ × IdAllocator → Option ℕ × Members
take_echo p (id, a) = (id, record p { ids = some a })

own_id : Members → Option ℕ × Members
own_id p = if leb 65536 p.next_worker_id then (none, p) else (
  some ((p.base_id + p.next_worker_id) % 65536),
  record p { next_worker_id = p.next_worker_id + 1 },
)

-- `allocateWorkerID`.
unfoldable pub allocate_worker_id : Members → Option ℕ × Members
unfolding take_echo own_id
allocate_worker_id p = elim p.ids [ some a ↦ take_echo p (echo_id a) | none ↦ own_id p ]

-- `launchTarget`, with the address that `AddTarget` has written before it.
unfoldable pub launch_target : ℕ → String → ℕ → Table → Table
launch_target t address id m = record {
  worker_states = put t (record { id = id; running = true }) m.worker_states;
  target_chans = id ∷ without id m.target_chans;
  resolve_addresses = put t address m.resolve_addresses;
  active_workers = m.active_workers +ℤ pos 1;
}

unfoldable pub launch_allocated : ℕ → String → Option ℕ × Members → Option MemberError × Members
launch_allocated t address (none, p) = (some ids_exhausted, p)
launch_allocated t address (some id, p) =
    (none, record p { table = launch_target t address id p.table })

abbrev pub is_member : ℕ → Table → Bool
is_member t m = is_some (lookup t m.worker_states)

-- `AddTarget`: the error, if there is one, and the pinger after the call.
unfoldable pub add_target : ℕ → String → Members → Option MemberError × Members
add_target t address p =
    if p.stopped
    then (some stopped_pinger, p)
    else if is_member t p.table
    then (some already_registered, p)
    else launch_allocated t address (allocate_worker_id p)

-- The goroutine of a worker returns.
unfoldable pub return_worker : ℕ → TargetWorker → Table → Table
return_worker t w m =
    if w.running
    then record m {
      worker_states = put t (record w { running = false }) m.worker_states;
      active_workers = m.active_workers -ℤ pos 1;
    }
    else m

unfoldable pub finish_table : ℕ → Table → Table
finish_table t m = elim (lookup t m.worker_states) [ some w ↦ return_worker t w m | none ↦ m ]

-- Whether the worker of a target is running, so that it returns.
abbrev pub is_running : ℕ → Table → Bool
is_running t m = elim (lookup t m.worker_states) [ some w ↦ w.running | none ↦ false ]

-- The last worker to return leaves a notification.
unfoldable pub notify : ℕ → Table → Table → Bool → Bool
notify t before after events =
    if is_running t before && eqb_ℤ after.active_workers (pos 0) then true else events

unfoldable pub finish_worker : ℕ → Members → Members
finish_worker t p =
    let m = finish_table t p.table in
    record p { table = m; worker_events = notify t p.table m p.worker_events }

-- `RemoveTarget`: the channel goes, the worker is cancelled and returns, then its state goes.
unfoldable pub remove_worker : ℕ → TargetWorker → Table → Table
remove_worker t w m =
    let joined = return_worker t w (record m { target_chans = without w.id m.target_chans }) in
    record joined {
      worker_states = delete t joined.worker_states;
      resolve_addresses = delete t joined.resolve_addresses;
    }

unfoldable pub remove_table : ℕ → Table → Table
remove_table t m = elim (lookup t m.worker_states) [ some w ↦ remove_worker t w m | none ↦ m ]

unfoldable pub remove_target : ℕ → Members → Members
remove_target t p =
    let m = remove_table t p.table in
    record p { table = m; worker_events = notify t p.table m p.worker_events }

unfoldable pub remove_targets : List ℕ → Members → Members
remove_targets [] p = p
remove_targets (t ∷ ts) p = remove_targets ts (remove_target t p)

-- What `registerTargets` does with the result of adding one target; `rest` is what it goes on to.
unfoldable pub after_add :
    List ℕ
    → Option MemberError × Members
    → Option MemberError × Members
    → Option MemberError × Members
after_add added (none, p) rest = rest
after_add added (some error, p) rest = (some error, remove_targets added p)

-- `registerTargets`; the first argument lists the targets added so far.
unfoldable pub register_targets :
    List ℕ → List (ℕ × String) → Members → Option MemberError × Members
register_targets added [] p = (none, p)
register_targets added ((t, address) ∷ ts) p =
    let r = add_target t address p in
    after_add added r (register_targets (added ++ (t ∷ [])) ts r.1)
