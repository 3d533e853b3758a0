-- ===== src/Target/Log.antt =====
-- internal/stats/events.go: the bounded event log of a target, with repeated failures folded.
use mping.Base.{
  ℕ, ◌+◌, ◌-◌, Bool, true, false, ◌&&◌, Option, none, some, List, [], ◌∷◌, ◌++◌, length, drop, ltb,
  if◌then◌else◌,
}
use mathlib.Core.List.{reverse}
use mathlib.Core.Option
use mping.Base.Text.{String, str_eq}
use mping.Target.State.{Target, Event, Kind}

abbrev pub max_target_events : ℕ
max_target_events = 128

abbrev pub is_health : Kind → Bool
is_health Kind.health = true
is_health _ = false

abbrev pub is_ping : Kind → Bool
is_ping Kind.ping = true
is_ping _ = false

abbrev pub bump_event : ℕ → Event → Event
bump_event now e = record e { count = e.count + 1; last_at = now }

-- The search for a failure to fold into, newest event first: health events are passed over, and the
-- first other event decides. The result has the folded event and the new log.
unfoldable pub fold_newest : String → ℕ → List Event → Option (Event × List Event)
fold_newest message now [] = none
fold_newest message now (e ∷ es) =
    let deeper =
      Option.map (λ (r : Event × List Event). (r.0, e ∷ r.1)) (fold_newest message now es) in
    if is_health e.kind
    then deeper
    else if is_ping e.kind && str_eq e.message message
    then some (bump_event now e, bump_event now e ∷ es)
    else none

abbrev pub give : {F : Type 0} → Event → Target F → Target F
give e t = if t.sink then record t { sunk = e ∷ t.sunk } else t

-- The append at the end of `recordEventLocked`.
unfoldable pub append_event : {F : Type 0} → Event → Target F → Target F
append_event e t =
    let es = t.events ++ (e ∷ []) in
    let over = ltb max_target_events (length es) in
    give e (record t {
      events = if over then drop (length es - max_target_events) es else es;
      events_dropped = if over then t.events_dropped + 1 else t.events_dropped;
    })

-- The folded event, if there is one, and otherwise the new one.
unfoldable pub keep_event : {F : Type 0} → Option (Event × List Event) → Event → Target F → Target F
keep_event (some (f, newest_first)) e t = give f (record t { events = reverse newest_first })
keep_event none e t = append_event e t

-- `recordEventLocked`. (The loop is not entered for an empty log, where it would find nothing.)
unfoldable pub record_event : {F : Type 0} → Kind → String → ℕ → Target F → Target F
record_event kind message now t =
    let e : Event = record {
      count = 1;
      last_at = now;
      at = now;
      target_id = t.id;
      kind = kind;
      message = message;
    } in
    let folds = t.health.configured && is_ping kind in
    let found = if folds then fold_newest message now (reverse t.events) else none in
    keep_event found e t

-- The exported `RecordEvent`.
unfoldable pub record_event_now : {F : Type 0} → Kind → String → ℕ → Target F → Target F
record_event_now kind message now t =
    let t' = record_event kind message now t in record t' { mutations = t'.mutations + 1 }

unfoldable pub set_event_sink : {F : Type 0} → Target F → Target F
set_event_sink t = record t { sink = true }
