-- ===== src/Target/Retained.antt =====
-- What the event log of internal/stats/events.go keeps.
use mathlib.Core.List.{reverse, reverse_aux}
use mathlib.Core.Option
use mping.Base.{
  ℕ, suc, ◌+◌, ◌-◌, ◌≤◌, ◌<◌, ◌≡◌, refl, sym, ap, ◌∙◌, inl, inr, Bool, true, false, ◌&&◌, Option,
  none, some, List, [], ◌∷◌, ◌++◌, arith, length, length-append, length-drop, drop, ltb,
  if◌then◌else◌, Bool-cases,
}
use mping.Base.Text.{String, str_eq}
use mping.Target.State.{Target, Event, Kind}
use mping.Target.Log.{
  max_target_events, is_health, is_ping, fold_newest, give, append_event, keep_event, record_event,
}

length-reverse_aux : (xs ys : List Event) → length (reverse_aux xs ys) ≡ length xs + length ys
length-reverse_aux [] ys = omega arith
length-reverse_aux (x ∷ xs) ys = omega (arith, length-reverse_aux xs (x ∷ ys))

length-reverse : (xs : List Event) → length (reverse xs) ≡ length xs
length-reverse xs = omega (arith, length-reverse_aux xs [])

abbrev folded : Option (Event × List Event) → ℕ → ℕ
folded none n = n
folded (some r) n = length r.1

folded-map :
    (x : Event) (o : Option (Event × List Event)) (n : ℕ)
    → folded (Option.map (λ (r : Event × List Event). (r.0, x ∷ r.1)) o) (suc n) ≡ suc (folded o n)
folded-map x none n = refl
folded-map x (some r) n = refl

-- A fold replaces one event of the log.
folded-fold_newest :
    (message : String) (now : ℕ) (es : List Event)
    → folded (fold_newest message now es) (length es) ≡ length es
unfolding fold_newest
folded-fold_newest message now [] = refl
folded-fold_newest message now (x ∷ xs) = elim (Bool-cases (is_health x.kind)) [
  | inl h ↦ rw h (
      folded-map x (fold_newest message now xs) (length xs)
      ∙ ap suc (folded-fold_newest message now xs))
  | inr h ↦ elim (Bool-cases (is_ping x.kind && str_eq x.message message)) [
    | inl q ↦ rw (h, q) refl
    | inr q ↦ rw (h, q) refl
  ]
]

-- A log of at most 128 events. Kept and dropped, `n` events more than in `t` were logged, at most.
record Logged (n : ℕ) {F : Type 0} (t t' : Target F) : Type 0 where
  room : length t'.events ≤ max_target_events
  more : length t.events + t.events_dropped ≤ length t'.events + t'.events_dropped
  few : length t'.events + t'.events_dropped ≤ length t.events + t.events_dropped + n

module _ {F : Type 0} where
  give-Logged : (n : ℕ) (e : Event) (t t' : Target F) → Logged n t t' → Logged n t (give e t')
  give-Logged n e t t' l = elim (Bool-cases t'.sink) [
    | inl h ↦ rw h (record { room = l.room; more = l.more; few = l.few })
    | inr h ↦ rw h (record { room = l.room; more = l.more; few = l.few })
  ]

  append_event-Logged :
      (e : Event) (t : Target F)
      → length t.events ≤ max_target_events
      → Logged 1 t (append_event e t)
  append_event-Logged e t room =
      let es = t.events ++ (e ∷ []) in
      let n : length es ≡ length t.events + 1 = length-append t.events (e ∷ []) in
      let cut = length-drop (length es - max_target_events) es in
      let over = ltb max_target_events (length es) in
      let t' = record t {
        events = if over then drop (length es - max_target_events) es else es;
        events_dropped = if over then t.events_dropped + 1 else t.events_dropped;
      } in
      unfold append_event in
      give-Logged 1 e t t' (elim (Bool-cases (ltb max_target_events (length es))) [
        | inl h ↦
            let many : max_target_events < length es = ground arith in
            rw h (record {
              room = omega (arith, cut, n);
              more = omega (arith, cut, n);
              few = omega (arith, cut, n);
            })
        | inr h ↦
            let fits : length es ≤ max_target_events = ground arith in
            rw h (record { room = fits; more = omega (arith, n); few = omega (arith, n) })
      ])

  keep_event-Logged :
      (o : Option (Event × List Event)) (e : Event) (t : Target F)
      → length t.events ≤ max_target_events
      → folded o (length t.events) ≡ length t.events
      → Logged 1 t (keep_event o e t)
  unfolding keep_event
  keep_event-Logged none e t room same = append_event-Logged e t room
  keep_event-Logged (some (f, newest_first)) e t room same =
      let n = length-reverse newest_first in
      give-Logged 1 f t (record t { events = reverse newest_first })
        (record { room = omega (arith, n); more = omega (arith, n); few = omega (arith, n) })

  record_event-Logged :
      (kind : Kind) (message : String) (now : ℕ) (t : Target F)
      → length t.events ≤ max_target_events
      → Logged 1 t (record_event kind message now t)
  record_event-Logged kind message now t room =
      unfold record_event in
      keep_event-Logged _ _ t room (kept (t.health.configured && is_ping kind))
    where
      kept :
          (b : Bool)
          → folded
              (if b then fold_newest message now (reverse t.events) else none)
              (length t.events)
            ≡ length t.events
      kept true =
          ap (folded (fold_newest message now (reverse t.events))) (sym (length-reverse t.events))
          ∙ folded-fold_newest message now (reverse t.events)
          ∙ length-reverse t.events
      kept false = refl

  -- Recording a sequence of events, each a kind, a message and a time.
  unfoldable pub record_events : List (Kind × String × ℕ) → Target F → Target F
  record_events [] t = t
  record_events ((kind, message, now) ∷ es) t = record_events es (record_event kind message now t)

  -- However many events are recorded, a log of at most 128 events stays one. The kept and the dropped
  -- events together never get fewer, and grow by at most the number recorded.
  pub record_events-room :
      (es : List (Kind × String × ℕ)) (t : Target F)
      → length t.events ≤ max_target_events
      → let t' = record_events es t in
        (length t'.events ≤ max_target_events)
        × (length t.events + t.events_dropped ≤ length t'.events + t'.events_dropped)
        × (length t'.events + t'.events_dropped ≤ length t.events + t.events_dropped + length es)
  unfolding record_events
  record_events-room [] t room = (room, omega arith, omega arith)
  record_events-room ((kind, message, now) ∷ es) t room =
      let l = record_event-Logged kind message now t room in
      let rest = record_events-room es (record_event kind message now t) l.room in
      (rest.0, omega (arith, rest.1, l.more), omega (arith, rest.2, l.few))
