-- ===== src/Members/Tests.antt =====
-- The targets of a pinger in internal/pinger/targets.go, at examples.
use mping.Base.{◌≡◌, ◌↔◌, refl, none, some, List, [], ◌∷◌}
use mping.Base.Dict.{lookup, delete, put, has}
use mping.Members.{
  IdAllocator, echo_id, next_trace, trace_id, ids_exhausted, allocate_worker_id, launch_target,
  launch_allocated, add_target, after_add, register_targets,
}
use mping.Members.Ids.{Took, AllTaken, trace_id_lem}
use mping.Members.Calls.{
  SoundMembers, Keeps, Call, call, calls, new_members, calls-SoundMembers, calls-Keeps,
}
use mping.Members.Register.{register_targets-error}

abbrev allocator : IdAllocator
allocator = record { echo = 32766; trace = 5; traces = 32773 ∷ [] }

trace_id_lem_example :
    Took allocator (trace_id allocator) × (((trace_id allocator).0 ≡ none) ↔ AllTaken allocator)
trace_id_lem_example = trace_id_lem allocator

-- Identifier 32773 is in use.
next_free : (trace_id allocator).0 ≡ some 32774
unfolding trace_id next_trace has
next_free = refl

abbrev some_calls : List Call
some_calls = Call.add 1 "a" ∷ Call.add 2 "b" ∷ Call.finish 1 ∷ Call.remove 1 ∷ []

abbrev more_calls : List Call
more_calls = Call.add 1 "c" ∷ Call.remove 2 ∷ []

calls-SoundMembers_example : SoundMembers (calls some_calls (new_members (some allocator) 7))
calls-SoundMembers_example = calls-SoundMembers (some allocator) 7 some_calls

calls-Keeps_example :
    Keeps
      (calls some_calls (new_members none 7))
      (calls more_calls (calls some_calls (new_members none 7)))
calls-Keeps_example = calls-Keeps none 7 some_calls more_calls

-- Two identifiers are left for three targets, and the second of them is removed again.
register_targets-error_example :
    (register_targets []
      ((3, "x") ∷ (4, "y") ∷ [])
      (calls (Call.add 1 "a" ∷ []) (new_members (some allocator) 7))).1.table
    ≡ (calls (Call.add 1 "a" ∷ []) (new_members (some allocator) 7)).table
register_targets-error_example =
    register_targets-error (some allocator) 7 (Call.add 1 "a" ∷ []) ((3, "x") ∷ (4, "y") ∷ [])
      ids_exhausted
      (unfold register_targets after_add add_target allocate_worker_id echo_id launch_allocated
          launch_target lookup put delete calls call new_members in
        refl)
