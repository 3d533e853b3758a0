-- ===== src/Members/Calls.antt =====
-- The calls that change the targets of a pinger in internal/pinger/targets.go, in any order.
use mathlib.Core.Path.{subst}
use mping.Base.{
  ℕ, ◌≡◌, refl, sym, ◌∙◌, inl, inr, false, Option, none, some, List, [], ◌∷◌, Bool-cases,
  Option-cases,
}
use mping.Base.Int.{pos}
use mping.Base.Text.{String}
use mping.Base.Dict.{lookup, has, lookup-delete-some}
use mping.Members.{
  IdAllocator, stopped_pinger, already_registered, TargetWorker, Table, Members, launch_target,
  launch_allocated, add_target, allocate_worker_id, finish_table, finish_worker, return_worker,
  remove_table, remove_target,
}
use mping.Members.Ids.{IssuedBy, Allocated, allocate_worker_id-Allocated}
use mping.Members.Launch.{launch_target-Sound, launch-some}
use mping.Members.Sound.{
  Sound, relabel-some, remove_worker-eq, remove_table-Sound, finish_table-Sound,
}

abbrev pub SoundMembers : Members → Type 0
SoundMembers p = Sound (IssuedBy p) p.table

-- An identifier handed out before still belongs to the same target, if to any.
abbrev pub Keeps : Members → Members → Type 0
Keeps p q =
    ((i : ℕ) → IssuedBy p i → IssuedBy q i)
    × ((t : ℕ) (w : TargetWorker)
        → lookup t q.table.worker_states ≡ some w
        → IssuedBy p w.id
        → (v : TargetWorker) × ((lookup t p.table.worker_states ≡ some v) × (v.id ≡ w.id)))

abbrev pub Good : Members → Members → Type 0
Good p q = SoundMembers q × Keeps p q

Good-refl : (p : Members) → SoundMembers p → Good p p
Good-refl p s = (s, (λ i h. h, λ t w h i. (w, (h, refl))))

Good-trans : (p q r : Members) → Keeps p q → Good q r → Good p r
Good-trans p q r (m, k) (s, (m', k')) = (
  s,
  (
    λ i h. m' i (m i h),
    λ t w h i.
        let (v, (at, e)) = k' t w h (m w.id i) in
        let (x, (at', e')) = k t v at (subst (IssuedBy p) (sym e) i) in (x, (at', e' ∙ e)),
  ),
)

Sound-mono : (I J : ℕ → Type 0) (m : Table) → ((i : ℕ) → I i → J i) → Sound I m → Sound J m
Sound-mono I J m f s = record {
  issued = λ t w h. f w.id (s.issued t w h);
  connected = s.connected;
  owned = s.owned;
  apart = s.apart;
  addressed = s.addressed;
}

-- The workers of the table `m` had their identifiers in `p` already, if these are old ones.
abbrev KeepsTable : Members → Table → Type 0
KeepsTable p m =
    (t : ℕ) (w : TargetWorker)
    → lookup t m.worker_states ≡ some w
    → IssuedBy p w.id
    → (v : TargetWorker) × ((lookup t p.table.worker_states ≡ some v) × (v.id ≡ w.id))

pub launch-Good :
    (t : ℕ) (address : String) (p : Members) (r : Option ℕ × Members)
    → SoundMembers p
    → lookup t p.table.worker_states ≡ none
    → Allocated p r
    → Good p (launch_allocated t address r).1
unfolding launch_allocated launch_target
launch-Good t address p (none, q) s absent (same, mono) = (
  Sound-mono (IssuedBy p) (IssuedBy q) q.table mono (subst (Sound (IssuedBy p)) (sym same) s),
  (mono, subst (KeepsTable p) (sym same) (λ u w h i. (w, (h, refl)))),
)
launch-Good t address p (some id, q) s absent ((same, mono), (now, new)) =
    let kept : KeepsTable p (launch_target t address id p.table) = λ u w h i.
      elim (launch-some (IssuedBy p) (IssuedBy q) t id address p.table s absent new mono now u w
        h) [
          | inl (e, own) ↦ absurd (new (subst (IssuedBy p) (sym own) i))
          | inr at ↦ (w, (at, refl))
        ] in
    (
      subst (λ m. Sound (IssuedBy q) (launch_target t address id m)) (sym same)
          (launch_target-Sound (IssuedBy p) (IssuedBy q) t id address p.table s absent new mono
            now),
      (mono, subst (λ m. KeepsTable p (launch_target t address id m)) (sym same) kept),
    )

pub add_target-Good :
    (t : ℕ) (address : String) (p : Members) → SoundMembers p → Good p (add_target t address p).1
unfolding add_target
add_target-Good t address p s = elim (Bool-cases p.stopped) [
  | inl e ↦
      let same : add_target t address p ≡ (some stopped_pinger, p) = simp (add_target, e) refl in
      subst (λ r. Good p r.1) (sym same) (Good-refl p s)
  | inr e ↦ elim (Option-cases (lookup t p.table.worker_states)) [
    | inl absent ↦
        let same : add_target t address p ≡ launch_allocated t address (allocate_worker_id p) =
          simp (add_target, e, absent) refl in
        subst (λ r. Good p r.1) (sym same)
          (launch-Good t address p (allocate_worker_id p) s absent (allocate_worker_id-Allocated p))
    | inr (w, at) ↦
        let same : add_target t address p ≡ (some already_registered, p) =
          simp (add_target, e, at) refl in
        subst (λ r. Good p r.1) (sym same) (Good-refl p s)
  ]
]

finish-KeepsTable : (t : ℕ) (p : Members) → SoundMembers p → KeepsTable p (finish_table t p.table)
unfolding finish_table return_worker
finish-KeepsTable t p s = elim (Option-cases (lookup t p.table.worker_states)) [
  | inl e ↦ rw (finish_table, e) (λ u w h i. (w, (h, refl)))
  | inr (w, e) ↦ elim (Bool-cases w.running) [
    | inl r ↦
        rw (finish_table, e, return_worker, r)
          (λ u v h i.
            relabel-some (IssuedBy p) t w (record w { running = false }) p.table s e refl u v h)
    | inr r ↦ rw (finish_table, e, return_worker, r) (λ u v h i. (v, (h, refl)))
  ]
]

finish_worker-Good : (t : ℕ) (p : Members) → SoundMembers p → Good p (finish_worker t p)
unfolding finish_worker
finish_worker-Good t p s =
    (finish_table-Sound (IssuedBy p) t p.table s, (λ i h. h, finish-KeepsTable t p s))

remove-KeepsTable : (t : ℕ) (p : Members) → KeepsTable p (remove_table t p.table)
unfolding remove_table
remove-KeepsTable t p = elim (Option-cases (lookup t p.table.worker_states)) [
  | inl e ↦ rw (remove_table, e) (λ u w h i. (w, (h, refl)))
  | inr (w, e) ↦
      rw (remove_table, e)
        (subst (KeepsTable p) (sym (remove_worker-eq t w p.table))
          (λ u v h i. (v, ((lookup-delete-some t u v p.table.worker_states h).1, refl))))
]

pub remove_target-Good : (t : ℕ) (p : Members) → SoundMembers p → Good p (remove_target t p)
unfolding remove_target
remove_target-Good t p s =
    (remove_table-Sound (IssuedBy p) t p.table s, (λ i h. h, remove-KeepsTable t p))

-- The calls and events that change the maps; a call of `AddTarget` may fail.
pub data Call : Type 0 where
  add : ℕ → String → Call
  remove finish : ℕ → Call

unfoldable pub call : Call → Members → Members
call (add t address) p = (add_target t address p).1
call (remove t) p = remove_target t p
call (finish t) p = finish_worker t p

unfoldable pub calls : List Call → Members → Members
calls [] p = p
calls (c ∷ cs) p = calls cs (call c p)

call-Good : (c : Call) (p : Members) → SoundMembers p → Good p (call c p)
unfolding call
call-Good (add t address) p s = add_target-Good t address p s
call-Good (remove t) p s = remove_target-Good t p s
call-Good (finish t) p s = finish_worker-Good t p s

calls-Good : (cs : List Call) (p : Members) → SoundMembers p → Good p (calls cs p)
unfolding calls
calls-Good [] p s = Good-refl p s
calls-Good (c ∷ cs) p s =
    let (s', k) = call-Good c p s in
    Good-trans p (call c p) (calls cs (call c p)) k (calls-Good cs (call c p) s')

-- `NewPinger` makes the maps empty.
unfoldable pub new_members : Option IdAllocator → ℕ → Members
new_members ids base = record {
  stopped = false;
  ids = ids;
  base_id = base;
  next_worker_id = 0;
  table = record {
    worker_states = [];
    target_chans = [];
    resolve_addresses = [];
    active_workers = pos 0;
  };
  worker_events = false;
}

pub new_members-Sound : (ids : Option IdAllocator) (base : ℕ) → SoundMembers (new_members ids base)
unfolding new_members lookup has
new_members-Sound ids base = record {
  issued = λ t w h. cc;
  connected = λ t w h. cc;
  owned = λ i h. cc;
  apart = λ t u w v h k e. cc;
  addressed = λ t h. refl;
}

-- After any calls on a new pinger, and workers that return between them, every worker has an
-- identifier that was handed out and that no other worker has, and a reply channel under it; every
-- channel is a worker's, and every address a target's with a worker.
pub calls-SoundMembers :
    (ids : Option IdAllocator) (base : ℕ) (cs : List Call)
    → SoundMembers (calls cs (new_members ids base))
calls-SoundMembers ids base cs =
    (calls-Good cs (new_members ids base) (new_members-Sound ids base)).0

-- Between two moments in the life of a pinger an identifier is not handed to another target: what
-- was handed out at the first moment stays handed out, and a worker that has it at the second
-- moment is of the target that had it at the first.
pub calls-Keeps :
    (ids : Option IdAllocator) (base : ℕ) (cs ds : List Call)
    → Keeps (calls cs (new_members ids base)) (calls ds (calls cs (new_members ids base)))
calls-Keeps ids base cs ds =
    (calls-Good ds (calls cs (new_members ids base)) (calls-SoundMembers ids base cs)).1
