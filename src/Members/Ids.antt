-- ===== src/Members/Ids.antt =====
-- The identifiers that `IDAllocator` and `allocateWorkerID` of internal/pinger/targets.go hand out.
use mathlib.Core.Path.{subst}
use mping.Base.{
  ℕ, zero, suc, ◌+◌, ◌-◌, ◌%◌, ◌≤◌, ◌<◌, ◌≡◌, refl, inl, inr, ◌↔◌, true, false, Option, none, some,
  ◌∷◌, arith, leb, Bool-cases, Option-cases,
}
use mping.Base.Dict.{has}
use mping.Members.{
  IdAllocator, id_partition_size, echo_id, next_trace, trace_id, Members, allocate_worker_id,
  take_echo, own_id,
}

-- What a call of `traceID` did: it took an identifier of the upper half that was free.
abbrev pub Took : IdAllocator → Option ℕ × IdAllocator → Type 0
Took a (none, b) = (b.traces ≡ a.traces) × (b.echo ≡ a.echo)
Took a (some id, b) =
    ((32768 ≤ id) × (id < 65536))
    × ((has id a.traces ≡ false) × ((b.traces ≡ id ∷ a.traces) × (b.echo ≡ a.echo)))

next_trace-Took : (n : ℕ) (a : IdAllocator) → Took a (next_trace n a)
unfolding next_trace
next_trace-Took zero a = (refl, refl)
next_trace-Took (suc n) a =
    let id = id_partition_size + a.trace % id_partition_size in
    elim (Bool-cases (has id a.traces)) [
      | inl e ↦ rw e (next_trace-Took n (record a { trace = a.trace + 1 }))
      | inr e ↦ rw e (((omega arith, omega arith), (e, (refl, refl))))
    ]

next_trace-none :
    (n : ℕ) (a : IdAllocator) (i : ℕ)
    → (next_trace n a).0 ≡ none
    → i < n
    → has (32768 + (a.trace + i) % 32768) a.traces ≡ true
unfolding next_trace
next_trace-none zero a i e h = elim h [ ]
next_trace-none (suc n) a zero e h = elim (Bool-cases (has (32768 + a.trace % 32768) a.traces)) [
  | inl f ↦ let same : a.trace + 0 ≡ a.trace = omega arith in rw same f
  | inr f ↦ let no : some (32768 + a.trace % 32768) ≡ none = rw f at e in cc
]
next_trace-none (suc n) a (suc i) e h = elim (Bool-cases (has (32768 + a.trace % 32768) a.traces)) [
  | inl f ↦
      let rest : (next_trace n (record a { trace = a.trace + 1 })).0 ≡ none = rw f at e in
      let later = next_trace-none n (record a { trace = a.trace + 1 }) i rest (omega arith) in
      let same : a.trace + suc i ≡ a.trace + 1 + i = omega arith in rw same later
  | inr f ↦ let no : some (32768 + a.trace % 32768) ≡ none = rw f at e in cc
]

-- Every identifier for a route probe is in use.
abbrev pub AllTaken : IdAllocator → Type 0
AllTaken a = (id : ℕ) → 32768 ≤ id → id < 65536 → has id a.traces ≡ true

trace_id-none : (a : IdAllocator) → (trace_id a).0 ≡ none → AllTaken a
unfolding trace_id
trace_id-none a e id lo hi =
    let i = (id + 32768 - a.trace % 32768) % 32768 in
    let at_i : 32768 + (a.trace + i) % 32768 ≡ id = omega arith in
    subst (λ n. has n a.traces ≡ true) at_i (next_trace-none id_partition_size a i e (omega arith))

none-AllTaken : (n : ℕ) (a : IdAllocator) → AllTaken a → (next_trace n a).0 ≡ none
unfolding next_trace
none-AllTaken zero a all = refl
none-AllTaken (suc n) a all =
    let used = all (32768 + a.trace % 32768) (omega arith) (omega arith) in
    rw used (none-AllTaken n (record a { trace = a.trace + 1 }) all)

-- A call of `traceID` takes an identifier from 32768 to 65535 that was not in use and marks it as in
-- use, or takes none and leaves those in use as they were; it takes none exactly when all are in
-- use. It never touches the echo identifiers.
pub trace_id_lem : (a : IdAllocator) → Took a (trace_id a) × (((trace_id a).0 ≡ none) ↔ AllTaken a)
unfolding trace_id
trace_id_lem a =
    (next_trace-Took id_partition_size a, (trace_id-none a, none-AllTaken id_partition_size a))

-- The identifier has been handed out.
abbrev pub Issued : Option IdAllocator → ℕ → ℕ → ℕ → Type 0
Issued (some a) base n i = i < a.echo
Issued none base n i = (k : ℕ) × ((k < n) × (i ≡ (base + k) % 65536))

abbrev pub IssuedBy : Members → ℕ → Type 0
IssuedBy p i = Issued p.ids p.base_id p.next_worker_id i

-- What an allocation did: the maps are as before, and a number handed out is new.
abbrev pub Allocated : Members → Option ℕ × Members → Type 0
Allocated p (none, q) = (q.table ≡ p.table) × ((i : ℕ) → IssuedBy p i → IssuedBy q i)
Allocated p (some id, q) =
    ((q.table ≡ p.table) × ((i : ℕ) → IssuedBy p i → IssuedBy q i))
    × (IssuedBy q id × (IssuedBy p id → ⊥))

pub allocate_worker_id-Allocated : (p : Members) → Allocated p (allocate_worker_id p)
unfolding allocate_worker_id echo_id take_echo own_id
allocate_worker_id-Allocated p = elim (Option-cases p.ids) [
  | inl e ↦ elim (Bool-cases (leb 65536 p.next_worker_id)) [
    | inl f ↦ rw (e, f) (refl, λ i h. h)
    | inr f ↦
        let room : p.next_worker_id < 65536 = ground arith in
        rw (e, f)
          (
            (refl, λ i (k, (h, q)). (k, (omega arith, q))),
            ((p.next_worker_id, (omega arith, refl)), λ (k, (h, q)). omega arith),
          )
  ]
  | inr (a, e) ↦ elim (Bool-cases (leb id_partition_size a.echo)) [
    | inl f ↦ rw (e, f) (refl, λ i h. h)
    | inr f ↦ rw (e, f) ((refl, λ i h. omega arith), (omega arith, λ h. omega arith))
  ]
]
