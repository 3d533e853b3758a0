-- ===== src/Target/Outcomes.antt =====
-- A window of outcomes of internal/stats: what the counters, the history and the health hold after it.
use mping.Base.{
  ℕ, suc, ◌+◌, ◌≡◌, refl, ap, sym, inl, inr, Bool, true, false, not, ◌&&◌, List, [], ◌∷◌, ◌++◌, map,
  arith, length, length-append, take_last, if◌then◌else◌, Bool-cases,
}
use mathlib.Core.List.{append_assoc, append-nil, map-append}
use mping.Base.Int.{ℤ, pos, leb_ℤ}
use mping.Base.Float.{Floats}
use mping.Base.Text.{String}
use mping.Rtt.{RttAccumulator, record_rtt, history_snapshot}
use mping.Rtt.Window.{Holds, fresh-Holds, append_history-Holds, snapshot-Holds}
use mping.Checks.{history_size}
use mping.Target.State.{Target, TargetHealth}
use mping.Target.Health.{judge, count_health}
use mping.Target.Update.{
  on_success, on_failure, append_history_at, count_success, reset, fresh_health,
}
use mping.Target.Tally.{OnlyLog, on_success_locked-OnlyLog, on_failure_locked-OnlyLog, Tally, tally}
use mping.Target.Window.{reset_fields}

-- A completed probe: a reply with its time and TTL, or a loss with its reason; and when.
pub data Outcome : Type 0 where
  reply : ℤ → ℤ → ℕ → Outcome
  lost : String → ℕ → Outcome

-- What the history keeps of an outcome: 0 marks a loss.
abbrev pub sample : Outcome → ℤ
sample (reply rtt ttl now) = rtt
sample (lost reason now) = pos 0

abbrev pub is_lost : Outcome → Bool
is_lost (reply rtt ttl now) = false
is_lost (lost reason now) = true

abbrev pub is_reply : Outcome → Bool
is_reply o = not (is_lost o)

abbrev pub all {ℓ} : {A : Type ℓ} → (A → Bool) → List A → Bool
all p [] = true
all p (x ∷ xs) = p x && all p xs

abbrev pub count_if {ℓ} : {A : Type ℓ} → (A → Bool) → List A → ℕ
count_if p [] = 0
count_if p (x ∷ xs) = if p x then suc (count_if p xs) else count_if p xs

-- The length of the longest tail of which every element passes.
abbrev pub trailing {ℓ} : {A : Type ℓ} → (A → Bool) → List A → ℕ
trailing p [] = 0
trailing p (x ∷ xs) = if all p (x ∷ xs) then length (x ∷ xs) else trailing p xs

module _ {ℓ} {A : Type ℓ} (p : A → Bool) where
  all-append : (xs : List A) (y : A) → all p (xs ++ (y ∷ [])) ≡ (all p xs && p y)
  all-append [] y = ground arith
  all-append (x ∷ xs) y = ground (arith, all-append xs y)

  count_if-append :
      (xs : List A) (y : A) → count_if p (xs ++ (y ∷ [])) ≡ count_if p xs + (if p y then 1 else 0)
  count_if-append [] y = ground arith
  count_if-append (x ∷ xs) y = ground (arith, count_if-append xs y)

  trailing-all : (xs : List A) → all p xs ≡ true → trailing p xs ≡ length xs
  trailing-all [] h = refl
  trailing-all (x ∷ xs) h = rw h

  pub trailing-append :
      (xs : List A) (y : A) → trailing p (xs ++ (y ∷ [])) ≡ (if p y then suc (trailing p xs) else 0)
  trailing-append [] y = ground arith
  trailing-append (x ∷ xs) y =
      ground
        (arith, all-append xs y, trailing-append xs y, trailing-all xs, length-append xs (y ∷ []))

module _ {F : Type 0} (fl : Floats F) where
  unfoldable pub outcome : Outcome → Target F → Target F
  outcome (reply rtt ttl now) t = on_success fl rtt ttl now t
  outcome (lost reason now) t = on_failure fl reason now t

  unfoldable pub outcomes : List Outcome → Target F → Target F
  outcomes [] t = t
  outcomes (o ∷ os) t = outcomes os (outcome o t)

  record_rtt-Holds :
      (room : ℕ) (xs : List ℤ) (x : ℤ) (a : RttAccumulator F)
      → Holds room xs a
      → Holds room xs (record_rtt fl x a)
  unfolding record_rtt
  record_rtt-Holds room xs x a h = elim (Bool-cases (leb_ℤ x (pos 0))) [
    | inl e ↦ rw e h
    | inr e ↦ rw e (record { ring = h.ring; unused = h.unused })
  ]

  -- A target that has completed the probes `os` in this window.
  pub record Completed (os : List Outcome) (h : TargetHealth F) (t : Target F) : Type 0 where
    pub replies : t.recv ≡ count_if is_reply os
    pub losses : t.loss ≡ count_if is_lost os
    pub history : Holds history_size (map sample os) t.rtt
    pub failing : t.health.failures ≡ trailing is_lost os
    pub succeeding : t.health.successes ≡ trailing is_reply os
    pub policy : t.health.policy ≡ h.policy

  outcome-Completed :
      (o : Outcome) (os : List Outcome) (h : TargetHealth F) (t : Target F)
      → Completed os h t
      → Completed (os ++ (o ∷ [])) h (outcome o t)
  unfolding outcome on_success on_failure OnlyLog append_history_at count_success judge count_health
  outcome-Completed (reply rtt ttl now) os h t c =
      let o = reply rtt ttl now in
      let (es, n, out, e) = on_success_locked-OnlyLog fl rtt ttl now t in
      rw e (record {
        replies = omega (arith, c.replies, count_if-append is_reply os o);
        losses = omega (arith, c.losses, count_if-append is_lost os o);
        history = rw (map-append sample os (o ∷ [])) (
            append_history-Holds history_size (map sample os) (record_rtt fl rtt t.rtt) rtt
              (omega arith) (record_rtt-Holds history_size (map sample os) rtt t.rtt c.history));
        failing = sym (trailing-append is_lost os o);
        succeeding = omega (arith, c.succeeding, trailing-append is_reply os o);
        policy = c.policy;
      })
  outcome-Completed (lost reason now) os h t c =
      let o = lost reason now in
      let (es, n, out, e) = on_failure_locked-OnlyLog fl reason now t in
      rw e (record {
        replies = omega (arith, c.replies, count_if-append is_reply os o);
        losses = omega (arith, c.losses, count_if-append is_lost os o);
        history = rw (map-append sample os (o ∷ [])) (
            append_history-Holds history_size (map sample os) t.rtt (pos 0) (omega arith)
              c.history);
        failing = omega (arith, c.failing, trailing-append is_lost os o);
        succeeding = sym (trailing-append is_reply os o);
        policy = c.policy;
      })

  pub outcomes-Completed_from :
      (os ps : List Outcome) (h : TargetHealth F) (t : Target F)
      → Completed os h t
      → Completed (os ++ ps) h (outcomes ps t)
  unfolding outcomes
  outcomes-Completed_from os [] h t c = rw append-nil c
  outcomes-Completed_from os (p ∷ ps) h t c =
      rw (← append_assoc os (p ∷ []) ps)
        (outcomes-Completed_from (os ++ (p ∷ [])) ps h (outcome p t) (outcome-Completed p os h t c))

  pub reset-Completed : (now : ℕ) (t : Target F) → Completed [] t.health (reset fl now t)
  unfolding fresh_health tally
  reset-Completed now t =
      let r = reset_fields fl now t in
      record {
        replies = ap (λ (k : Tally). k.recv) r.0;
        losses = ap (λ (k : Tally). k.loss) r.0;
        history = rw r.1 (fresh-Holds fl history_size);
        failing = ap (λ (k : TargetHealth F). k.failures) r.2;
        succeeding = ap (λ (k : TargetHealth F). k.successes) r.2;
        policy = ap (λ (k : TargetHealth F). k.policy) r.2;
      }

  -- After any outcomes in a new window: the replies and the losses are counted, and the shown history
  -- is the trailing 3000 outcomes, oldest first, with 0 for a loss.
  pub outcomes-history :
      (os : List Outcome) (now : ℕ) (t : Target F)
      → let t' = outcomes os (reset fl now t) in
        (t'.recv ≡ count_if is_reply os)
        × (t'.loss ≡ count_if is_lost os)
        × (history_snapshot t'.rtt ≡ take_last history_size (map sample os))
  outcomes-history os now t =
      let c = outcomes-Completed_from [] os t.health (reset fl now t) (reset-Completed now t) in
      (
        c.replies,
        c.losses,
        snapshot-Holds history_size (map sample os) (outcomes os (reset fl now t)).rtt (omega arith)
            c.history,
      )
