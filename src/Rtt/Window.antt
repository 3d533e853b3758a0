-- ===== src/Rtt/Window.antt =====
-- What `historySnapshot` and `historySnapshotWindow` of internal/stats/rtt_accumulator.go return.
use mping.Base.{
  ℕ, zero, suc, ◌+◌, ◌-◌, ◌%◌, ◌≤◌, ◌<◌, min, ◌≡◌, refl, ap, sym, ◌∙◌, Option, none, some, List, [],
  ◌∷◌, ◌++◌, arith, length, take, drop, take_last, get_elem?_ext, get_elem?-drop, get_elem?,
  length-drop, length-replicate,
}
use native.Mathlib.Nat.{mod-eq_of_lt, mod-eq-sub-mod, add-mod_right, mod-lt}
use native.Mathlib.Decide.{dec_lt}
use mathlib.Core.List.{append_assoc, append-nil}
use mping.Base.Int.{ℤ, pos}
use mping.Base.Float.{Floats}
use mping.Rtt.{
  RttAccumulator, fresh, buffer, append_history, reconstruct_history, reconstruct_window,
  window_start, history_snapshot, history_snapshot_window,
}
use mping.Rtt.Ring.{IsRing, set-IsRing, read_straight, read_round}

-- The accumulator's buffer is the ring of the times `xs`.
pub record Holds {F : Type 0} (room : ℕ) (xs : List ℤ) (a : RttAccumulator F) : Type 0 where
  pub ring : IsRing room xs (buffer a.history room) a.history_idx a.history_len
  pub unused : a.history ≡ none → xs ≡ []

-- The code appends one time after another.
abbrev pub append_times : {F : Type 0} → ℕ → List ℤ → RttAccumulator F → RttAccumulator F
append_times room [] a = a
append_times room (x ∷ xs) a = append_times room xs (append_history x room a)

pub fresh-Holds : {F : Type 0} (fl : Floats F) (room : ℕ) → Holds room [] (fresh fl)
unfolding fresh
fresh-Holds fl room = record {
  ring = record {
    size = length-replicate room (pos 0);
    written = refl;
    kept = omega arith;
    cells = λ j h k. absurd (omega arith);
  };
  unused = λ e. refl;
}

pub append_history-Holds :
    {F : Type 0} (room : ℕ) (xs : List ℤ) (a : RttAccumulator F) (x : ℤ)
    → 0 < room
    → Holds room xs a
    → Holds room (xs ++ (x ∷ [])) (append_history x room a)
unfolding append_history
append_history-Holds room xs a x hc h = record {
  ring =
      set-IsRing room xs (buffer a.history room) a.history_idx a.history_len x hc h.ring _
        (ground (arith, h.ring.kept));
  unused = λ e. cc;
}

append_times-Holds :
    {F : Type 0} (room : ℕ) (xs ys : List ℤ) (a : RttAccumulator F)
    → 0 < room
    → Holds room xs a
    → Holds room (xs ++ ys) (append_times room ys a)
append_times-Holds room xs [] a hc h = rw append-nil h
append_times-Holds room xs (y ∷ ys) a hc h = rw (← append_assoc xs (y ∷ []) ys) (
    append_times-Holds room (xs ++ (y ∷ [])) ys (append_history y room a) hc
      (append_history-Holds room xs a y hc h))

nil_of_length : (xs : List ℤ) → length xs ≡ 0 → xs ≡ []
nil_of_length [] e = refl
nil_of_length (x ∷ xs) e = absurd (omega arith)

take_last_all : (n : ℕ) (xs : List ℤ) → length xs ≤ n → take_last n xs ≡ xs
take_last_all n xs h = ap (λ k. drop k xs) (let e : length xs - n ≡ 0 = omega arith in e)

pub take_last-take_last :
    (n m : ℕ) (xs : List ℤ)
    → take_last n (take_last m xs) ≡ drop (length xs - min n (min m (length xs))) xs
take_last-take_last n m xs = get_elem?_ext _ _ λ i.
    get_elem?-drop (length (take_last m xs) - n) (take_last m xs) i
    ∙ get_elem?-drop (length xs - m) xs (length (take_last m xs) - n + i)
    ∙ ap (get_elem? xs) (omega (arith, length-drop (length xs - m) xs))
    ∙ sym (get_elem?-drop (length xs - min n (min m (length xs))) xs i)

drop_all : (n : ℕ) (xs : List ℤ) → length xs ≤ n → drop n xs ≡ []
drop_all zero xs h = nil_of_length xs (omega arith)
drop_all (suc n) [] h = refl
drop_all (suc n) (x ∷ xs) h = drop_all n xs (omega arith)

module _ {room : ℕ} {xs buf : List ℤ} {idx len : ℕ} (hc : 0 < room)
    (r : IsRing room xs buf idx len) where
  read_short : length xs < room → take len buf ≡ xs
  read_short p =
      ap (λ k. take k buf) (let e : len ≡ length xs = omega (arith, r.kept) in e)
      ∙ read_straight hc r (length xs) 0 (omega arith) (omega arith)
          (sym (mod-eq_of_lt (omega arith)) ∙ ap (λ k. k % room) (omega arith)) (omega arith)
      ∙ ap (λ k. drop k xs) (let e : length xs - length xs ≡ 0 = omega arith in e)

  read_full : room ≤ length xs → drop (idx % room) buf ++ take (idx % room) buf ≡ take_last room xs
  read_full p =
      ap (λ k. drop (idx % room) buf ++ take k buf)
        (let e : idx % room ≡ room - (room - idx % room) = omega (arith, mod-lt idx hc) in e)
      ∙ read_round hc r room (idx % room) (omega arith) p
          (ap (λ k. k % room) r.written ∙ mod-eq-sub-mod p) (omega arith)

  reconstruct_history-eq : reconstruct_history (some buf) idx len ≡ take_last room xs
  unfolding reconstruct_history
  reconstruct_history-eq = elim (dec_lt (length xs) room) [
    | yes p ↦
        ground (
          arith,
          r.kept,
          r.size,
          read_short p,
          nil_of_length xs,
          take_last_all room xs (omega arith),
        )
    | no p ↦ rw r.size (ground (arith, r.kept, read_full (omega arith)))
  ]

  -- The window of `eff` entries starts where the ring keeps time `length xs - eff`.
  window_start-eq :
      (eff : ℕ) → eff ≤ length xs → window_start idx eff (length buf) ≡ (length xs - eff) % room
  window_start-eq eff h =
      rw (r.size, r.written)
        (ground (
          arith,
          add-mod_right ((length xs - eff) % room) room,
          mod-eq_of_lt (mod-lt (length xs - eff) hc),
        ))

  reconstruct_window-eq :
      (n : ℕ) → reconstruct_window (some buf) idx len n ≡ drop (length xs - min n len) xs
  unfolding reconstruct_window
  reconstruct_window-eq n =
      let eff = min n len in
      let le_all : eff ≤ length xs = omega (arith, r.kept) in
      let le_cap : eff ≤ room = omega (arith, r.kept) in
      let w : window_start idx eff (length buf) ≡ (length xs - eff) % room =
        window_start-eq eff le_all in
      elim (dec_lt 0 eff) [
        | yes some_left ↦ elim (dec_lt (length xs) room) [
          | yes p ↦ ground (arith, r.kept, r.size, read_short p)
          | no p ↦
              rw (w, r.size)
                (ground (
                  arith,
                  r.kept,
                  read_straight hc r eff ((length xs - eff) % room) le_cap le_all refl,
                  read_round hc r eff ((length xs - eff) % room) le_cap le_all refl,
                ))
        ]
        | no nothing ↦ ground (arith, drop_all (length xs - eff) xs (omega arith))
      ]

-- A buffer that was never allocated has no entries.
reconstruct_history-Holds :
    (room : ℕ) (xs : List ℤ) (hist : Option (List ℤ)) (idx len : ℕ)
    → 0 < room
    → IsRing room xs (buffer hist room) idx len
    → (hist ≡ none → xs ≡ [])
    → reconstruct_history hist idx len ≡ take_last room xs
unfolding reconstruct_history
reconstruct_history-Holds room xs none idx len hc r u =
    rw (u refl) (sym (drop_all (0 - room) [] (omega arith)))
reconstruct_history-Holds room xs (some buf) idx len hc r u = reconstruct_history-eq hc r

reconstruct_window-Holds :
    (room : ℕ) (xs : List ℤ) (hist : Option (List ℤ)) (idx len n : ℕ)
    → 0 < room
    → IsRing room xs (buffer hist room) idx len
    → (hist ≡ none → xs ≡ [])
    → reconstruct_window hist idx len n ≡ drop (length xs - min n len) xs
unfolding reconstruct_window
reconstruct_window-Holds room xs none idx len n hc r u =
    rw (u refl) (sym (drop_all (0 - min n len) [] (omega arith)))
reconstruct_window-Holds room xs (some buf) idx len n hc r u = reconstruct_window-eq hc r n

-- An accumulator that holds `xs` shows its trailing `room` times.
pub snapshot-Holds :
    {F : Type 0} (room : ℕ) (xs : List ℤ) (a : RttAccumulator F)
    → 0 < room
    → Holds room xs a
    → history_snapshot a ≡ take_last room xs
snapshot-Holds room xs a hc h =
    reconstruct_history-Holds room xs a.history a.history_idx a.history_len hc h.ring h.unused

pub window-Holds :
    {F : Type 0} (room : ℕ) (xs : List ℤ) (a : RttAccumulator F) (n : ℕ)
    → 0 < room
    → Holds room xs a
    → history_snapshot_window a n ≡ take_last n (history_snapshot a)
window-Holds room xs a n hc h =
    reconstruct_window-Holds room xs a.history a.history_idx a.history_len n hc h.ring h.unused
    ∙ sym (
        ap (take_last n) (snapshot-Holds room xs a hc h)
        ∙ take_last-take_last n room xs
        ∙ ap (λ k. drop k xs) (omega (arith, h.ring.kept)))

-- After any times have been appended to a fresh accumulator, the snapshot is the trailing `room` of
-- them, oldest first.
pub history_snapshot-append_times :
    {F : Type 0} (fl : Floats F) (room : ℕ) (xs : List ℤ)
    → 0 < room
    → history_snapshot (append_times room xs (fresh fl)) ≡ take_last room xs
history_snapshot-append_times fl room xs hc =
    snapshot-Holds room xs (append_times room xs (fresh fl)) hc
      (append_times-Holds room [] xs (fresh fl) hc (fresh-Holds fl room))

-- After any times have been appended to a fresh accumulator, the window of `n` is the trailing `n`
-- entries of the snapshot, or all of them if there are fewer.
pub history_snapshot_window-append_times :
    {F : Type 0} (fl : Floats F) (room : ℕ) (xs : List ℤ) (n : ℕ)
    → 0 < room
    → history_snapshot_window (append_times room xs (fresh fl)) n
      ≡ take_last n (history_snapshot (append_times room xs (fresh fl)))
history_snapshot_window-append_times fl room xs n hc =
    let a = append_times room xs (fresh fl) in
    let h : Holds room xs a = append_times-Holds room [] xs (fresh fl) hc (fresh-Holds fl room) in
    window-Holds room xs a n hc h
