-- ===== src/Rtt/Ring.antt =====
-- The ring buffer of internal/stats/rtt_accumulator.go against the list of all times appended.
use native.Mathlib.Nat.{mod-add-mod, mod-eq_of_lt, mod-eq-sub-mod, div-add-mod, mod-lt}
use native.Mathlib.Decide.{dec_lt}
use mping.Base.{
  ℕ, ◌+◌, ◌-◌, ◌%◌, ◌≤◌, ◌<◌, min, ◌≡◌, ap, sym, ◌∙◌, ◌≢◌, List, [], ◌∷◌, ◌++◌, arith, length, take,
  drop, set, get_elem?, get_elem?_ext, get_elem?-drop, get_elem?-none, get_elem?-take,
  get_elem?-append_left, get_elem?-append_right, get_elem?-set_self, get_elem?-set_ne,
  length-append, length-set, length-take, length-drop,
}
use mping.Base.Int.{ℤ}

-- Fewer than `room` steps round the ring do not come back to the same slot.
pub mod-ne : (room j l : ℕ) → j < l → l < j + room → j % room ≢ l % room
mod-ne room j l h k e = grind (arith, div-add-mod j room, div-add-mod l room)

-- After the times `xs` have been appended at capacity `room`, slot `j % room` holds time `j`, for the
-- last `room` of them.
pub record IsRing (room : ℕ) (xs : List ℤ) (buf : List ℤ) (idx len : ℕ) : Type 0 where
  pub size : length buf ≡ room
  pub written : idx ≡ length xs
  pub kept : len ≡ min room (length xs)
  pub cells :
      (j : ℕ) → j < length xs → length xs ≤ j + room → get_elem? buf (j % room) ≡ get_elem? xs j

pub set-IsRing :
    (room : ℕ) (xs : List ℤ) (buf : List ℤ) (idx len : ℕ) (x : ℤ)
    → 0 < room
    → IsRing room xs buf idx len
    → (len' : ℕ) → len' ≡ min room (length xs + 1)
    → IsRing room (xs ++ (x ∷ [])) (set buf (idx % room) x) (idx + 1) len'
set-IsRing room xs buf idx len x hc r len' e = record {
  size = length-set buf (idx % room) x ∙ r.size;
  written = omega (arith, r.written, length-append xs (x ∷ []));
  kept = omega (arith, length-append xs (x ∷ []));
  cells = λ j h k.
      written_cell j (omega (arith, length-append xs (x ∷ [])))
        (omega (arith, length-append xs (x ∷ [])));
}
  where
    written_cell :
        (j : ℕ)
        → j < length xs + 1
        → length xs + 1 ≤ j + room
        → get_elem? (set buf (idx % room) x) (j % room) ≡ get_elem? (xs ++ (x ∷ [])) j
    written_cell j h k = elim (dec_lt j (length xs)) [
      | yes p ↦
          get_elem?-set_ne buf (idx % room) (j % room) x
            (λ q. mod-ne room j (length xs) p (omega arith) (sym q ∙ ap (λ t. t % room) r.written))
          ∙ r.cells j p (omega arith)
          ∙ sym (get_elem?-append_left xs (x ∷ []) j p)
      | no p ↦
          let e' : j ≡ length xs = omega arith in
          rw (e', r.written)
            (get_elem?-set_self buf (length xs % room) x
                (omega (arith, r.size, mod-lt (length xs) hc))
              ∙ sym (
                  get_elem?-append_right xs (x ∷ []) (length xs) (omega arith)
                  ∙ ap (get_elem? (x ∷ [])) (let z : length xs - length xs ≡ 0 = omega arith in z)))
    ]

-- Reading `eff` slots from the one of time `length xs - eff` on, round the end of the buffer.
module _ {room : ℕ} {xs buf : List ℤ} {idx len : ℕ} (hc : 0 < room)
    (r : IsRing room xs buf idx len) where
  module _ (eff w : ℕ) (le_cap : eff ≤ room) (le_all : eff ≤ length xs)
      (start : w ≡ (length xs - eff) % room) where
    w-lt : w < room
    w-lt = omega (arith, start, mod-lt (length xs - eff) hc)

    cell_before :
        (i : ℕ)
        → i < eff
        → w + i < room
        → get_elem? buf (w + i) ≡ get_elem? xs (length xs - eff + i)
    cell_before i h k =
        ap (get_elem? buf) (
          sym (
            sym (mod-add-mod (length xs - eff) room i)
            ∙ ap (λ t. (t + i) % room) (sym start)
            ∙ mod-eq_of_lt k))
        ∙ r.cells (length xs - eff + i) (omega arith) (omega arith)

    cell_after :
        (i : ℕ)
        → i < eff
        → room ≤ w + i
        → get_elem? buf (w + i - room) ≡ get_elem? xs (length xs - eff + i)
    cell_after i h k =
        ap (get_elem? buf) (
          sym (
            sym (mod-add-mod (length xs - eff) room i)
            ∙ ap (λ t. (t + i) % room) (sym start)
            ∙ mod-eq-sub-mod k
            ∙ mod-eq_of_lt {n = w + i - room} {m = room} (omega (arith, w-lt))))
        ∙ r.cells (length xs - eff + i) (omega arith) (omega arith)

    pub read_straight : w + eff ≤ room → take eff (drop w buf) ≡ drop (length xs - eff) xs
    read_straight fits = get_elem?_ext _ _ λ i. elim (dec_lt i eff) [
      | yes p ↦
          get_elem?-take eff (drop w buf) i p
          ∙ get_elem?-drop w buf i
          ∙ cell_before i p (omega arith)
          ∙ sym (get_elem?-drop (length xs - eff) xs i)
      | no p ↦
          get_elem?-none _ i (omega (arith, length-take eff (drop w buf)))
          ∙ sym (get_elem?-none _ i (omega (arith, length-drop (length xs - eff) xs)))
    ]

    pub read_round :
        room ≤ w + eff → drop w buf ++ take (eff - (room - w)) buf ≡ drop (length xs - eff) xs
    read_round over = get_elem?_ext _ _ λ i. elim (dec_lt (w + i) room) [
      | yes p ↦
          get_elem?-append_left (drop w buf) _ i (omega (arith, length-drop w buf, r.size))
          ∙ get_elem?-drop w buf i
          ∙ cell_before i (omega arith) p
          ∙ sym (get_elem?-drop (length xs - eff) xs i)
      | no p ↦
          get_elem?-append_right (drop w buf) _ i (omega (arith, length-drop w buf, r.size))
          ∙ ap (get_elem? (take (eff - (room - w)) buf)) (
              let e : i - length (drop w buf) ≡ w + i - room =
                omega (arith, length-drop w buf, r.size, w-lt) in
              e)
          ∙ elim (dec_lt i eff) [
            | yes q ↦
                get_elem?-take (eff - (room - w)) buf (w + i - room) (omega (arith, w-lt))
                ∙ cell_after i q (omega arith)
                ∙ sym (get_elem?-drop (length xs - eff) xs i)
            | no q ↦
                get_elem?-none _ (w + i - room) (omega (arith, length-take (eff - (room - w)) buf))
                ∙ sym (get_elem?-none _ i (omega (arith, length-drop (length xs - eff) xs)))
          ]
    ]
