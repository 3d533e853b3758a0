-- ===== src/Edits/Groups.antt =====
-- The groups of a session after `removeTarget` in cmd/main/live_targets.go.
use mping.Base.{
  ℕ, zero, suc, ◌-◌, ◌<◌, ◌≡◌, refl, ap, ◌∙◌, inl, inr, Option, List, [], ◌∷◌, map, Bool-cases,
  arith, ltb, ◌==◌, if◌then◌else◌, length, get_elem?,
}
use mping.Base.Text.{String}
use mping.Base.Dict.{without}
use mping.Hosts.{TargetGroup}
use mping.Edits.{remove_at, renumber, renumber_groups}

-- The index of an element once the one at `i` is gone.
abbrev pub moved : ℕ → ℕ → ℕ
moved i j = if ltb i j then j - 1 else j

moved-suc : (i j : ℕ) → (suc j ≡ suc i → ⊥) → moved (suc i) (suc j) ≡ suc (moved i j)
moved-suc i j ne = ground arith

pub get_elem?-remove_at :
    {A : Type 0} (i j : ℕ) (xs : List A)
    → i < length xs
    → (j ≡ i → ⊥)
    → get_elem? (remove_at i xs) (moved i j) ≡ get_elem? xs j
get_elem?-remove_at i j [] h ne = elim h [ ]
get_elem?-remove_at zero zero (x ∷ xs) h ne = absurd (ne refl)
get_elem?-remove_at zero (suc j) (x ∷ xs) h ne =
    let q : moved 0 (suc j) ≡ j = ground arith in ap (get_elem? xs) q
get_elem?-remove_at (suc i) zero (x ∷ xs) h ne =
    let q : moved (suc i) 0 ≡ 0 = ground arith in ap (get_elem? (x ∷ remove_at i xs)) q
get_elem?-remove_at (suc i) (suc j) (x ∷ xs) h ne =
    ap (get_elem? (x ∷ remove_at i xs)) (moved-suc i j ne)
    ∙ get_elem?-remove_at i j xs (omega arith) (λ e. ne (ap suc e))

-- The name of a group and the targets that it stands for.
abbrev pub group_targets : List ℕ → TargetGroup → String × List (Option ℕ)
group_targets targets g = (g.name, map (get_elem? targets) g.indices)

-- The groups without the target at `i`, those left with no target dropped.
unfoldable pub groups_without : ℕ → List ℕ → List TargetGroup → List (String × List (Option ℕ))
groups_without i targets [] = []
groups_without i targets (g ∷ gs) =
    let kept = without i g.indices in
    let rest = groups_without i targets gs in
    if ltb 0 (length kept) then (g.name, map (get_elem? targets) kept) ∷ rest else rest

length-renumber : (i : ℕ) (js : List ℕ) → length (renumber i js) ≡ length (without i js)
unfolding renumber without
length-renumber i [] = refl
length-renumber i (j ∷ js) = elim (Bool-cases (j == i)) [
  | inl e ↦ rw e (length-renumber i js)
  | inr e ↦ rw e (ap suc (length-renumber i js))
]

renumber-targets :
    (i : ℕ) (targets : List ℕ) (js : List ℕ)
    → i < length targets
    → map (get_elem? (remove_at i targets)) (renumber i js) ≡ map (get_elem? targets) (without i js)
unfolding renumber without
renumber-targets i targets [] h = refl
renumber-targets i targets (j ∷ js) h =
    let rest = renumber-targets i targets js h in
    elim (Bool-cases (j == i)) [
      | inl e ↦ rw e rest
      | inr e ↦
          let ne : j ≡ i → ⊥ = λ q. ground arith in
          let here = get_elem?-remove_at i j targets h ne in rw e cc
    ]

pub renumber_groups-targets :
    (i : ℕ) (targets : List ℕ) (gs : List TargetGroup)
    → i < length targets
    → map (group_targets (remove_at i targets)) (renumber_groups i gs) ≡ groups_without i targets gs
unfolding renumber_groups groups_without
renumber_groups-targets i targets [] h = refl
renumber_groups-targets i targets (g ∷ gs) h =
    let rest = renumber_groups-targets i targets gs h in
    let same = renumber-targets i targets g.indices h in
    let size = length-renumber i g.indices in
    elim (Bool-cases (ltb 0 (length (without i g.indices)))) [
      | inl e ↦ rw (size, e) cc
      | inr e ↦ rw (size, e) rest
    ]
