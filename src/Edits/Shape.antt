-- ===== src/Edits/Shape.antt =====
-- The lists of a session: targets without repetition, numbered below a bound, and groups with
-- indices in range (cmd/main/live_targets.go).
use mping.Base.{
  ℕ, zero, suc, ◌+◌, ◌<◌, ◌≤◌, ◌≡◌, refl, sym, ap, ◌∙◌, inl, inr, true, false, not, ◌&&◌, some,
  List, [], ◌∷◌, ◌++◌, Bool-cases, arith, ltb, ◌==◌, length, get_elem?, take, drop, length-take,
  length-drop, length-append,
}
use mping.Base.Dict.{has, has-append}
use mping.Hosts.{TargetSpec, TargetGroup, range_from}
use mping.Members.Membership.{targets_of}
use mping.Edits.{remove_at, renumber, renumber_groups, with_addresses}
use mping.Edits.Groups.{moved}

abbrev pub Distinct : List ℕ → Type 0
Distinct [] = Unit {0}
Distinct (t ∷ ts) = (has t ts ≡ false) × Distinct ts

abbrev pub AllBelow : ℕ → List ℕ → Type 0
AllBelow n [] = Unit {0}
AllBelow n (t ∷ ts) = (t < n) × AllBelow n ts

abbrev pub GroupsBelow : ℕ → List TargetGroup → Type 0
GroupsBelow n [] = Unit {0}
GroupsBelow n (g ∷ gs) = AllBelow n g.indices × GroupsBelow n gs

pub AllBelow-mono : (n m : ℕ) (ts : List ℕ) → n ≤ m → AllBelow n ts → AllBelow m ts
AllBelow-mono n m [] h b = tt
AllBelow-mono n m (t ∷ ts) h (b, bs) = (omega arith, AllBelow-mono n m ts h bs)

pub GroupsBelow-mono :
    (n m : ℕ) (gs : List TargetGroup) → n ≤ m → GroupsBelow n gs → GroupsBelow m gs
GroupsBelow-mono n m [] h b = tt
GroupsBelow-mono n m (g ∷ gs) h (b, bs) =
    (AllBelow-mono n m g.indices h b, GroupsBelow-mono n m gs h bs)

AllBelow-append : (n : ℕ) (xs ys : List ℕ) → AllBelow n xs → AllBelow n ys → AllBelow n (xs ++ ys)
AllBelow-append n [] ys b c = c
AllBelow-append n (x ∷ xs) ys (a, b) c = (a, AllBelow-append n xs ys b c)

AllBelow-range_from : (start n m : ℕ) → start + n ≤ m → AllBelow m (range_from start n)
unfolding range_from
AllBelow-range_from start zero m h = tt
AllBelow-range_from start (suc n) m h =
    (omega arith, AllBelow-range_from (suc start) n m (omega arith))

-- The next numbers extend numbers below them.
pub AllBelow-extended :
    (made n : ℕ) (ts : List ℕ) → AllBelow made ts → AllBelow (made + n) (ts ++ range_from made n)
AllBelow-extended made n ts b =
    AllBelow-append (made + n) ts (range_from made n)
      (AllBelow-mono made (made + n) ts (omega arith) b)
      (AllBelow-range_from made n (made + n) (omega arith))

has-range_from-below : (u start n : ℕ) → u < start → has u (range_from start n) ≡ false
unfolding has range_from
has-range_from-below u start zero h = refl
has-range_from-below u start (suc n) h =
    let ne : (start == u) ≡ false = ground arith in
    rw ne (has-range_from-below u (suc start) n (omega arith))

Distinct-range_from : (start n : ℕ) → Distinct (range_from start n)
unfolding range_from
Distinct-range_from start zero = tt
Distinct-range_from start (suc n) =
    (has-range_from-below start (suc start) n (omega arith), Distinct-range_from (suc start) n)

pub Distinct-extended :
    (made n : ℕ) (ts : List ℕ) → AllBelow made ts → Distinct ts → Distinct (ts ++ range_from made n)
Distinct-extended made n [] b d = Distinct-range_from made n
Distinct-extended made n (t ∷ ts) (a, b) (e, d) = (
  has-append t ts (range_from made n) ∙ rw (e, has-range_from-below t made n a) refl,
  Distinct-extended made n ts b d,
)

pub length-range_from : (start n : ℕ) → length (range_from start n) ≡ n
unfolding range_from
length-range_from start zero = refl
length-range_from start (suc n) = ap suc (length-range_from (suc start) n)

pub targets_of-with_addresses :
    (start : ℕ) (specs : List TargetSpec)
    → targets_of (with_addresses start specs) ≡ range_from start (length specs)
unfolding with_addresses range_from
targets_of-with_addresses start [] = refl
targets_of-with_addresses start (t ∷ ts) =
    ap (λ r. start ∷ r) (targets_of-with_addresses (suc start) ts)

-- The removal of one element.
pub length-remove_at :
    {A : Type 0} (i : ℕ) (xs : List A) → i < length xs → suc (length (remove_at i xs)) ≡ length xs
length-remove_at i xs h =
    omega
      (arith, length-append (take i xs) (drop (suc i) xs), length-take i xs, length-drop (suc i) xs)

has-remove_at-false : (u i : ℕ) (ts : List ℕ) → has u ts ≡ false → has u (remove_at i ts) ≡ false
unfolding has
has-remove_at-false u zero [] h = refl
has-remove_at-false u (suc i) [] h = refl
has-remove_at-false u zero (t ∷ ts) h = ground arith
has-remove_at-false u (suc i) (t ∷ ts) h =
    let ne : (t == u) ≡ false = ground arith in
    let rest : has u ts ≡ false = ground arith in rw ne (has-remove_at-false u i ts rest)

pub Distinct-remove_at : (i : ℕ) (ts : List ℕ) → Distinct ts → Distinct (remove_at i ts)
Distinct-remove_at zero [] d = tt
Distinct-remove_at (suc i) [] d = tt
Distinct-remove_at zero (t ∷ ts) (e, d) = d
Distinct-remove_at (suc i) (t ∷ ts) (e, d) =
    (has-remove_at-false t i ts e, Distinct-remove_at i ts d)

pub AllBelow-remove_at : (n i : ℕ) (ts : List ℕ) → AllBelow n ts → AllBelow n (remove_at i ts)
AllBelow-remove_at n zero [] b = tt
AllBelow-remove_at n (suc i) [] b = tt
AllBelow-remove_at n zero (t ∷ ts) (a, b) = b
AllBelow-remove_at n (suc i) (t ∷ ts) (a, b) = (a, AllBelow-remove_at n i ts b)

-- An element of the rest is not the head of a list without repetitions.
other_element :
    (i t x u : ℕ) (ts : List ℕ)
    → has x ts ≡ false
    → get_elem? ts i ≡ some t
    → (x == u) ≡ true
    → (t == u) ≡ false
unfolding has
other_element i t x u [] e h f = cc
other_element zero t x u (y ∷ ts) e h f = let same : y ≡ t = cc in ground arith
other_element (suc i) t x u (y ∷ ts) e h f =
    let rest : has x ts ≡ false = ground arith in other_element i t x u ts rest h f

-- What is left of a list without repetitions.
pub has-remove_at :
    (u i t : ℕ) (ts : List ℕ)
    → Distinct ts
    → get_elem? ts i ≡ some t
    → has u (remove_at i ts) ≡ (not (t == u) && has u ts)
unfolding has
has-remove_at u i t [] d h = cc
has-remove_at u zero t (x ∷ ts) (e, d) h =
    let same : x ≡ t = cc in
    elim (Bool-cases (t == u)) [
      | inl f ↦
          let eq : x ≡ u = ground arith in
          let gone : has u ts ≡ false = ap (λ k. has k ts) (sym eq) ∙ e in rw (f, gone) refl
      | inr f ↦ let ne : (x == u) ≡ false = ground arith in rw (f, ne) refl
    ]
has-remove_at u (suc i) t (x ∷ ts) (e, d) h =
    let rest = has-remove_at u i t ts d h in
    elim (Bool-cases (x == u)) [
      | inl f ↦ let other : (t == u) ≡ false = other_element i t x u ts e h f in rw (f, other) refl
      | inr f ↦ rw f rest
    ]

AllBelow-renumber :
    (n i : ℕ) (js : List ℕ) → AllBelow (suc n) js → i < suc n → AllBelow n (renumber i js)
unfolding renumber
AllBelow-renumber n i [] b h = tt
AllBelow-renumber n i (j ∷ js) (a, b) h =
    let rest = AllBelow-renumber n i js b h in
    elim (Bool-cases (j == i)) [
      | inl e ↦ rw e rest
      | inr e ↦ let small : moved i j < n = ground arith in rw e (small, rest)
    ]

pub GroupsBelow-renumber :
    (n i : ℕ) (gs : List TargetGroup)
    → GroupsBelow (suc n) gs
    → i < suc n
    → GroupsBelow n (renumber_groups i gs)
unfolding renumber_groups
GroupsBelow-renumber n i [] b h = tt
GroupsBelow-renumber n i (g ∷ gs) (a, b) h =
    let rest = GroupsBelow-renumber n i gs b h in
    elim (Bool-cases (ltb 0 (length (renumber i g.indices)))) [
      | inl e ↦ rw e (AllBelow-renumber n i g.indices a h, rest)
      | inr e ↦ rw e rest
    ]
