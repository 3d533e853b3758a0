-- ===== src/Base/Dict.antt =====
-- Go maps with numbers for keys: association lists in which a key stands once.
use Prim.Native.Nat.{ℕ}
use mathlib.Core.Path.{◌≡◌, refl, sym, ap, ◌∙◌}
use mathlib.Core.Logic.{◌⊎◌, inl, inr}
use mathlib.Core.Bool.{Bool, true, false, ◌||◌}
use mathlib.Core.List.{List, [], ◌∷◌, ◌++◌}
use mathlib.Core.Option.{Option, none, some}
use native.Mathlib.Omega.{arith}
use mping.Base.Tests.{◌==◌, if◌then◌else◌, Bool-cases}

module _ {ℓ} {A : Type ℓ} where
  unfoldable pub lookup : ℕ → List (ℕ × A) → Option A
  lookup k [] = none
  lookup k ((j, a) ∷ m) = if j == k then some a else lookup k m

  unfoldable pub delete : ℕ → List (ℕ × A) → List (ℕ × A)
  delete k [] = []
  delete k ((j, a) ∷ m) = if j == k then delete k m else (j, a) ∷ delete k m

  unfoldable pub put : ℕ → A → List (ℕ × A) → List (ℕ × A)
  put k a m = (k, a) ∷ delete k m

  pub lookup-delete_self : (k : ℕ) (m : List (ℕ × A)) → lookup k (delete k m) ≡ none
  unfolding lookup delete
  lookup-delete_self k [] = refl
  lookup-delete_self k ((j, a) ∷ m) = elim (Bool-cases (j == k)) [
    | inl e ↦ rw e (lookup-delete_self k m)
    | inr e ↦ rw (e, e) (lookup-delete_self k m)
  ]

  pub lookup-delete_ne :
      (k i : ℕ) (m : List (ℕ × A)) → (k ≡ i → ⊥) → lookup i (delete k m) ≡ lookup i m
  unfolding lookup delete
  lookup-delete_ne k i [] ne = refl
  lookup-delete_ne k i ((j, a) ∷ m) ne =
      let rest = lookup-delete_ne k i m ne in
      elim (Bool-cases (j == k)) [
        | inl e ↦ let f : (j == i) ≡ false = ground arith in rw (e, f) rest
        | inr e ↦ elim (Bool-cases (j == i)) [ inl f ↦ rw (e, f) refl | inr f ↦ rw (e, f) rest ]
      ]

  pub lookup-put_self : (k : ℕ) (a : A) (m : List (ℕ × A)) → lookup k (put k a m) ≡ some a
  unfolding lookup put
  lookup-put_self k a m = let e : (k == k) ≡ true = ground arith in rw e refl

  pub lookup-put_ne :
      (k i : ℕ) (a : A) (m : List (ℕ × A)) → (k ≡ i → ⊥) → lookup i (put k a m) ≡ lookup i m
  unfolding lookup put
  lookup-put_ne k i a m ne =
      let e : (k == i) ≡ false = ground arith in rw e (lookup-delete_ne k i m ne)

  pub delete-none : (k : ℕ) (m : List (ℕ × A)) → lookup k m ≡ none → delete k m ≡ m
  unfolding lookup delete
  delete-none k [] h = refl
  delete-none k ((j, a) ∷ m) h = elim (Bool-cases (j == k)) [
    | inl e ↦ let no : some a ≡ none = rw e at h in cc
    | inr e ↦
        let rest : lookup k m ≡ none = rw e at h in
        rw e (ap (λ r. (j, a) ∷ r) (delete-none k m rest))
  ]

  pub delete-put_self : (k : ℕ) (a : A) (m : List (ℕ × A)) → delete k (put k a m) ≡ delete k m
  unfolding delete put
  delete-put_self k a m =
      let e : (k == k) ≡ true = ground arith in
      rw e (delete-none k (delete k m) (lookup-delete_self k m))

  pub delete_comm : (k i : ℕ) (m : List (ℕ × A)) → delete k (delete i m) ≡ delete i (delete k m)
  unfolding delete
  delete_comm k i [] = refl
  delete_comm k i ((j, a) ∷ m) =
      let rest = delete_comm k i m in
      elim (Bool-cases (j == k)) [
        | inl e ↦ elim (Bool-cases (j == i)) [ inl f ↦ rw (e, f) rest | inr f ↦ rw (e, f, e) rest ]
        | inr e ↦ elim (Bool-cases (j == i)) [
          | inl f ↦ rw (e, f) rest
          | inr f ↦ rw (e, f, e) (ap (λ r. (j, a) ∷ r) rest)
        ]
      ]

  pub delete-put_ne :
      (k i : ℕ) (a : A) (m : List (ℕ × A))
      → (k ≡ i → ⊥)
      → delete i (put k a m) ≡ put k a (delete i m)
  unfolding delete put
  delete-put_ne k i a m ne =
      let e : (k == i) ≡ false = ground arith in rw e (ap (λ r. (k, a) ∷ r) (delete_comm i k m))

-- Where an entry comes from.
module _ {ℓ} {A : Type ℓ} where
  pub lookup-put-some :
      (k i : ℕ) (a b : A) (m : List (ℕ × A))
      → lookup i (put k a m) ≡ some b
      → ((k ≡ i) × (some a ≡ some b)) ⊎ ((k ≡ i → ⊥) × (lookup i m ≡ some b))
  lookup-put-some k i a b m h = elim (Bool-cases (k == i)) [
    | inl e ↦
        let same : k ≡ i = ground arith in
        inl (same, sym (lookup-put_self k a m) ∙ ap (λ j. lookup j (put k a m)) same ∙ h)
    | inr e ↦ let ne : k ≡ i → ⊥ = λ q. ground arith in inr (ne, sym (lookup-put_ne k i a m ne) ∙ h)
  ]

  pub lookup-delete-some :
      (k i : ℕ) (b : A) (m : List (ℕ × A))
      → lookup i (delete k m) ≡ some b
      → (k ≡ i → ⊥) × (lookup i m ≡ some b)
  lookup-delete-some k i b m h =
      let ne : k ≡ i → ⊥ = λ q.
        let no : none ≡ some b =
          sym (lookup-delete_self k m) ∙ ap (λ j. lookup j (delete k m)) q ∙ h in
        cc in
      (ne, sym (lookup-delete_ne k i m ne) ∙ h)

-- Sets of numbers, as maps to `true` are.
unfoldable pub has : ℕ → List ℕ → Bool
has k [] = false
has k (j ∷ s) = (j == k) || has k s

unfoldable pub without : ℕ → List ℕ → List ℕ
without k [] = []
without k (j ∷ s) = if j == k then without k s else j ∷ without k s

pub has-without_self : (k : ℕ) (s : List ℕ) → has k (without k s) ≡ false
unfolding has without
has-without_self k [] = refl
has-without_self k (j ∷ s) = elim (Bool-cases (j == k)) [
  | inl e ↦ rw e (has-without_self k s)
  | inr e ↦ rw (e, e) (has-without_self k s)
]

pub has-without_ne : (k i : ℕ) (s : List ℕ) → (k ≡ i → ⊥) → has i (without k s) ≡ has i s
unfolding has without
has-without_ne k i [] ne = refl
has-without_ne k i (j ∷ s) ne =
    let rest = has-without_ne k i s ne in
    elim (Bool-cases (j == k)) [
      | inl e ↦ let f : (j == i) ≡ false = ground arith in rw (e, f) rest
      | inr e ↦ rw e (ap (λ r. (j == i) || r) rest)
    ]

pub without-false : (k : ℕ) (s : List ℕ) → has k s ≡ false → without k s ≡ s
unfolding has without
without-false k [] h = refl
without-false k (j ∷ s) h = elim (Bool-cases (j == k)) [
  | inl e ↦ let no : true ≡ false = rw e at h in cc
  | inr e ↦
      let rest : has k s ≡ false = rw e at h in rw e (ap (λ r. j ∷ r) (without-false k s rest))
]

pub without_comm : (k i : ℕ) (s : List ℕ) → without k (without i s) ≡ without i (without k s)
unfolding without
without_comm k i [] = refl
without_comm k i (j ∷ s) =
    let rest = without_comm k i s in
    elim (Bool-cases (j == k)) [
      | inl e ↦ elim (Bool-cases (j == i)) [ inl f ↦ rw (e, f) rest | inr f ↦ rw (e, f, e) rest ]
      | inr e ↦ elim (Bool-cases (j == i)) [
        | inl f ↦ rw (e, f) rest
        | inr f ↦ rw (e, f, e) (ap (λ r. j ∷ r) rest)
      ]
    ]

pub without-cons_ne : (k i : ℕ) (s : List ℕ) → (k ≡ i → ⊥) → without i (k ∷ s) ≡ k ∷ without i s
unfolding without
without-cons_ne k i s ne = let e : (k == i) ≡ false = ground arith in rw e refl

pub without-cons_self : (k : ℕ) (s : List ℕ) → without k (k ∷ s) ≡ without k s
unfolding without
without-cons_self k s = let e : (k == k) ≡ true = ground arith in rw e refl

pub has-cons : (k i : ℕ) (s : List ℕ) → has i (k ∷ s) ≡ true → (k ≡ i) ⊎ (has i s ≡ true)
unfolding has
has-cons k i s h = elim (Bool-cases (k == i)) [
  | inl e ↦ let same : k ≡ i = ground arith in inl same
  | inr e ↦ let rest : has i s ≡ true = rw e at h in inr rest
]

pub has-cons_self : (k : ℕ) (s : List ℕ) → has k (k ∷ s) ≡ true
unfolding has
has-cons_self k s = let e : (k == k) ≡ true = ground arith in rw e refl

pub has-cons_mono : (k i : ℕ) (s : List ℕ) → has i s ≡ true → has i (k ∷ s) ≡ true
unfolding has
has-cons_mono k i s h = elim (Bool-cases (k == i)) [ inl e ↦ rw e refl | inr e ↦ rw e h ]

pub has-without-true :
    (k i : ℕ) (s : List ℕ) → has i (without k s) ≡ true → (k ≡ i → ⊥) × (has i s ≡ true)
has-without-true k i s h =
    let ne : k ≡ i → ⊥ = λ q.
      let no : false ≡ true = sym (has-without_self k s) ∙ ap (λ j. has j (without k s)) q ∙ h in
      cc in
    (ne, sym (has-without_ne k i s ne) ∙ h)

pub has-append : (i : ℕ) (s r : List ℕ) → has i (s ++ r) ≡ (has i s || has i r)
unfolding has
has-append i [] r = refl
has-append i (j ∷ s) r = elim (Bool-cases (j == i)) [
  | inl e ↦ rw e refl
  | inr e ↦ rw e (has-append i s r)
]
