-- ===== src/Payload/Bytes.antt =====
-- Numbers as bytes and back: `binary.BigEndian` and the conversions of internal/pinger/timestamp.go.
use mping.Base.{
  ℕ, zero, suc, ◌+◌, ◌*◌, ◌/◌, ◌%◌, ◌^◌, ◌<◌, ◌≡◌, refl, ◌∙◌, true, List, [], ◌∷◌, ◌++◌, arith,
  length, length-append,
}
use mping.Base.Int.{ℤ, pos, negsuc, InRange, ◌+ℤ◌, ◌-ℤ◌, +ℤ_parts, -ℤ_parts, eq_of_parts, two64}
use mping.Payload.{put_uint, read_uint, to_uint64, of_uint64, time_sub, same_bytes}
use native.Mathlib.Numerals.{unary_clauses}

pub length-put_uint : (k v : ℕ) → length (put_uint k v) ≡ k
unfolding put_uint
length-put_uint zero v = refl
length-put_uint (suc k) v =
    length-append (put_uint k (v / 256)) (v % 256 ∷ []) ∙ omega (arith, length-put_uint k (v / 256))

read-append :
    (acc b : ℕ) (bs : List ℕ) → read_uint acc (bs ++ (b ∷ [])) ≡ read_uint acc bs * 256 + b
unfolding read_uint
read-append acc b [] = refl
read-append acc b (x ∷ bs) = read-append (acc * 256 + x) b bs

-- Reading `k` bytes gives back a number that fits them.
pub read_uint-put_uint : (k v : ℕ) → v < 256 ^ k → read_uint 0 (put_uint k v) ≡ v
unfolding read_uint put_uint
read_uint-put_uint zero v h = omega arith
read_uint-put_uint (suc k) v h =
    let fits : v < 256 ^ k * 256 = simp unary_clauses at h in
    read-append 0 (v % 256) (put_uint k (v / 256))
    ∙ omega (arith, read_uint-put_uint k (v / 256) (omega arith))

-- A duration survives the trip through `uint64`.
pub of_uint64-to_uint64 : (d : ℤ) → InRange d → of_uint64 (to_uint64 d) ≡ d
unfolding of_uint64 to_uint64
of_uint64-to_uint64 (pos n) h = ground arith
of_uint64-to_uint64 (negsuc n) h = ground arith

pub to_uint64-lt : (d : ℤ) → InRange d → to_uint64 d < two64
unfolding to_uint64
to_uint64-lt (pos n) h = omega arith
to_uint64-lt (negsuc n) h = omega arith

-- A difference that fits a duration is that difference.
pub time_sub-eq : (a b : ℤ) → InRange (a -ℤ b) → time_sub a b ≡ a -ℤ b
unfolding time_sub
time_sub-eq a b h = ground arith

pub time_sub-InRange : (a b : ℤ) → InRange (time_sub a b)
unfolding time_sub
time_sub-InRange a b = ground arith

pub add_sub : (a b : ℤ) → b +ℤ (a -ℤ b) ≡ a
add_sub a b = eq_of_parts (b +ℤ (a -ℤ b)) a (omega (arith, +ℤ_parts b (a -ℤ b), -ℤ_parts a b))

pub same_bytes_refl : (bs : List ℕ) → same_bytes bs bs ≡ true
unfolding same_bytes
same_bytes_refl [] = refl
same_bytes_refl (b ∷ bs) = ground (arith, same_bytes_refl bs)
