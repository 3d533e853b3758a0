-- ===== src/Patterns/Tests.antt =====
-- A pattern of internal/hostsfile/expand.go with one brace range and a prefix, and the overflow.
use mping.Base.{
  ℕ, ◌≤◌, ◌<◌, ◌≡◌, refl, ap, Bool, true, false, Option, none, some, [], ◌∷◌, ◌==◌, if◌then◌else◌,
  arith,
}
use mathlib.Core.Path.{subst}
use mping.Base.Text.{String, str_eq}
use mping.Hosts.{range_from}
use mping.Patterns.{
  Brace, Shape, Syntax, Expansion, max_int, with_head, product, addresses, join_tails, expand_range,
  expand_found, expand_braces, address_bits, expand_prefix, expand_cidr, expand_shape,
  expand_address_pattern, add_hosts, expand_each, expand_braced, expand_host_pattern,
}
use mping.Patterns.Bounded.{Bounded, IsSound, expand_host_pattern-Bounded}

abbrev last_octets : Brace
last_octets = record { before = "10.0.0."; start = some 0; end = some 1; width = 0; rest = "/30" }

abbrev is_pattern : String → Bool
is_pattern s = str_eq s "10.0.0.{0..1}/30"

abbrev brace_if : Bool → Option Brace
brace_if true = some last_octets
brace_if false = none

abbrev size_if : Bool → ℕ
size_if true = 16
size_if false = 3

abbrev slash_30 : Shape
slash_30 = Shape.cidr (some (record { addr = record { is4 = true; value = 167772161 }; bits = 30 }))

abbrev reader : Syntax
reader = record {
  size = λ s. size_if (is_pattern s);
  find_brace = λ s. brace_if (is_pattern s);
  has_brace = is_pattern;
  padded = λ width n. if n == 0 then "0" else "1";
  shape = λ s. slash_30;
  show = λ a. if a.value == 167772161 then "10.0.0.1" else "10.0.0.2";
}

abbrev IsFine : ℕ → Brace → Type 0
IsFine n b = (reader.size b.rest < n) × ((m : ℕ) → b.end ≡ some m → m ≤ max_int)

abbrev or_last_octets : Option Brace → Brace
or_last_octets none = last_octets
or_last_octets (some b) = b

last_octets-IsFine : IsFine 16 last_octets
last_octets-IsFine = (omega arith, λ m e. let h : 1 ≡ m = cc in omega arith)

brace_if-IsFine : (t : Bool) (b : Brace) → brace_if t ≡ some b → IsFine (size_if t) b
brace_if-IsFine true b e = subst (IsFine 16) (ap or_last_octets e) last_octets-IsFine
brace_if-IsFine false b e = absurd cc

reader-IsSound : IsSound reader
reader-IsSound s b e = brace_if-IsFine (is_pattern s) b e

expand_host_pattern-Bounded_example : Bounded (expand_host_pattern reader "10.0.0.{0..1}/30")
expand_host_pattern-Bounded_example =
    expand_host_pattern-Bounded reader reader-IsSound "10.0.0.{0..1}/30"

two_networks :
    expand_host_pattern reader "10.0.0.{0..1}/30"
    ≡ Expansion.hosts ("10.0.0.1" ∷ "10.0.0.2" ∷ "10.0.0.1" ∷ "10.0.0.2" ∷ [])
unfolding expand_host_pattern expand_braces expand_found expand_range join_tails product with_head
    range_from expand_braced expand_each add_hosts expand_address_pattern expand_shape expand_cidr
    expand_prefix address_bits addresses
two_networks = refl

-- The number of hosts of this range wraps.
abbrev full_range : Brace
full_range = record { before = ""; start = some 0; end = some max_int; width = 0; rest = "" }

full_range-overflows :
    expand_range reader full_range (some 0) (some max_int) (Expansion.hosts ("" ∷ []))
    ≡ Expansion.overflowed full_range
unfolding expand_range join_tails
full_range-overflows = refl
