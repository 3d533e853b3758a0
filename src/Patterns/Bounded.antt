-- ===== src/Patterns/Bounded.antt =====
-- The expansion of a pattern in internal/hostsfile/expand.go ends, with a bounded number of hosts.
use mping.Base.{
  ℕ, zero, suc, ◌+◌, ◌-◌, ◌*◌, ◌^◌, ◌%◌, ◌≤◌, ◌<◌, ◌≡◌, refl, sym, ap, ◌∙◌, true, false, ◌&&◌,
  Option, none, some, List, [], ◌∷◌, ◌++◌, ltb, leb, if◌then◌else◌, length, length-append, arith,
  if_split, Option-cases, inl, inr,
}
use mathlib.Core.Path.{subst}
use native.Mathlib.Nat.{suc-mul}
use mping.Base.Text.{String, ◌<>◌}
use mping.Hosts.{range_from}
use mping.Patterns.{
  ExpandError, max_pattern_expansion, max_int, Addr, Prefix, Brace, RangeEnd, Shape, Syntax,
  Expansion, with_head, product, addresses, join_tails, expand_range, expand_found, expand_braces,
  address_bits, expand_prefix, expand_cidr, expand_to, expand_ipv4_range, expand_shape,
  expand_address_pattern, add_hosts, expand_each, expand_braced, expand_host_pattern,
}
use mping.Patterns.RangeEnd.{to_addr, to_octet, neither}
use mping.Patterns.Shape.{cidr, range, single}
use mping.Patterns.ExpandError.{
  too_large, start_above_end, end_below_start, mixed_range, ipv6_range, unsupported_brace,
}
use mping.Patterns.Expansion.{hosts, overflowed, failed, out_of_fuel}

-- At most 1024 hosts, or an error; an overflow only on the range from 0 to the largest `int`.
abbrev pub Bounded : Expansion → Type 0
Bounded (hosts out) = length out ≤ max_pattern_expansion
Bounded (failed e) = Unit
Bounded (overflowed b) = (b.start ≡ some 0) × (b.end ≡ some max_int)
Bounded out_of_fuel = ⊥

length-with_head : (head : String) (ts : List String) → length (with_head head ts) ≡ length ts
unfolding with_head
length-with_head head [] = refl
length-with_head head (t ∷ ts) = ap suc (length-with_head head ts)

length-range_from : (start n : ℕ) → length (range_from start n) ≡ n
unfolding range_from
length-range_from start zero = refl
length-range_from start (suc n) = ap suc (length-range_from (suc start) n)

length-product :
    (head : ℕ → String) (ns : List ℕ) (tails : List String)
    → length (product head ns tails) ≡ length ns * length tails
unfolding product
length-product head [] tails = omega arith
length-product head (n ∷ ns) tails =
    let split = length-append (with_head (head n) tails) (product head ns tails) in
    let one = length-with_head (head n) tails in
    let rest = length-product head ns tails in
    omega (arith, split, one, rest, suc-mul (length ns) (length tails))

length-addresses : (show : Addr → String) (a : Addr) (n : ℕ) → length (addresses show a n) ≡ n
unfolding addresses
length-addresses show a zero = refl
length-addresses show a (suc n) =
    ap suc (length-addresses show (record a { value = a.value + 1 }) n)

under_max : (n : ℕ) → ltb max_pattern_expansion n ≡ false → n ≤ max_pattern_expansion
under_max n h = ground arith

counted-Bounded :
    (e : ExpandError) (out : List String) (n : ℕ)
    → length out ≡ n
    → Bounded (if ltb max_pattern_expansion n then failed e else hosts out)
counted-Bounded e out n same =
    if_split Bounded (ltb max_pattern_expansion n) (failed e) (hosts out) (λ h. tt)
      (λ h. subst (λ k. k ≤ max_pattern_expansion) (sym same) (under_max n h))

-- Only the full range of `int` overflows.
full_range :
    (start last : ℕ)
    → ltb last start ≡ false
    → last ≤ max_int
    → ltb max_int (last - start + 1) ≡ true
    → (start ≡ 0) × (last ≡ max_int)
full_range start last above top over = ground arith

module _ (sx : Syntax) where
  -- Numbers of a range are numbers of `int`, and what follows the range is shorter than the text.
  abbrev pub IsSound : Type 0
  IsSound =
      (s : String) (b : Brace)
      → sx.find_brace s ≡ some b
      → (sx.size b.rest < sx.size s) × ((n : ℕ) → b.end ≡ some n → n ≤ max_int)

  join_tails-Bounded :
      (b : Brace) (start count : ℕ) (tails : Expansion)
      → Bounded tails
      → (ltb max_int count ≡ true → Bounded (overflowed b))
      → Bounded (join_tails sx b start count tails)
  unfolding join_tails
  join_tails-Bounded b start count (failed e) ok full = tt
  join_tails-Bounded b start count (overflowed c) ok full = ok
  join_tails-Bounded b start count out_of_fuel ok full = ok
  join_tails-Bounded b start count (hosts tails) ok full =
      let head : ℕ → String = λ n. b.before <> sx.padded b.width n in
      if_split Bounded (ltb max_int count) (overflowed b)
        (if ltb max_pattern_expansion (count * length tails)
          then failed too_large
          else hosts (product head (range_from start count) tails))
        full
        (λ h.
          counted-Bounded too_large (product head (range_from start count) tails)
            (count * length tails)
            (length-product head (range_from start count) tails
              ∙ ap (λ k. k * length tails) (length-range_from start count)))

  expand_range-Bounded :
      (b : Brace) (first last : Option ℕ) (tails : Expansion)
      → b.start ≡ first
      → b.end ≡ last
      → ((n : ℕ) → b.end ≡ some n → n ≤ max_int)
      → Bounded tails
      → Bounded (expand_range sx b first last tails)
  unfolding expand_range
  expand_range-Bounded b none last tails p q top ok = tt
  expand_range-Bounded b (some start) none tails p q top ok = tt
  expand_range-Bounded b (some start) (some last) tails p q top ok =
      let count = last - start + 1 in
      let inside = join_tails sx b start count tails in
      let full : ltb max_int count ≡ true → ltb last start ≡ false → Bounded (overflowed b) =
        λ over above.
          (let ends = full_range start last above (top last q) over in
            (p ∙ ap some (ends.0), q ∙ ap some (ends.1))) in
      if_split Bounded (ltb last start) (failed start_above_end)
        (if ltb max_pattern_expansion count && leb count max_int then failed too_large else inside)
        (λ h. tt)
        (λ above.
          if_split Bounded (ltb max_pattern_expansion count && leb count max_int) (failed too_large)
            inside (λ h. tt)
            (λ h. join_tails-Bounded b start count tails ok (λ over. full over above)))

  expand_braces-Bounded :
      (fuel : ℕ) (s : String) → IsSound → sx.size s < fuel → Bounded (expand_braces sx fuel s)
  unfolding expand_braces expand_found
  expand_braces-Bounded zero s ok h = omega arith
  expand_braces-Bounded (suc fuel) s ok h = elim (Option-cases (sx.find_brace s)) [
    | inl e ↦ rw e (omega arith)
    | inr (b, e) ↦ rw e (
        let shorter = ok s b e in
        let less = shorter.0 in
        expand_range-Bounded b b.start b.end (expand_braces sx fuel b.rest) refl refl (shorter.1)
          (expand_braces-Bounded fuel b.rest ok (omega arith)))
  ]

  expand_prefix-Bounded : (p : Prefix) → Bounded (expand_prefix sx p)
  unfolding expand_prefix
  expand_prefix-Bounded p =
      let host_bits = address_bits p.addr - p.bits in
      let n = 2 ^ host_bits in
      let first = p.addr.value - p.addr.value % n in
      let inner = p.addr.is4 && leb p.bits 30 in
      let count = if inner then n - 2 else n in
      let start : Addr = record { is4 = p.addr.is4; value = if inner then first + 1 else first } in
      let out = addresses sx.show start count in
      if_split Bounded (ltb 10 host_bits) (failed too_large)
        (if ltb max_pattern_expansion count then failed too_large else hosts out) (λ h. tt)
        (λ h. counted-Bounded too_large out count (length-addresses sx.show start count))

  expand_to-Bounded : (start : Addr) (last : ℕ) → Bounded (expand_to sx start last)
  unfolding expand_to
  expand_to-Bounded start last =
      let count = last - start.value + 1 in
      let out = addresses sx.show start count in
      if_split Bounded (ltb last start.value) (failed end_below_start)
        (if ltb max_pattern_expansion count then failed too_large else hosts out) (λ h. tt)
        (λ h. counted-Bounded too_large out count (length-addresses sx.show start count))

  expand_ipv4_range-Bounded :
      (start : Addr) (last : RangeEnd) → Bounded (expand_ipv4_range sx start last)
  unfolding expand_ipv4_range
  expand_ipv4_range-Bounded start (to_addr a) =
      if_split Bounded a.is4 (expand_to sx start a.value) (failed mixed_range)
        (λ h. expand_to-Bounded start a.value) (λ h. tt)
  expand_ipv4_range-Bounded start (to_octet o) =
      expand_to-Bounded start (start.value - start.value % 256 + o)
  expand_ipv4_range-Bounded start neither = tt

  expand_shape-Bounded : (shape : Shape) (s : String) → Bounded (expand_shape sx shape s)
  unfolding expand_shape expand_cidr
  expand_shape-Bounded (cidr none) s = tt
  expand_shape-Bounded (cidr (some p)) s = expand_prefix-Bounded p
  expand_shape-Bounded (range start last) s =
      if_split Bounded start.is4 (expand_ipv4_range sx start last) (failed ipv6_range)
        (λ h. expand_ipv4_range-Bounded start last) (λ h. tt)
  expand_shape-Bounded single s = omega arith

  add_hosts-Bounded :
      (out : List String) (more : Expansion) (go : List String → Expansion)
      → Bounded more
      → ((l : List String) → length l ≤ max_pattern_expansion → Bounded (go l))
      → Bounded (add_hosts out more go)
  unfolding add_hosts
  add_hosts-Bounded out (failed e) go ok rest = tt
  add_hosts-Bounded out (overflowed b) go ok rest = ok
  add_hosts-Bounded out out_of_fuel go ok rest = ok
  add_hosts-Bounded out (hosts more) go ok rest =
      let total = length out + length more in
      if_split Bounded (ltb max_pattern_expansion total) (failed too_large) (go (out ++ more))
        (λ h. tt)
        (λ h.
          rest (out ++ more)
            (let joined = length-append out more in let few = under_max total h in omega arith))

  expand_each-Bounded :
      (ss out : List String) → length out ≤ max_pattern_expansion → Bounded (expand_each sx ss out)
  unfolding expand_each expand_address_pattern
  expand_each-Bounded [] out h = h
  expand_each-Bounded (s ∷ ss) out h =
      let more = expand_shape sx (sx.shape s) s in
      if_split Bounded (sx.has_brace s) (failed unsupported_brace)
        (add_hosts out more (expand_each sx ss)) (λ e. tt)
        (λ e.
          add_hosts-Bounded out more (expand_each sx ss) (expand_shape-Bounded (sx.shape s) s)
            (expand_each-Bounded ss))

  expand_braced-Bounded : (e : Expansion) → Bounded e → Bounded (expand_braced sx e)
  unfolding expand_braced
  expand_braced-Bounded (failed e) ok = tt
  expand_braced-Bounded (overflowed b) ok = ok
  expand_braced-Bounded out_of_fuel ok = ok
  expand_braced-Bounded (hosts ss) ok = expand_each-Bounded ss [] (omega arith)

  -- The expansion of any pattern ends: with at most 1024 hosts, with an error, or with the overflow
  -- at a range from 0 to the largest `int`. The condition: what follows a brace range is shorter than
  -- the text, and the end of a range is a number of `int`.
  pub expand_host_pattern-Bounded : IsSound → (s : String) → Bounded (expand_host_pattern sx s)
  unfolding expand_host_pattern
  expand_host_pattern-Bounded ok s =
      expand_braced-Bounded (expand_braces sx (suc (sx.size s)) s)
        (expand_braces-Bounded (suc (sx.size s)) s ok (omega arith))
