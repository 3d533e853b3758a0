-- ===== src/Patterns.antt =====
-- internal/hostsfile/expand.go: a host of a hosts file may be a pattern that stands for several hosts
-- (`expandHostPattern`). The functions of Go's regexp, strconv, strings and net/netip that it calls
-- are an interface, `Syntax`: they say what a text is, and the expansion is here. An address is a
-- number with its family.
pub mod Bounded
mod Tests
use mping.Base.{
  ℕ, zero, suc, ◌+◌, ◌-◌, ◌*◌, ◌^◌, ◌%◌, Bool, true, false, not, ◌&&◌, Option, none, some, List, [],
  ◌∷◌, ◌++◌, ltb, leb, if◌then◌else◌, length,
}
use mping.Base.Text.{String, ◌<>◌}
use mping.Hosts.{range_from}

abbrev pub max_pattern_expansion : ℕ
max_pattern_expansion = 1024

-- The largest number of Go's `int` on a 64-bit machine.
abbrev pub max_int : ℕ
max_int = 9223372036854775807

pub record Addr : Type 0 where
  pub is4 : Bool
  pub value : ℕ

pub record Prefix : Type 0 where
  pub addr : Addr
  pub bits : ℕ

-- The first brace range of a text: what stands before and after it, its two numbers (`none` is out
-- of range for `strconv.Atoi`) and the width to pad to.
pub record Brace : Type 0 where
  pub before : String
  pub start : Option ℕ
  pub end : Option ℕ
  pub width : ℕ
  pub rest : String

-- What follows the last dash of a text: an address, a last octet, or neither.
pub data RangeEnd : Type 0 where
  to_addr : Addr → RangeEnd
  to_octet : ℕ → RangeEnd
  neither : RangeEnd

-- What a text without braces is: with a slash, and the prefix if it parses; a range from an address;
-- or a single host.
pub data Shape : Type 0 where
  cidr : Option Prefix → Shape
  range : Addr → RangeEnd → Shape
  single : Shape

pub record Syntax : Type 0 where
  pub size : String → ℕ
  pub find_brace : String → Option Brace
  pub has_brace : String → Bool
  pub padded : ℕ → ℕ → String
  pub shape : String → Shape
  pub show : Addr → String

pub data ExpandError : Type 0 where
  too_large bad_number start_above_end unsupported_brace bad_cidr ipv6_range mixed_range bad_end
        end_below_start :
      ExpandError

-- `overflowed` is where the number of hosts of a range is `max_int + 1`, which wraps to a negative
-- `int`: it passes the tests of its size, and `make` panics on it, or, when its product with the
-- number of tails wraps to 0, the loop over the range does not end. `out_of_fuel` is of the model only.
pub data Expansion : Type 0 where
  hosts : List String → Expansion
  overflowed : Brace → Expansion
  failed : ExpandError → Expansion
  out_of_fuel : Expansion

-- Every tail behind one head.
unfoldable pub with_head : String → List String → List String
with_head head [] = []
with_head head (t ∷ ts) = (head <> t) ∷ with_head head ts

unfoldable pub product : (ℕ → String) → List ℕ → List String → List String
product head [] tails = []
product head (n ∷ ns) tails = with_head (head n) tails ++ product head ns tails

-- The addresses from one on, `n` of them.
unfoldable pub addresses : (Addr → String) → Addr → ℕ → List String
addresses show a zero = []
addresses show a (suc n) = show a ∷ addresses show (record a { value = a.value + 1 }) n

unfoldable pub address_bits : Addr → ℕ
address_bits a = if a.is4 then 32 else 128

-- One text more, with the hosts of the others.
unfoldable pub add_hosts : List String → Expansion → (List String → Expansion) → Expansion
add_hosts out (failed e) go = failed e
add_hosts out out_of_fuel go = out_of_fuel
add_hosts out (overflowed b) go = overflowed b
add_hosts out (hosts more) go =
    if ltb max_pattern_expansion (length out + length more)
    then failed too_large
    else go (out ++ more)

module _ (sx : Syntax) where
  -- The tails are expanded: the range stands before each.
  unfoldable pub join_tails : Brace → ℕ → ℕ → Expansion → Expansion
  join_tails b start count (failed e) = failed e
  join_tails b start count out_of_fuel = out_of_fuel
  join_tails b start count (overflowed c) = overflowed c
  join_tails b start count (hosts tails) =
      if ltb max_int count
      then overflowed b
      else if ltb max_pattern_expansion (count * length tails)
      then failed too_large
      else hosts (product (λ n. b.before <> sx.padded b.width n) (range_from start count) tails)

  unfoldable pub expand_range : Brace → Option ℕ → Option ℕ → Expansion → Expansion
  expand_range b none last tails = failed bad_number
  expand_range b (some start) none tails = failed bad_number
  expand_range b (some start) (some last) tails =
      if ltb last start
      then failed start_above_end
      else if ltb max_pattern_expansion (last - start + 1) && leb (last - start + 1) max_int
      then failed too_large
      else join_tails b start (last - start + 1) tails

  -- `expandBraces` on fuel; `size` bytes are enough.
  unfoldable pub expand_found : Option Brace → String → (String → Expansion) → Expansion
  expand_found none s again = hosts (s ∷ [])
  expand_found (some b) s again = expand_range b b.start b.end (again b.rest)

  unfoldable pub expand_braces : ℕ → String → Expansion
  expand_braces zero s = out_of_fuel
  expand_braces (suc fuel) s = expand_found (sx.find_brace s) s (expand_braces fuel)

  -- `expandCIDR`: an IPv4 prefix of at most 30 bits leaves out its first and last address.
  unfoldable pub expand_prefix : Prefix → Expansion
  expand_prefix p =
      let host_bits = address_bits p.addr - p.bits in
      let n = 2 ^ host_bits in
      let first = p.addr.value - p.addr.value % n in
      let inner = p.addr.is4 && leb p.bits 30 in
      let count = if inner then n - 2 else n in
      let start : Addr = record { is4 = p.addr.is4; value = if inner then first + 1 else first } in
      if ltb 10 host_bits
      then failed too_large
      else if ltb max_pattern_expansion count
      then failed too_large
      else hosts (addresses sx.show start count)

  unfoldable pub expand_cidr : Option Prefix → Expansion
  expand_cidr none = failed bad_cidr
  expand_cidr (some p) = expand_prefix p

  unfoldable pub expand_to : Addr → ℕ → Expansion
  expand_to start last =
      if ltb last start.value
      then failed end_below_start
      else if ltb max_pattern_expansion (last - start.value + 1)
      then failed too_large
      else hosts (addresses sx.show start (last - start.value + 1))

  -- `expandIPv4Range`.
  unfoldable pub expand_ipv4_range : Addr → RangeEnd → Expansion
  expand_ipv4_range start (to_addr a) =
      if a.is4 then expand_to start a.value else failed mixed_range
  expand_ipv4_range start (to_octet o) = expand_to start (start.value - start.value % 256 + o)
  expand_ipv4_range start neither = failed bad_end

  unfoldable pub expand_shape : Shape → String → Expansion
  expand_shape (cidr p) s = expand_cidr p
  expand_shape (range start last) s =
      if start.is4 then expand_ipv4_range start last else failed ipv6_range
  expand_shape single s = hosts (s ∷ [])

  -- `expandAddressPattern`.
  unfoldable pub expand_address_pattern : String → Expansion
  expand_address_pattern s = expand_shape (sx.shape s) s

  -- The loop of `expandHostPattern` over the texts without ranges.
  unfoldable pub expand_each : List String → List String → Expansion
  expand_each [] out = hosts out
  expand_each (s ∷ ss) out =
      if sx.has_brace s
      then failed unsupported_brace
      else add_hosts out (expand_address_pattern s) (expand_each ss)

  unfoldable pub expand_braced : Expansion → Expansion
  expand_braced (failed e) = failed e
  expand_braced out_of_fuel = out_of_fuel
  expand_braced (overflowed b) = overflowed b
  expand_braced (hosts ss) = expand_each ss []

  unfoldable pub expand_host_pattern : String → Expansion
  expand_host_pattern s = expand_braced (expand_braces (suc (sx.size s)) s)
