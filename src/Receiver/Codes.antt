-- ===== src/Receiver/Codes.antt =====
-- The texts for ICMP errors in internal/pinger/icmp_errors.go.
use mping.Base.{ℕ, ◌≡◌, refl, true, false, List, [], ◌∷◌, ◌==◌, if◌then◌else◌, if_split}
use mping.Base.Int.{ℤ}
use mping.Base.Text.{String, ◌<>◌, is_empty, str_eq-false, str_eq_iff}
use text.Mathlib.TextLemmas.{append-eq-nil_iff}

-- The ICMP types that the receiver tells apart.
pub data IcmpType : Type 0 where
  echo_reply_v4 dest_unreach_v4 time_exceeded_v4 param_problem_v4 : IcmpType
  echo_reply_v6 dest_unreach_v6 packet_too_big_v6 time_exceeded_v6 param_problem_v6 : IcmpType
  other_type : IcmpType

abbrev pub Codes : Type 0
Codes = List (ℕ × String)

abbrev pub dest_unreach_codes : Codes
dest_unreach_codes =
    (0, "Destination Network Unreachable")
    ∷ (1, "Destination Host Unreachable")
    ∷ (2, "Destination Protocol Unreachable")
    ∷ (3, "Destination Port Unreachable")
    ∷ (4, "Fragmentation Needed")
    ∷ (5, "Source Route Failed")
    ∷ (6, "Destination Network Unknown")
    ∷ (7, "Destination Host Unknown")
    ∷ (8, "Source Host Isolated")
    ∷ (9, "Network Administratively Prohibited")
    ∷ (10, "Host Administratively Prohibited")
    ∷ (11, "Network Unreachable for ToS")
    ∷ (12, "Host Unreachable for ToS")
    ∷ (13, "Communication Administratively Prohibited")
    ∷ (14, "Host Precedence Violation")
    ∷ (15, "Precedence Cutoff in Effect")
    ∷ []

abbrev pub dest_unreach_v6_codes : Codes
dest_unreach_v6_codes =
    (0, "No Route to Destination")
    ∷ (1, "Communication with Destination Administratively Prohibited")
    ∷ (2, "Beyond Scope of Source Address")
    ∷ (3, "Address Unreachable")
    ∷ (4, "Port Unreachable")
    ∷ (5, "Source Address Failed Ingress/Egress Policy")
    ∷ (6, "Reject Route to Destination")
    ∷ []

abbrev pub time_exceeded_codes : Codes
time_exceeded_codes = (0, "Time Exceeded") ∷ (1, "Fragment Reassembly Time Exceeded") ∷ []

abbrev pub time_exceeded_v6_codes : Codes
time_exceeded_v6_codes =
    (0, "Hop Limit Exceeded in Transit") ∷ (1, "Fragment Reassembly Time Exceeded") ∷ []

abbrev pub param_problem_codes : Codes
param_problem_codes =
    (0, "Parameter Problem") ∷ (1, "Missing Required Option") ∷ (2, "Bad Length") ∷ []

abbrev pub param_problem_v6_codes : Codes
param_problem_v6_codes =
    (0, "Erroneous Header Field Encountered")
    ∷ (1, "Unrecognized Next Header Type Encountered")
    ∷ (2, "Unrecognized IPv6 Option Encountered")
    ∷ []

unfoldable pub lookup_icmp_code : Codes → ℕ → String → String
lookup_icmp_code [] code fallback = fallback
lookup_icmp_code ((c, text) ∷ codes) code fallback =
    if c == code then text else lookup_icmp_code codes code fallback

unfoldable pub icmp_error_string : IcmpType → ℕ → String
icmp_error_string type code = elim type [
  | dest_unreach_v4 ↦ lookup_icmp_code dest_unreach_codes code "Destination Unreachable"
  | time_exceeded_v4 ↦ lookup_icmp_code time_exceeded_codes code "Time Exceeded"
  | param_problem_v4 ↦ lookup_icmp_code param_problem_codes code "Parameter Problem"
  | _ ↦ "ICMP Error"
]

unfoldable pub icmp_v6_error_string : IcmpType → ℕ → String
icmp_v6_error_string type code = elim type [
  | dest_unreach_v6 ↦ lookup_icmp_code dest_unreach_v6_codes code "Destination Unreachable"
  | packet_too_big_v6 ↦ "Packet Too Big"
  | time_exceeded_v6 ↦ lookup_icmp_code time_exceeded_v6_codes code "Time Exceeded"
  | param_problem_v6 ↦ lookup_icmp_code param_problem_v6_codes code "Parameter Problem"
  | _ ↦ "ICMPv6 Error"
]

-- `fmt.Sprintf` writes the number as `itoa` does.
unfoldable pub packet_too_big_string : (ℤ → String) → ℤ → String
packet_too_big_string itoa mtu = "Packet Too Big (MTU=" <> (itoa mtu <> ")")

-- No text of a table is empty.
abbrev Texts : Codes → Type 0
Texts [] = Unit {0}
Texts ((c, text) ∷ codes) = (is_empty text ≡ false) × Texts codes

lookup-Texts :
    (codes : Codes) (code : ℕ) (fallback : String)
    → Texts codes
    → is_empty fallback ≡ false
    → is_empty (lookup_icmp_code codes code fallback) ≡ false
unfolding lookup_icmp_code
lookup-Texts [] code fallback t f = f
lookup-Texts ((c, text) ∷ codes) code fallback (e, t) f =
    if_split (λ (s : String). is_empty s ≡ false) (c == code) text
      (lookup_icmp_code codes code fallback) (λ h. e) (λ h. lookup-Texts codes code fallback t f)

dest_unreach_codes-Texts : Texts dest_unreach_codes
dest_unreach_codes-Texts = (
  refl,
  (
    refl,
    (
      refl,
      (
        refl,
        (
          refl,
          (
            refl,
            (refl, (refl, (refl, (refl, (refl, (refl, (refl, (refl, (refl, (refl, tt)))))))))),
          ),
        ),
      ),
    ),
  ),
)

pub icmp_error_string-text :
    (type : IcmpType) (code : ℕ) → is_empty (icmp_error_string type code) ≡ false
unfolding icmp_error_string
icmp_error_string-text type code = elim type as (λ k. is_empty (icmp_error_string k code) ≡ false) [
  | dest_unreach_v4 ↦
      lookup-Texts dest_unreach_codes code "Destination Unreachable" dest_unreach_codes-Texts refl
  | time_exceeded_v4 ↦ lookup-Texts time_exceeded_codes code "Time Exceeded" (refl, (refl, tt)) refl
  | param_problem_v4 ↦
      lookup-Texts param_problem_codes code "Parameter Problem" (refl, (refl, (refl, tt))) refl
  | _ ↦ refl
]

pub icmp_v6_error_string-text :
    (type : IcmpType) (code : ℕ) → is_empty (icmp_v6_error_string type code) ≡ false
unfolding icmp_v6_error_string
icmp_v6_error_string-text type code =
    elim type as (λ k. is_empty (icmp_v6_error_string k code) ≡ false) [
      | dest_unreach_v6 ↦
          lookup-Texts dest_unreach_v6_codes code "Destination Unreachable"
            (refl, (refl, (refl, (refl, (refl, (refl, (refl, tt))))))) refl
      | time_exceeded_v6 ↦
          lookup-Texts time_exceeded_v6_codes code "Time Exceeded" (refl, (refl, tt)) refl
      | param_problem_v6 ↦
          lookup-Texts param_problem_v6_codes code "Parameter Problem" (refl, (refl, (refl, tt)))
            refl
      | _ ↦ refl
    ]

pub packet_too_big_string-text :
    (itoa : ℤ → String) (mtu : ℤ) → is_empty (packet_too_big_string itoa mtu) ≡ false
unfolding packet_too_big_string
packet_too_big_string-text itoa mtu =
    str_eq-false ("Packet Too Big (MTU=" <> (itoa mtu <> ")")) "" (λ e.
      let no : false ≡ true = (str_eq_iff "Packet Too Big (MTU=" "").1 (append-eq-nil_iff.0 e).0 in
      cc)
