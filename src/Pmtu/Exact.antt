-- ===== src/Pmtu/Exact.antt =====
-- internal/pinger/pmtu.go on a path that carries exactly the sizes up to a limit.
use native.Mathlib.Numerals.{unary_clauses}
use mping.Base.{
  ℕ, zero, suc, ◌+◌, ◌-◌, ◌*◌, ◌^◌, ◌/◌, ◌≤◌, ◌<◌, ◌≡◌, refl, ◌∙◌, ap, ◌⊎◌, inl, inr, true, false,
  arith, ltb, leb, ltb→lt, Bool-cases, if◌then◌else◌,
}
use mping.Base.Int.{ℤ, pos, leb_ℤ}
use mping.Base.Text.{String}
use mping.Pmtu.{
  fits, blocked, payload, Network, baseline, narrow, largest_int, max_rounds, after_baseline,
  discover_max_payload,
}
use mping.Pmtu.Search.{Found, Confirmed, Refused, discover_max_payload-Found}

-- Every attempt of a size up to `limit` is answered, none above it is, and nothing is cancelled.
pub record CarriesUpTo (net : Network) (limit : ℕ) : Type 0 where
  pub carries : (n s : ℕ) → s ≤ limit → net.answer n s ≡ fits
  pub refuses : (n s : ℕ) → limit < s → (h : String) × (net.answer n s ≡ blocked h)
  pub undone : (n : ℕ) → net.is_done n ≡ false
  pub has_id : net.id_free ≡ true

narrow-payload :
    (fuel : ℕ) (net : Network) (n low high : ℕ) (hop : String) (limit : ℕ)
    → CarriesUpTo net limit
    → high < low + 2 ^ fuel
    → high < 2 ^ 62
    → (s : ℕ) × (h : String) × (narrow fuel net n low high hop ≡ payload s h)
unfolding narrow
narrow-payload zero net n low high hop limit c small int =
    let one : suc high ≤ suc low = simp unary_clauses at small in
    let e : ltb low high ≡ false = ground arith in rw (narrow, e) (low, hop, refl)
narrow-payload (suc fuel) net n low high hop limit c small int =
    let mid = (low + high + 1) / 2 in
    let half : suc high ≤ low + 2 ^ fuel * 2 = simp unary_clauses at small in
    elim (Bool-cases (ltb low high)) [
      | inr e ↦ rw (narrow, e) (low, hop, refl)
      | inl e ↦
          let lt : low < high = ltb→lt low high e in
          let x = c.undone n in
          let room : ltb largest_int (low + high + 1) ≡ false = ground arith in
          elim (Bool-cases (leb mid limit)) [
            | inl m ↦
                let a = c.carries n mid (ground arith) in
                rw (narrow, e, x, room, a)
                  (narrow-payload fuel net (n + 1) mid high hop limit c (omega arith) (omega arith))
            | inr m ↦
                let (h, a) = c.refuses n mid (ground arith) in
                rw (narrow, e, x, room, a)
                  (narrow-payload fuel net (n + 1) low (mid - 1) _ limit c (omega arith)
                    (omega arith))
          ]
    ]

Confirmed-limit :
    (net : Network) (limit s : ℕ) → CarriesUpTo net limit → Confirmed net s → s ≤ limit
Confirmed-limit net limit s c (n, e) = elim (Bool-cases (leb s limit)) [
  | inl m ↦ ground arith
  | inr m ↦ let (h, a) = c.refuses n s (ground arith) in cc
]

Refused-limit : (net : Network) (limit s : ℕ) → CarriesUpTo net limit → Refused net s → limit < s
Refused-limit net limit s c (n, h, e) = elim (Bool-cases (leb s limit)) [
  | inl m ↦ let a = c.carries n s (ground arith) in cc
  | inr m ↦ ground arith
]

-- On a path that carries exactly the sizes up to `limit`, the search returns a payload, the smaller of
-- the start and `limit`, for every positive start below 2^62 and every baseline that the path carries.
pub discover_max_payload-limit :
    (net : Network) (start : ℕ) (least : ℤ) (limit : ℕ)
    → CarriesUpTo net limit
    → 0 < start
    → start < 2 ^ 62
    → baseline start least ≤ limit
    → (h : String) × (discover_max_payload net (pos start) least
        ≡ payload (if leb start limit then start else limit) h)
discover_max_payload-limit net start least limit c p small b =
    let low = baseline start least in
    let under : low ≤ start = ground arith in
    let positive : leb_ℤ (pos start) (pos zero) ≡ false = ground arith in
    let run : discover_max_payload net (pos start) least ≡ narrow max_rounds net 2 low start "" =
      unfold discover_max_payload after_baseline in
      simp (discover_max_payload, after_baseline, positive, c.undone, c.has_id, c.carries 0 low b)
        refl in
    let (s, h, e) = narrow-payload max_rounds net 2 low start "" limit c (omega arith) small in
    let f : Found net low start (payload s h) =
      rw (run ∙ e) at (discover_max_payload-Found net (pos start) least small) in
    let carried = Confirmed-limit net limit s c f.2 in
    let above : (s ≡ start) ⊎ (limit < s + 1) = elim f.3 [
      | inl q ↦ inl q
      | inr q ↦ inr (Refused-limit net limit (s + 1) c q)
    ] in
    let smaller : s ≡ (if leb start limit then start else limit) =
      ground (arith, above, carried, f.1) in
    (h, run ∙ e ∙ ap (λ x. payload x h) smaller)
