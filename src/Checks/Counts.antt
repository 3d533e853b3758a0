-- ===== src/Checks/Counts.antt =====
-- The counts of internal/stats/httpcheck.go over repeated checks.
use mping.Base.{
  ℕ, ◌+◌, ◌≡◌, refl, ◌∙◌, inl, inr, Bool, not, ◌&&◌, List, [], ◌∷◌, arith, length, if◌then◌else◌,
  Bool-cases,
}
use mping.Base.Int.{ℤ, pos, leb_ℤ, ltb_ℤ}
use mping.Base.Float.{Floats}
use mping.Base.Text.{str_eq}
use mping.Checks.{HttpCheckResult, http_status, set_http_result}

-- The outcome of one request: the status code, the time it took, whether it failed, and when it ended.
pub record Response : Type 0 where
  pub code : ℤ
  pub rtt : ℤ
  pub err : Bool
  pub now : ℕ

-- A response in the range of success and redirection.
abbrev pub is_up : Response → Bool
is_up r = not r.err && leb_ℤ (pos 200) r.code && ltb_ℤ r.code (pos 400)

abbrev pub count_up : List Response → ℕ
count_up [] = 0
count_up (r ∷ rs) = (if is_up r then 1 else 0) + count_up rs

module _ {F : Type 0} (fl : Floats F) where
  unfoldable pub responses : List Response → HttpCheckResult F → HttpCheckResult F
  responses [] h = h
  responses (r ∷ rs) h = responses rs (set_http_result fl r.code r.rtt r.err r.now h)

  http_status-up : (r : Response) → str_eq (http_status fl r.code r.err) "Up" ≡ is_up r
  unfolding http_status
  http_status-up r = elim (Bool-cases r.err) [
    | inl e ↦ rw e refl
    | inr e ↦ elim (Bool-cases (leb_ℤ (pos 200) r.code && ltb_ℤ r.code (pos 400))) [
      | inl h ↦ simp (e, h) refl
      | inr h ↦ simp (e, h) refl
    ]
  ]

  response-counts :
      (r : Response) (h : HttpCheckResult F)
      → let h' = set_http_result fl r.code r.rtt r.err r.now h in
        (h'.up_count ≡ h.up_count + (if is_up r then 1 else 0))
        × (h'.up_count + h'.down_count ≡ h.up_count + h.down_count + 1)
  unfolding set_http_result
  response-counts r h = elim (Bool-cases (is_up r)) [
    | inl e ↦ rw (http_status-up r ∙ e, e) (omega arith, omega arith)
    | inr e ↦ rw (http_status-up r ∙ e, e) (omega arith, omega arith)
  ]

  -- After any responses of a check, it has counted up further exactly the requests that did not fail and
  -- answered with a code from 200 to 399, and down all others.
  pub responses-counts :
      (rs : List Response) (h : HttpCheckResult F)
      → let h' = responses rs h in
        (h'.up_count ≡ h.up_count + count_up rs)
        × (h'.up_count + h'.down_count ≡ h.up_count + h.down_count + length rs)
  unfolding responses
  responses-counts [] h = (omega arith, omega arith)
  responses-counts (r ∷ rs) h =
      let one = response-counts r h in
      let rest = responses-counts rs (set_http_result fl r.code r.rtt r.err r.now h) in
      (omega (arith, one.0, rest.0), omega (arith, one.1, rest.1))
