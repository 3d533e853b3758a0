-- ===== src/Checks/Tests.antt =====
-- A check of internal/stats/httpcheck.go over three requests.
use mping.Base.{refl, ℕ, ◌≡◌, ◌+◌, length, true, false, List, [], ◌∷◌}
use mping.Base.Int.{pos}
use mping.Base.Sample.{whole}
use mping.Checks.{HttpCheckResult, new_http_check, set_http_result, http_status}
use mping.Checks.Counts.{Response, count_up, responses, responses-counts}

abbrev answers : List Response
answers =
    record { code = pos 200; rtt = pos 9; err = false; now = 1 }
    ∷ record { code = pos 503; rtt = pos 9; err = false; now = 2 }
    ∷ record { code = pos 0; rtt = pos 0; err = true; now = 3 }
    ∷ []

abbrev fresh_check : HttpCheckResult ℕ
fresh_check = new_http_check whole "https://example.test"

answers_counted : (responses whole answers fresh_check).up_count ≡ 1
unfolding responses set_http_result http_status new_http_check
answers_counted = refl

responses-counts_example :
    let h' = responses whole answers fresh_check in
    (h'.up_count ≡ fresh_check.up_count + count_up answers)
    × (h'.up_count + h'.down_count ≡ fresh_check.up_count + fresh_check.down_count + length answers)
responses-counts_example = responses-counts whole answers fresh_check
