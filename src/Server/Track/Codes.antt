-- ===== src/Server/Track/Codes.antt =====
-- crates/xrouter-server/src/track.rs: the codes of errors.
use xrouter.Common.{
  ℕ, ◌≡◌, ◌&&◌, Option, none, some, List, [], ◌∷◌, Text, codes, leb, ◌==◌, if◌then◌else◌, option_or,
  arith,
}

unfoldable pub error_code_for_status : ℕ → ℕ
error_code_for_status status =
    if leb 200 status && leb status 299
    then 200
    else if status == 400
    then 400
    else if status == 401
    then 401
    else if status == 408
    then 408
    else if status == 429
    then 429
    else if status == 500
    then 500
    else if status == 502
    then 502
    else if status == 503
    then 503
    else if status == 504
    then 408
    else 500

unfoldable pub status_for_code : ℕ → ℕ
status_for_code code =
    if code == 200
    then 200
    else if code == 400
    then 400
    else if code == 401
    then 401
    else if code == 408
    then 408
    else if code == 429
    then 429
    else if code == 500
    then 500
    else if code == 502
    then 502
    else if code == 503
    then 503
    else 500

unfoldable pub error_string_for_code : ℕ → Text
error_string_for_code code =
    if code == 200
    then codes "OK"
    else if code == 400
    then codes "bad_request"
    else if code == 401
    then codes "auth"
    else if code == 404
    then codes "unknown_tier"
    else if code == 408
    then codes "timeout"
    else if code == 429
    then codes "quota_exceeded"
    else if code == 500
    then codes "internal_error"
    else if code == 502
    then codes "bad_gateway"
    else if code == 503
    then codes "tier_exhausted"
    else codes "unknown"

abbrev pub code_map : List (ℕ × Text)
code_map =
    (200, codes "OK")
    ∷ (400, codes "bad_request")
    ∷ (401, codes "auth")
    ∷ (404, codes "unknown_tier")
    ∷ (408, codes "timeout")
    ∷ (429, codes "quota_exceeded")
    ∷ (500, codes "internal_error")
    ∷ (502, codes "bad_gateway")
    ∷ (503, codes "tier_exhausted")
    ∷ []

unfoldable pub find_code : ℕ → List (ℕ × Text) → Option Text
find_code code [] = none
find_code code ((c, s) ∷ cs) = if code == c then some s else find_code code cs

-- The text of a code is the one that the map of codes lists for it, and "unknown" for a code that is
-- not listed; a status that is stored as a code and read back is stored as the same code.
pub error_string-code_map :
    (code : ℕ)
    → (error_string_for_code code ≡ option_or (find_code code code_map) (codes "unknown"))
      × (error_code_for_status (status_for_code (error_code_for_status code))
          ≡ error_code_for_status code)
unfolding error_string_for_code find_code error_code_for_status status_for_code
error_string-code_map code = (ground arith, ground arith)
