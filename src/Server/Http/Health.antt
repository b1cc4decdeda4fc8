-- ===== src/Server/Http/Health.antt =====
-- internal/server/http/health.go. A check is what Ping answered; the limit of its time is one of its
-- errors.
use gophprofile.Base.{
  ℕ, String, ◌≡◌, ◌↔◌, Bool, false, not, Option, none, some, [], ◌∷◌, All, any, arith, str_eq,
  if◌then◌else◌, StringMap,
}
use gophprofile.Fault.{Error}

abbrev status_ok : String
status_ok = "ok"

abbrev status_degraded : String
status_degraded = "degraded"

abbrev status_unavailable : String
status_unavailable = "unavailable"

pub record HealthResponse : Type 0 where
  pub status : String
  pub components : StringMap String

unfoldable pub check_status : Option Error → String
check_status none = status_ok
check_status (some e) = status_unavailable

-- The map that the goroutines fill, one entry each.
unfoldable pub components_of : StringMap (Option Error) → StringMap String
unfolding check_status
components_of [] = []
components_of ((name, check) ∷ checks) = (name, check_status check) ∷ components_of checks

abbrev degraded : StringMap String → Bool
degraded components = any (λ c. not (str_eq c.1 status_ok)) components

unfoldable pub health : StringMap (Option Error) → ℕ × HealthResponse
unfolding components_of
health checks =
    let components = components_of checks in
    if degraded components
    then (503, record { status = status_degraded; components = components })
    else (200, record { status = status_ok; components = components })

degraded_iff :
    (checks : StringMap (Option Error))
    → (degraded (components_of checks) ≡ false) ↔ All (λ c. c.1 ≡ none) checks
unfolding components_of
degraded_iff [] = ground arith
degraded_iff ((name, none) ∷ checks) = ground (arith, degraded_iff checks)
degraded_iff ((name, some e) ∷ checks) = ground arith

-- The service is well exactly when every check has succeeded.
health_iff :
    (checks : StringMap (Option Error)) → ((health checks).0 ≡ 200) ↔ All (λ c. c.1 ≡ none) checks
unfolding health
health_iff checks = ground (arith, degraded_iff checks)
