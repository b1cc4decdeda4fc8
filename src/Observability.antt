-- ===== src/Observability.antt =====
-- internal/observability/observability.go: the provider of traces, over the answers of OpenTelemetry. What
-- is registered for the whole process is left out.
use gophprofile.Base.{◌≡◌, refl, true, Option, none, some, str_eq, if◌then◌else◌}
use gophprofile.Fault.{Error, Result, ok, err, wrap}
use gophprofile.Config.{Otel}

-- `noop` is the zero value, which exports nothing.
pub data Provider : Type 0 where
  noop exporting : Provider

pub record Exporter : Type 0 where
  pub created : Option Error
  pub resource : Option Error
  pub shut_down : Option Error

abbrev created : Option Error → Result Provider → Result Provider
created none next = next
created (some e) next = err (wrap e)

unfoldable pub setup : Otel → Exporter → Result Provider
setup cfg e =
    if str_eq cfg.endpoint ""
    then ok noop
    else created e.created (created e.resource (ok exporting))

unfoldable pub shutdown : Provider → Exporter → Option Error
shutdown noop e = none
shutdown exporting e = elim e.shut_down [ none ↦ none | some x ↦ some (wrap x) ]

-- Without an endpoint, neither the start nor the end of tracing can fail.
silent :
    (cfg : Otel) (e : Exporter)
    → str_eq cfg.endpoint "" ≡ true
    → (setup cfg e ≡ ok noop) × (shutdown noop e ≡ none)
unfolding setup shutdown
silent cfg e h = (rw h refl, refl)
