-- ===== src/Server/Http/Handled.antt =====
-- internal/server/http/middleware.go: a request in the middleware that New puts before all routes.
use gophprofile.Base.{◌≡◌, Bool, true, false, Option, none, some}
use gophprofile.Server.Http.Middleware.{normalize_method, log_level}
use gophprofile.Server.Http.Recorder.{
  ResponseWriter, Wire, wire_writer, Recorder, recorder_writer, Run, Outcome, served, aborted,
  Entry, Observation, Request, route_label,
}
use gophprofile.Server.Http.Recorded.{IsWriter, Wire-IsWriter, Recorder-IsWriter}
use gophprofile.Server.Http.Recovered.{sent_status}

-- The record of a log, and what is measured, by the answer on the wire and by the run of the handler.
abbrev pub sent_entry : Request → Run → Wire → Entry
sent_entry q run v = record {
  level = log_level q.path (sent_status run.calls run.ended);
  status = sent_status run.calls run.ended;
  bytes = v.taken;
}

abbrev pub sent_observation : Request → Run → Observation
sent_observation q run = record {
  method = normalize_method q.method;
  route = route_label q.pattern;
  status = sent_status run.calls run.ended;
}

module _ {W : Type 0} ⦃out : ResponseWriter W⦄ ⦃law : IsWriter W⦄ where
  -- What is served has the status of the run and is logged so; what is aborted is not logged.
  abbrev pub IsLogged : Request → Run → Outcome W → Option Entry → Type 0
  IsLogged q run (served w) l =
      ((law.wire w).status ≡ sent_status run.calls run.ended)
      × (l ≡ some (sent_entry q run (law.wire w)))
  IsLogged q run (aborted w) l = l ≡ none

  -- What is served is measured so where `measured` says it is; nothing else is measured.
  abbrev pub IsMeasured :
      (measured : Bool) → Request → Run → Outcome W → Option Observation → Type 0
  IsMeasured false q run o m = m ≡ none
  IsMeasured true q run (served w) m = m ≡ some (sent_observation q run)
  IsMeasured true q run (aborted w) m = m ≡ none
