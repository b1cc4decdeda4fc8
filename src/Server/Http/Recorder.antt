-- ===== src/Server/Http/Recorder.antt =====
-- internal/server/http/middleware.go: the recorder of an answer, and the middleware over it, the recovery
-- from a panic inside of the log, and the log inside of the metrics. Durations and the other fields of
-- the log are left out. A handler is what it writes and how it ends.
use gophprofile.Base.{
  ℕ, ◌+◌, ◌==◌, ltb, leb, ◌≡◌, not, ◌&&◌, ◌||◌, String, Bool, true, false, Option, none, some, List,
  [], ◌∷◌, str_eq, if◌then◌else◌,
}
use gophprofile.Server.Http.Middleware.{Level, log_level, service_path, normalize_method}

-- http.ResponseWriter; `write` gets as many bytes as the writer takes.
pub record ResponseWriter (W : Type 0) : Type 0 where
  pub write_header : ℕ → W → W
  pub write : ℕ → W → W

-- The answer on the wire, and the bytes that Write has taken, which are sent unless the request is HEAD.
-- An informational status does not start the answer, a WriteHeader after the start is superfluous
-- to the server, and a Write before any start stands for the status 200. That the server panics at a
-- status that does not have three digits is left out.
pub record Wire : Type 0 where
  pub started : Bool
  pub status : ℕ
  pub taken : ℕ

-- 1xx, but for 101
abbrev pub is_informational : ℕ → Bool
is_informational status = ltb status 200 && not (status == 101)

abbrev pub server_write_header : ℕ → Wire → Wire
server_write_header status w =
    if w.started || is_informational status then w else record w { started = true; status = status }

abbrev pub server_write : ℕ → Wire → Wire
server_write n w = let w' = server_write_header 200 w in record w' { taken = w'.taken + n }

instance abbrev pub wire_writer : ResponseWriter Wire
wire_writer = record { write_header = server_write_header; write = server_write }

pub record Recorder (W : Type 0) : Type 0 where
  pub writer : W
  pub status : ℕ
  pub written : ℕ
  pub wrote : Bool

-- What a handler calls.
pub data Call : Type 0 where
  write_header : ℕ → Call
  write : ℕ → Call

-- A status that ends the informational ones, of three digits.
abbrev pub is_final : ℕ → Bool
is_final status = leb 200 status && leb status 999

-- A call that is not of an informational status.
abbrev pub IsFinal : Call → Type 0
IsFinal (write_header status) = is_final status ≡ true
IsFinal (write n) = Unit

-- How a handler ends.
pub data Ended : Type 0 where
  returned : Ended
  panicked : (abort : Bool) → Ended

pub record Run : Type 0 where
  pub calls : List Call
  pub ended : Ended

-- What leaves a middleware: an answer, or the panic that aborts it.
pub data Outcome (W : Type 0) : Type 0 where
  served aborted : W → Outcome W

pub record Entry : Type 0 where
  pub level : Level
  pub status : ℕ
  pub bytes : ℕ

-- The labels of RED metrics.
pub record Observation : Type 0 where
  pub method : String
  pub route : String
  pub status : ℕ

-- `pattern` is chi's, empty where no route has matched.
pub record Request : Type 0 where
  pub method : String
  pub path : String
  pub pattern : String

pub record Answer (W : Type 0) : Type 0 where
  pub outcome : Outcome W
  pub log : Option Entry
  pub observation : Option Observation

abbrev pub route_unmatched : String
route_unmatched = "unmatched"

module _ {W : Type 0} ⦃out : ResponseWriter W⦄ where
  -- &recorder{ResponseWriter: w, status: http.StatusOK}
  abbrev pub fresh : W → Recorder W
  fresh w = record { writer = w; status = 200; written = 0; wrote = false }

  abbrev pub recorder_write_header : ℕ → Recorder W → Recorder W
  recorder_write_header status r = if r.wrote then r else record {
    writer = out.write_header status r.writer;
    status = status;
    written = r.written;
    wrote = true;
  }

  abbrev pub recorder_write : ℕ → Recorder W → Recorder W
  recorder_write n r = record {
    writer = out.write n r.writer;
    status = r.status;
    written = r.written + n;
    wrote = true;
  }

  instance abbrev pub recorder_writer : ResponseWriter (Recorder W)
  recorder_writer = record { write_header = recorder_write_header; write = recorder_write }

  abbrev pub call : Call → W → W
  call (write_header status) w = out.write_header status w
  call (write n) w = out.write n w

  unfoldable pub make_calls : List Call → W → W
  make_calls [] w = w
  make_calls (c ∷ cs) w = make_calls cs (call c w)

  -- An answer that is begun is left as it is; else the error is written, with a body of a length.
  abbrev pub answered : ℕ → Bool → Recorder W → Outcome (Recorder W)
  answered message true r = served r
  answered message false r = served (recorder_write message (recorder_write_header 500 r))

  abbrev pub recovered : ℕ → Ended → Recorder W → Outcome (Recorder W)
  recovered message returned r = served r
  recovered message (panicked true) r = aborted r
  recovered message (panicked false) r = answered message r.wrote r

module _ {W : Type 0} ⦃out : ResponseWriter W⦄ where
  -- recovering; `message` is the length of its body. The writer is the recorder of `logging`.
  unfoldable pub recovering : ℕ → Run → Recorder W → Outcome (Recorder W)
  unfolding make_calls
  recovering message run r = recovered message run.ended (make_calls run.calls r)

  abbrev entry : String → Recorder W → Entry
  entry path r = record { level = log_level path r.status; status = r.status; bytes = r.written }

  -- A panic goes past the record of the log.
  abbrev pub logged : String → Outcome (Recorder W) → Answer W
  logged path (served r) = record {
    outcome = served r.writer;
    log = some (entry path r);
    observation = none;
  }
  logged path (aborted r) = record { outcome = aborted r.writer; log = none; observation = none }

  unfoldable pub logging : ℕ → Request → Run → W → Answer W
  unfolding recovering
  logging message q run w = logged q.path (recovering message run (fresh w))

abbrev pub route_label : String → String
route_label pattern = if str_eq pattern "" then route_unmatched else pattern

abbrev observed_status : Request → ℕ → Observation
observed_status q status = record {
  method = normalize_method q.method;
  route = route_label q.pattern;
  status = status;
}

module _ {W : Type 0} ⦃out : ResponseWriter W⦄ where
  abbrev pub observed : Request → Answer (Recorder W) → Answer W
  observed q a = elim a.outcome [
    | served r ↦ record {
      outcome = served r.writer;
      log = a.log;
      observation = some (observed_status q r.status);
    }
    | aborted r ↦ record { outcome = aborted r.writer; log = a.log; observation = none }
  ]

  unfoldable pub measuring : ℕ → Request → Run → W → Answer W
  unfolding logging
  measuring message q run w =
      if service_path q.path
      then logging message q run w
      else observed q (logging message q run (fresh w))

  -- What New puts before all routes, as far as it has to do with the answer, the log and the metrics;
  -- `metrics` says whether requests are measured.
  unfoldable pub handle : (metrics : Bool) → ℕ → Request → Run → W → Answer W
  unfolding measuring logging
  handle true message q run w = measuring message q run w
  handle false message q run w = logging message q run w
