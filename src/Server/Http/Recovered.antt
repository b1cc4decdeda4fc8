-- ===== src/Server/Http/Recovered.antt =====
-- internal/server/http/middleware.go: the answer after a panic or none.
use gophprofile.Base.{ℕ, ◌≡◌, refl, ◌∙◌, ap, Bool, true, false, List, [], ◌∷◌, All, arith}
use gophprofile.Server.Http.Recorder.{
  ResponseWriter, Wire, server_write_header, server_write, wire_writer, Recorder, recorder_writer,
  recorder_write_header, fresh, Call, write_header, write, call, make_calls, Ended, returned,
  panicked, IsFinal, Outcome, served, aborted, answered, recovered,
}
use gophprofile.Server.Http.Recorded.{
  IsWriter, Wire-IsWriter, Follows, Recorder-IsWriter, header-Follows, body-Follows,
  make_calls-Valid, IsUnwritten, fresh-Follows,
}

-- The status that a run is answered by: that of the first call, or 500 after a panic before any.
abbrev first_status : List Call → ℕ
first_status [] = 200
first_status (write_header status ∷ cs) = status
first_status (write n ∷ cs) = 200

abbrev pub sent_status : List Call → Ended → ℕ
sent_status [] (panicked false) = 500
sent_status cs e = first_status cs

abbrev pub unwritten : Wire
unwritten = record { started = false; status = 200; taken = 0 }

started_status :
    (cs : List Call) (w : Wire) → w.started ≡ true → (make_calls cs w).status ≡ w.status
unfolding make_calls
started_status [] w h = refl
started_status (write_header s ∷ cs) w h = started_status cs _ (ground arith) ∙ (ground arith)
started_status (write n ∷ cs) w h = started_status cs _ (ground arith) ∙ (ground arith)

unwritten_status :
    (cs : List Call) → All IsFinal cs → (make_calls cs unwritten).status ≡ first_status cs
unfolding make_calls
unwritten_status [] f = refl
unwritten_status (write_header s ∷ cs) f =
    started_status cs _ (ground (arith, f.0)) ∙ ground (arith, f.0)
unwritten_status (write n ∷ cs) f = started_status cs _ refl

abbrev pub writer_of : {W : Type 0} → Outcome W → W
writer_of (served w) = w
writer_of (aborted w) = w

module _ {W : Type 0} ⦃out : ResponseWriter W⦄ ⦃law : IsWriter W⦄ where
  call-wire :
      (c : Call) (w : W) → IsFinal c → law.Valid w → law.wire (call c w) ≡ call c (law.wire w)
  call-wire (write_header status) w f h = (law.header status w f h).1
  call-wire (write n) w f h = (law.body n w h).1

  make_calls-wire :
      (cs : List Call) (w : W)
      → All IsFinal cs
      → law.Valid w
      → law.wire (make_calls cs w) ≡ make_calls cs (law.wire w)
  unfolding make_calls
  make_calls-wire [] w f h = refl
  make_calls-wire (c ∷ cs) w f h =
      make_calls-wire cs (call c w) f.1 (make_calls-Valid (c ∷ []) w (f.0, tt) h)
      ∙ ap (λ v. make_calls cs v) (call-wire c w f.0 h)

module _ {W : Type 0} ⦃out : ResponseWriter W⦄ ⦃law : IsWriter W⦄ where
  keeps_wrote : (cs : List Call) (r : Recorder W) → r.wrote ≡ true → (make_calls cs r).wrote ≡ true
  unfolding make_calls
  keeps_wrote [] r h = h
  keeps_wrote (write_header s ∷ cs) r h = keeps_wrote cs _ (ground arith)
  keeps_wrote (write n ∷ cs) r h = keeps_wrote cs _ refl

  fresh_wrote : (c : Call) (cs : List Call) (w : W) → (make_calls (c ∷ cs) (fresh w)).wrote ≡ true
  unfolding make_calls
  fresh_wrote (write_header s) cs w = keeps_wrote cs _ refl
  fresh_wrote (write n) cs w = keeps_wrote cs _ refl

  answered-Follows :
      (message : ℕ) (b : Bool) (r : Recorder W)
      → Follows r
      → Follows (writer_of (answered message b r))
  answered-Follows message true r h = h
  answered-Follows message false r h =
      (body-Follows message (recorder_write_header 500 r) (header-Follows 500 r refl h).0).0

  pub recovered-Follows :
      (message : ℕ) (e : Ended) (r : Recorder W)
      → Follows r
      → Follows (writer_of (recovered message e r))
  recovered-Follows message returned r h = h
  recovered-Follows message (panicked true) r h = h
  recovered-Follows message (panicked false) r h = answered-Follows message r.wrote r h

  -- The status on the wire of a recorder.
  abbrev pub status_of : Recorder W → ℕ
  status_of r = (law.wire r.writer).status

  run_status :
      (cs : List Call) (w : W)
      → All IsFinal cs
      → law.Valid w
      → IsUnwritten w
      → status_of (make_calls cs (fresh w)) ≡ first_status cs
  run_status cs w f h e =
      ap (λ v. v.status) (make_calls-wire cs (fresh w) f (fresh-Follows w h e))
      ∙ rw e (unwritten_status cs f)

  pub recovered_status :
      (message : ℕ) (cs : List Call) (e : Ended) (w : W)
      → All IsFinal cs
      → law.Valid w
      → IsUnwritten w
      → status_of (writer_of (recovered message e (make_calls cs (fresh w)))) ≡ sent_status cs e
  unfolding make_calls
  recovered_status message [] returned w f h e = run_status [] w f h e
  recovered_status message (c ∷ cs) returned w f h e = run_status (c ∷ cs) w f h e
  recovered_status message [] (panicked true) w f h e = run_status [] w f h e
  recovered_status message (c ∷ cs) (panicked true) w f h e = run_status (c ∷ cs) w f h e
  recovered_status message [] (panicked false) w c h e =
      let (f, first) = header-Follows 500 (fresh w) refl (fresh-Follows w h e) in
      let (g, second) = body-Follows message (recorder_write_header 500 (fresh w)) f in
      ap (λ v. v.status)
        (second ∙ ap (λ v. server_write message v) (first ∙ ap (λ v. server_write_header 500 v) e))
  recovered_status message (c ∷ cs) (panicked false) w f h e =
      rw (fresh_wrote c cs w) (run_status (c ∷ cs) w f h e)
