-- ===== src/Server/Http/Recorded.antt =====
-- internal/server/http/middleware.go: what is logged and measured of an answer is its own.
use gophprofile.Base.{
  ℕ, ◌+◌, ◌≡◌, refl, sym, ◌∙◌, subst, ◌⊎◌, inl, inr, Bool, true, false, List, [], ◌∷◌, All, arith,
  Bool-cases,
}
use gophprofile.Server.Http.Recorder.{
  ResponseWriter, Wire, server_write_header, server_write, wire_writer, Recorder, recorder_writer,
  recorder_write_header, recorder_write, fresh, Call, write_header, write, call, make_calls,
  is_final, IsFinal,
}

-- A writer through which the calls reach a wire.
pub record IsWriter (W : Type 0) ⦃out : ResponseWriter W⦄ : Type 1 where
  pub Valid : W → Type 0
  pub wire : W → Wire
  pub header :
      (status : ℕ) (w : W)
      → is_final status ≡ true
      → Valid w
      → Valid (out.write_header status w)
        × (wire (out.write_header status w) ≡ server_write_header status (wire w))
  pub body :
      (n : ℕ) (w : W)
      → Valid w
      → Valid (out.write n w) × (wire (out.write n w) ≡ server_write n (wire w))

instance abbrev pub Wire-IsWriter : IsWriter Wire
Wire-IsWriter = record {
  Valid = λ w. Unit;
  wire = λ w. w;
  header = λ status w f h. (tt, refl);
  body = λ n w h. (tt, refl);
}

-- What is recorded is what the wire has.
pub record Agrees (status written : ℕ) (wrote : Bool) (w : Wire) : Type 0 where
  pub same_status : status ≡ w.status
  pub same_length : written ≡ w.taken
  pub same_start : wrote ≡ w.started
  pub unwritten : (wrote ≡ true) ⊎ (status ≡ 200)

header-Agrees :
    (status n s : ℕ) (b : Bool) (w : Wire)
    → b ≡ false
    → is_final s ≡ true
    → Agrees status n b w
    → Agrees s n true (server_write_header s w)
header-Agrees status n s b w e f h = record {
  same_status = ground arith;
  same_length = ground arith;
  same_start = ground arith;
  unwritten = inl refl;
}

body-Agrees :
    (status n k : ℕ) (b : Bool) (w : Wire)
    → Agrees status n b w
    → Agrees status (n + k) true (server_write k w)
body-Agrees status n k b w h = record {
  same_status = ground arith;
  same_length = ground arith;
  same_start = ground arith;
  unwritten = inl refl;
}

module _ {W : Type 0} ⦃out : ResponseWriter W⦄ ⦃law : IsWriter W⦄ where
  abbrev pub Follows : Recorder W → Type 0
  Follows r = law.Valid r.writer × Agrees r.status r.written r.wrote (law.wire r.writer)

  pub header-Follows :
      (status : ℕ) (r : Recorder W)
      → is_final status ≡ true
      → Follows r
      → Follows (recorder_write_header status r)
        × (law.wire (recorder_write_header status r).writer
            ≡ server_write_header status (law.wire r.writer))
  header-Follows status r f h = elim (Bool-cases r.wrote) [
    | inl wrote ↦ rw wrote (
      (h.0, subst (λ b. Agrees r.status r.written b (law.wire r.writer)) wrote h.1),
      rw (sym h.1.same_start ∙ wrote) refl,
    )
    | inr unwritten ↦
        let (v, e) = law.header status r.writer f h.0 in
        rw unwritten (
          (
            v,
            rw e (
                header-Agrees r.status r.written status r.wrote (law.wire r.writer) unwritten f
                  h.1),
          ),
          e,
        )
  ]

  pub body-Follows :
      (n : ℕ) (r : Recorder W)
      → Follows r
      → Follows (recorder_write n r)
        × (law.wire (recorder_write n r).writer ≡ server_write n (law.wire r.writer))
  body-Follows n r h =
      let (v, e) = law.body n r.writer h.0 in
      ((v, rw e (body-Agrees r.status r.written n r.wrote (law.wire r.writer) h.1)), e)

  instance abbrev pub Recorder-IsWriter : IsWriter (Recorder W)
  Recorder-IsWriter = record {
    Valid = Follows;
    wire = λ r. law.wire r.writer;
    header = header-Follows;
    body = body-Follows;
  }

  call-Valid : (c : Call) (w : W) → IsFinal c → law.Valid w → law.Valid (call c w)
  call-Valid (write_header status) w f h = (law.header status w f h).0
  call-Valid (write n) w f h = (law.body n w h).0

  pub make_calls-Valid :
      (cs : List Call) (w : W) → All IsFinal cs → law.Valid w → law.Valid (make_calls cs w)
  unfolding make_calls
  make_calls-Valid [] w f h = h
  make_calls-Valid (c ∷ cs) w f h = make_calls-Valid cs (call c w) f.1 (call-Valid c w f.0 h)

  -- Nothing is written yet.
  abbrev pub IsUnwritten : W → Type 0
  IsUnwritten w = law.wire w ≡ record { started = false; status = 200; taken = 0 }

  pub fresh-Follows : (w : W) → law.Valid w → IsUnwritten w → Follows (fresh w)
  fresh-Follows w h e = (
    h,
    rw e (record {
      same_status = refl;
      same_length = refl;
      same_start = refl;
      unwritten = inr refl;
    }),
  )
