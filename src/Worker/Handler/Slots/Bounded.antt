-- ===== src/Worker/Handler/Slots/Bounded.antt =====
-- internal/worker/handler: how much decodes at a time.
use gophprofile.Base.{
  ℕ, zero, suc, ◌*◌, ◌≤◌, ◌≡◌, refl, sym, subst, ℤ, pos, negsuc, List, [], ◌∷◌, All, arith, length,
  length-take-le, sum_of, Turns-sum_of, Turns-All, take, Bool, true, false, if◌then◌else◌,
}
use gophprofile.Fault.{Error, Result, ok, err}
use gophprofile.Domain.Avatar.{Avatar}
use gophprofile.World.{World, perform, pure, ◌>>=◌, on_result, St}
use gophprofile.World.Calls.{read-cases}
use gophprofile.S3
use gophprofile.Worker.Handler.{Handler, read_original}
use gophprofile.Worker.Handler.Slots.{
  Render, waiting, reading, making, leaving, ended, Slots, decode_slots, fresh, Step, come, expire,
  acquire, give_up, read, unread, make, release, Run, none_yet, one_more,
}

-- Whether a render has a slot.
abbrev pub has_slot : Render → ℕ
has_slot (waiting a expired) = 0
has_slot (reading a) = 1
has_slot (making bytes) = 1
has_slot (leaving r) = 1
has_slot (ended r) = 0

-- The bytes of the original that it has in memory.
abbrev pub in_memory : Render → ℕ
in_memory (making bytes) = length bytes
in_memory _ = 0

abbrev pub IsIdle : Render → Type 0
IsIdle r = has_slot r ≡ 0

pub decode_slots-le : (n : ℤ) → 1 ≤ decode_slots n
decode_slots-le (pos zero) = omega arith
decode_slots-le (pos (suc n)) = omega arith
decode_slots-le (negsuc n) = omega arith

-- What an action answers, where it answers, is in `P`.
abbrev Answers : {A : Type 0} → (A → Type 0) → St (Result A) → Type 0
Answers P m = (w : World) → (a : _) → (m w).0 ≡ ok a → P a

module _ {A B : Type 0} (P : A → Type 0) where
  bind-Answers :
      (m : St B) (k : B → St (Result A)) (Q : B → Type 0)
      → ((w : World) → Q (m w).0)
      → ((b : B) → Q b → Answers P (k b))
      → Answers P (m >>= k)
  unfolding ◌>>=◌
  bind-Answers m k Q h g w a e = g (m w).0 (h w) (m w).1 a e

  on_result-Answers :
      (r : Result B) (f : Error → St (Result A)) (g : B → St (Result A))
      → ((e : Error) → Answers P (f e))
      → ((b : B) → r ≡ ok b → Answers P (g b))
      → Answers P (on_result r f g)
  unfolding on_result
  on_result-Answers (ok b) f g h k = k b refl
  on_result-Answers (err e) f g h k = h e

module _ {A : Type 0} (P : A → Type 0) where
  err-Answers : (e : Error) → Answers P (pure (err e))
  unfolding pure
  err-Answers e w a q = cc

  ok-Answers : (a : A) → P a → Answers P (pure (ok a))
  unfolding pure
  ok-Answers a p w b q = subst (λ x. P x) (cc) p

  ite-Answers :
      (b : Bool) (m n : St (Result A)) → Answers P m → Answers P n → Answers P (if b then m else n)
  ite-Answers true m n h g = h
  ite-Answers false m n h g = g

module _ (h : Handler) where
  abbrev Fits : List ℕ → Type 0
  Fits bytes = length bytes ≤ h.max_original_bytes

  taken-Fits :
      (body : List ℕ) (w : World) (bytes : List ℕ)
      → (perform (λ n s. (ok (take h.max_original_bytes body), s)) w).0 ≡ ok bytes
      → Fits bytes
  taken-Fits body w bytes e =
      let same = (read-cases (λ n s. ok (take h.max_original_bytes body)) w).1 bytes e in
      subst (λ b. Fits b) (cc) (length-take-le h.max_original_bytes body)

  read_original-Fits : (a : Avatar) → Answers Fits (read_original h a)
  unfolding read_original
  read_original-Fits a =
      bind-Answers Fits (S3.get a.s3_key) _ (λ r. Unit) (λ w. tt)
        λ r _.
          on_result-Answers Fits r _ _ (λ e. err-Answers Fits _)
            λ object _. ite-Answers Fits _ _ _ (err-Answers Fits _) (
              bind-Answers Fits _ _ (λ r. (b : List ℕ) → r ≡ ok b → Fits b)
                (λ w b e. taken-Fits object.body w b e)
                λ r q.
                  on_result-Answers Fits r _ _ (λ e. err-Answers Fits _)
                    λ bs e. ok-Answers Fits bs (q bs e))

  abbrev IsSmall : Render → Type 0
  IsSmall r = in_memory r ≤ has_slot r * h.max_original_bytes

  in_memory-le :
      (rs : List Render)
      → All IsSmall rs
      → sum_of in_memory rs ≤ sum_of has_slot rs * h.max_original_bytes
  in_memory-le [] a = omega arith
  in_memory-le (r ∷ rs) a = grind (arith, in_memory-le rs a.1, a.0)

  module _ (capacity : ℕ) where
    pub record Inv (s : Slots) : Type 0 where
      pub counted : sum_of has_slot s.renders ≡ s.taken
      pub bounded : s.taken ≤ capacity
      pub small : All IsSmall s.renders

    Step-Inv : {s u : Slots} → Step h capacity s u → Inv s → Inv u
    Step-Inv {s} (come a) i = record {
      counted = omega (arith, i.counted);
      bounded = i.bounded;
      small = (omega arith, i.small);
    }
    Step-Inv {s} (expire m) i = record {
      counted = omega (arith, Turns-sum_of has_slot m, i.counted);
      bounded = i.bounded;
      small = Turns-All IsSmall m i.small (omega arith);
    }
    Step-Inv {s} (acquire lt m) i = record {
      counted = omega (arith, Turns-sum_of has_slot m, i.counted);
      bounded = omega (arith, lt);
      small = Turns-All IsSmall m i.small (omega arith);
    }
    Step-Inv {s} (give_up e m) i = record {
      counted = omega (arith, Turns-sum_of has_slot m, i.counted);
      bounded = i.bounded;
      small = Turns-All IsSmall m i.small (omega arith);
    }
    Step-Inv {s} (read {a} {rs} {bytes} w e m) i = record {
      counted = omega (arith, Turns-sum_of has_slot m, i.counted);
      bounded = i.bounded;
      small = Turns-All IsSmall m i.small (omega (arith, read_original-Fits a w bytes e));
    }
    Step-Inv {s} (unread w e m) i = record {
      counted = omega (arith, Turns-sum_of has_slot m, i.counted);
      bounded = i.bounded;
      small = Turns-All IsSmall m i.small (omega arith);
    }
    Step-Inv {s} (make m) i = record {
      counted = omega (arith, Turns-sum_of has_slot m, i.counted);
      bounded = i.bounded;
      small = Turns-All IsSmall m i.small (omega arith);
    }
    Step-Inv {s} (release e m) i = record {
      counted = omega (arith, Turns-sum_of has_slot m, i.counted, e);
      bounded = omega (arith, i.bounded, e);
      small = Turns-All IsSmall m i.small (omega arith);
    }

    pub Run-Inv : {s : Slots} {n c : ℕ} → Run h capacity fresh n c s → Inv s
    Run-Inv none_yet = record { counted = refl; bounded = omega arith; small = tt }
    Run-Inv (one_more r m) = Step-Inv m (Run-Inv r)

  -- Whatever happens to the deliveries at work, no more renders have a slot than the configuration
  -- asks for, or one where it asks for less, as many as there are tokens in the channel; and the
  -- originals in memory are no more bytes than as many times the limit on one.
  pub renders-bounded :
      (decode_concurrency : ℤ) (s : Slots) (n c : ℕ)
      → Run h (decode_slots decode_concurrency) fresh n c s
      → (sum_of has_slot s.renders ≤ decode_slots decode_concurrency)
        × (s.taken ≡ sum_of has_slot s.renders)
        × (sum_of in_memory s.renders ≤ decode_slots decode_concurrency * h.max_original_bytes)
  renders-bounded k s n c r =
      let i = Run-Inv (decode_slots k) r in
      (
        omega (arith, i.counted, i.bounded),
        sym i.counted,
        grind (arith, in_memory-le s.renders i.small, i.counted, i.bounded),
      )
