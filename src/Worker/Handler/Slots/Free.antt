-- ===== src/Worker/Handler/Slots/Free.antt =====
-- internal/worker/handler: no render waits for a slot for ever.
use gophprofile.Base.{
  ℕ, Bool, true, false, zero, suc, ◌+◌, ◌*◌, ◌≤◌, ◌≡◌, ◌⊎◌, inl, inr, refl, ℤ, List, [], ◌∷◌, All,
  arith, sum_of, Turns, here, there, Turns-sum_of,
}
use gophprofile.Fault.{Error, Result, ok, err}
use gophprofile.Domain.Avatar.{Avatar}
use gophprofile.World.{World}
use gophprofile.Worker.Handler.{Handler, read_original}
use gophprofile.Worker.Handler.Slots.{
  Render, waiting, reading, making, leaving, ended, Made, Slots, decode_slots, fresh, Step, come,
  expire, acquire, give_up, read, unread, make, release, comes, outside, Run, none_yet, one_more,
}
use gophprofile.Worker.Handler.Slots.Bounded.{has_slot, Inv, Run-Inv, decode_slots-le}

abbrev pub IsEnded : Render → Type 0
IsEnded (ended r) = Unit
IsEnded _ = ⊥

abbrev IsIdle : Render → Type 0
IsIdle r = has_slot r ≡ 0

idle-sum_of : (rs : List Render) → All IsIdle rs → sum_of has_slot rs ≡ 0
idle-sum_of [] h = refl
idle-sum_of (r ∷ rs) h = omega (arith, idle-sum_of rs h.1, h.0)

-- The element is there, and can change to any.
abbrev Has : Render → List Render → Type 0
Has x rs = (y : Render) → (vs : List Render) × Turns x y rs vs

Has-here : (x : Render) (rs : List Render) → Has x (x ∷ rs)
Has-here x rs y = (y ∷ rs, here)

Has-there : (x r : Render) (rs : List Render) → Has x rs → Has x (r ∷ rs)
Has-there x r rs h y = let (vs, m) = h y in (r ∷ vs, there m)

-- A render with a slot.
data Holder (rs : List Render) : Type 0 where
  reads : (a : Avatar) → Has (reading a) rs → Holder rs
  makes : (bytes : List ℕ) → Has (making bytes) rs → Holder rs
  leaves : (r : Made) → Has (leaving r) rs → Holder rs

Holder-there : (r : Render) (rs : List Render) → Holder rs → Holder (r ∷ rs)
Holder-there r rs (reads a h) = reads a (Has-there _ r rs h)
Holder-there r rs (makes b h) = makes b (Has-there _ r rs h)
Holder-there r rs (leaves x h) = leaves x (Has-there _ r rs h)

beside :
    (r : Render) (rs : List Render)
    → has_slot r ≡ 0
    → All IsIdle rs ⊎ Holder rs
    → All IsIdle (r ∷ rs) ⊎ Holder (r ∷ rs)
beside r rs e (inl h) = inl (e, h)
beside r rs e (inr h) = inr (Holder-there r rs h)

holder : (rs : List Render) → All IsIdle rs ⊎ Holder rs
holder [] = inl tt
holder (waiting a x ∷ rs) = beside (waiting a x) rs refl (holder rs)
holder (reading a ∷ rs) = inr (reads a (Has-here _ rs))
holder (making bytes ∷ rs) = inr (makes bytes (Has-here _ rs))
holder (leaving r ∷ rs) = inr (leaves r (Has-here _ rs))
holder (ended r ∷ rs) = beside (ended r) rs refl (holder rs)

waits :
    (rs : List Render)
    → All IsIdle rs
    → All IsEnded rs ⊎ ((a : Avatar) × (x : Bool) × Has (waiting a x) rs)
waits [] h = inl tt
waits (waiting a x ∷ rs) h = inr (a, x, Has-here _ rs)
waits (reading a ∷ rs) h = absurd (omega (arith, h.0))
waits (making b ∷ rs) h = absurd (omega (arith, h.0))
waits (leaving r ∷ rs) h = absurd (omega (arith, h.0))
waits (ended r ∷ rs) h = elim (waits rs h.1) [
  | inl all ↦ inl (tt, all)
  | inr (a, x, one) ↦ inr (a, x, Has-there _ _ rs one)
]

before : (n : ℕ) → 1 ≤ n → (m : ℕ) × (n ≡ suc m)
before zero h = absurd (omega arith)
before (suc m) h = (m, refl)

module _ {A : Type 0} where
  Result-cases : (r : Result A) → ((a : A) × (r ≡ ok a)) ⊎ ((e : Error) × (r ≡ err e))
  Result-cases (ok a) = inl (a, refl)
  Result-cases (err e) = inr (e, refl)

module _ (h : Handler) (w : World) (capacity : ℕ) where
  -- A step that the program can take by itself: no delivery comes, and no context ends.
  abbrev pub CanGoOn : Slots → Type 0
  CanGoOn s = (u : Slots) × (m : Step h capacity s u) × (outside h capacity m ≡ false)

  Holder-CanGoOn : (s : Slots) → Inv h capacity s → Holder s.renders → CanGoOn s
  Holder-CanGoOn s i (reads a g) = elim (Result-cases (read_original h a w).0) [
    | inl good ↦ (_, read w good.1 (g (making good.0)).1, refl)
    | inr bad ↦ (_, unread w bad.1 (g (leaving (err bad.0))).1, refl)
  ]
  Holder-CanGoOn s i (makes bytes g) = (_, make (g _).1, refl)
  Holder-CanGoOn s i (leaves r g) =
      let (vs, m) = g (ended r) in
      let (n, e) = before s.taken (omega (arith, Turns-sum_of has_slot m, i.counted)) in
      (_, release e m, refl)

  idle-CanGoOn :
      (s : Slots)
      → Inv h capacity s
      → 1 ≤ capacity
      → All IsIdle s.renders
      → All IsEnded s.renders ⊎ CanGoOn s
  idle-CanGoOn s i one free = elim (waits s.renders free) [
    | inl all ↦ inl all
    | inr (a, x, first) ↦
        let (vs, m) = first (reading a) in
        inr (_, acquire (omega (arith, idle-sum_of s.renders free, i.counted)) m, refl)
  ]

  goes_on : (s : Slots) → Inv h capacity s → 1 ≤ capacity → All IsEnded s.renders ⊎ CanGoOn s
  goes_on s i one = elim (holder s.renders) [
    | inl free ↦ idle-CanGoOn s i one free
    | inr one_has ↦ inr (Holder-CanGoOn s i one_has)
  ]

  -- The steps that a render has before it.
  abbrev pub ahead : Render → ℕ
  ahead (waiting a false) = 5
  ahead (waiting a true) = 4
  ahead (reading a) = 3
  ahead (making bytes) = 2
  ahead (leaving r) = 1
  ahead (ended r) = 0

  Step-ahead :
      {s u : Slots} (m : Step h capacity s u)
      → suc (sum_of ahead u.renders) ≤ sum_of ahead s.renders + 6 * comes h capacity m
  Step-ahead (come a) = omega arith
  Step-ahead (expire m) = omega (arith, Turns-sum_of ahead m)
  Step-ahead (acquire {a} {expired = false} lt m) = omega (arith, Turns-sum_of ahead m)
  Step-ahead (acquire {a} {expired = true} lt m) = omega (arith, Turns-sum_of ahead m)
  Step-ahead (give_up e m) = omega (arith, Turns-sum_of ahead m)
  Step-ahead (read w e m) = omega (arith, Turns-sum_of ahead m)
  Step-ahead (unread w e m) = omega (arith, Turns-sum_of ahead m)
  Step-ahead (make m) = omega (arith, Turns-sum_of ahead m)
  Step-ahead (release e m) = omega (arith, Turns-sum_of ahead m)

  Run-ahead :
      {s : Slots} {n c : ℕ} → Run h capacity fresh n c s → n + sum_of ahead s.renders ≤ 6 * c
  Run-ahead none_yet = omega arith
  Run-ahead (one_more r m) = omega (arith, Run-ahead r, Step-ahead m)

module _ (h : Handler) (w : World) where
  -- Every render ends, in whatever order the goroutines take their steps and whichever contexts end:
  -- there are six steps at most for each that has begun, and as long as one has not ended, a step is
  -- possible for which no delivery comes and no context ends, even where the configuration asks for no
  -- slot. `w` is the world in which an original would be read.
  pub renders-IsEnded :
      (decode_concurrency : ℤ) (s : Slots) (n c : ℕ)
      → Run h (decode_slots decode_concurrency) fresh n c s
      → (n ≤ 6 * c) × (All IsEnded s.renders ⊎ CanGoOn h w (decode_slots decode_concurrency) s)
  renders-IsEnded k s n c r = (
    omega (arith, Run-ahead h w (decode_slots k) r),
    goes_on h w (decode_slots k) s (Run-Inv h (decode_slots k) r) (decode_slots-le k),
  )
