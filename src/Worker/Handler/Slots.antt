-- ===== src/Worker/Handler/Slots.antt =====
-- The decode slots of internal/worker/handler: render, as many of which run at a time as there are
-- deliveries at work, and the channel of slots that they share. The steps of the goroutines interleave
-- in any order, and the context of a render that waits may end at any time; only then it gives up, and
-- where there is a slot too, select takes either.
pub mod Bounded
pub mod Free
use gophprofile.Base.{
  ℕ, Bool, true, false, zero, suc, ◌+◌, ◌<◌, ◌≡◌, ℤ, pos, negsuc, List, [], ◌∷◌, String, StringMap,
  Turns,
}
use gophprofile.Fault.{Error, Result, ok, err, wrap}
use gophprofile.Domain.Avatar.{Avatar}
use gophprofile.Domain.Thumbnail.{thumbnail_sizes}
use gophprofile.World.{World}
use gophprofile.Worker.Handler.{Handler, read_original, made}

abbrev pub Made : Type 0
Made = Result (StringMap (List ℕ))

-- Where a render is: before the slot, its context having ended or not, with the slot, or at its end;
-- `leaving` has its result, and gives the slot back in its deferred call.
pub data Render : Type 0 where
  waiting : Avatar → (expired : Bool) → Render
  reading : Avatar → Render
  making : (original : List ℕ) → Render
  leaving ended : Made → Render

-- The tokens in the channel decodeSlots, and the renders.
pub record Slots : Type 0 where
  pub taken : ℕ
  pub renders : List Render

-- New: the capacity of the channel, at least one.
abbrev pub decode_slots : (decode_concurrency : ℤ) → ℕ
decode_slots (pos zero) = 1
decode_slots (pos (suc n)) = suc n
decode_slots (negsuc n) = 1

abbrev pub fresh : Slots
fresh = record { taken = 0; renders = [] }

module _ (h : Handler) (capacity : ℕ) where
  pub data Step (s : Slots) : Slots → Type 0 where
    come : (a : Avatar) → Step s (record s { renders = waiting a false ∷ s.renders })
    expire :
        {a : Avatar} {rs : List Render}
        → Turns (waiting a false) (waiting a true) s.renders rs
        → Step s (record s { renders = rs })
    acquire :
        {a : Avatar} {expired : Bool} {rs : List Render}
        → s.taken < capacity
        → Turns (waiting a expired) (reading a) s.renders rs
        → Step s (record { taken = suc s.taken; renders = rs })
    give_up :
        {a : Avatar} {rs : List Render}
        → (cause : Error) → Turns (waiting a true) (ended (err (wrap cause))) s.renders rs
        → Step s (record s { renders = rs })
    read :
        {a : Avatar} {rs : List Render} {bytes : List ℕ}
        → (w : World) → (read_original h a w).0 ≡ ok bytes
        → Turns (reading a) (making bytes) s.renders rs
        → Step s (record s { renders = rs })
    unread :
        {a : Avatar} {rs : List Render} {e : Error}
        → (w : World) → (read_original h a w).0 ≡ err e
        → Turns (reading a) (leaving (err e)) s.renders rs
        → Step s (record s { renders = rs })
    make :
        {bytes : List ℕ} {rs : List Render}
        → Turns (making bytes) (leaving (made h (h.thumbnails bytes thumbnail_sizes))) s.renders rs
        → Step s (record s { renders = rs })
    release :
        {r : Made} {rs : List Render} {n : ℕ}
        → s.taken ≡ suc n
        → Turns (leaving r) (ended r) s.renders rs
        → Step s (record { taken = n; renders = rs })

  -- How many renders a step begins.
  abbrev pub comes : {s u : Slots} → Step s u → ℕ
  comes (come a) = 1
  comes (expire m) = 0
  comes (acquire lt m) = 0
  comes (give_up e m) = 0
  comes (read w e m) = 0
  comes (unread w e m) = 0
  comes (make m) = 0
  comes (release e m) = 0

  -- Whether a step comes from outside: a delivery that comes, or a context that ends.
  abbrev pub outside : {s u : Slots} → Step s u → Bool
  outside (come a) = true
  outside (expire m) = true
  outside (acquire lt m) = false
  outside (give_up e m) = false
  outside (read w e m) = false
  outside (unread w e m) = false
  outside (make m) = false
  outside (release e m) = false

  -- A run of a number of steps, in which as many renders begin.
  pub data Run (s : Slots) : ℕ → ℕ → Slots → Type 0 where
    none_yet : Run s 0 0 s
    one_more :
        {n c : ℕ} {t u : Slots} → Run s n c t → (m : Step t u) → Run s (suc n) (comes m + c) u
