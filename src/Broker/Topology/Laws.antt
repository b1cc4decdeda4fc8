-- ===== src/Broker/Topology/Laws.antt =====
-- internal/broker/topology.go: what a channel has declared once the declaration has succeeded.
use mathlib.Core.List.{Mem, mem-cons_self, mem-append_left, mem-append_right}
use mathlib.Core.Option.{some-injective}
use gophprofile.Base.{
  ℕ, zero, suc, String, ◌≡◌, refl, Option, none, some, List, [], ◌∷◌, arith, subst, get_elem?,
}
use gophprofile.Fault.{Error}
use gophprofile.Broker.Headers.{RetryLevel}
use gophprofile.Broker.Consumer.{exchange_retry}
use gophprofile.Broker.Topology.{
  Declaration, queue, binding, Channel, Step, answered, declare, continue, ◌then◌, done, bind_queue,
  bind_keys, declare_queue, level_keys, rejected_keys, level_arguments, declare_level,
  declare_retry_levels,
}

-- A step that succeeds has made the declaration.
abbrev pub Ensures : Step → Declaration → Type 0
Ensures m d = (ch : Channel) → (m ch).0 ≡ none → Mem d (m ch).1.declared

-- A step takes nothing back.
abbrev pub Keeps : Step → Type 0
Keeps m = (ch : Channel) (d : Declaration) → Mem d ch.declared → Mem d (m ch).1.declared

answered-Mem :
    (d : Declaration) (answers : List (Option Error)) (ds : List Declaration)
    → (answered d answers ds).0 ≡ none
    → Mem d (answered d answers ds).1.declared
unfolding answered
answered-Mem d [] ds h = mem-append_right ds mem-cons_self
answered-Mem d (none ∷ rest) ds h = mem-append_right ds mem-cons_self
answered-Mem d (some e ∷ rest) ds h = ground arith

pub declare-Ensures : (d : Declaration) → Ensures (declare d) d
unfolding declare
declare-Ensures d ch h = answered-Mem d ch.answers ch.declared h

answered-keeps :
    (d e : Declaration) (answers : List (Option Error)) (ds : List Declaration)
    → Mem e ds
    → Mem e (answered d answers ds).1.declared
unfolding answered
answered-keeps d e [] ds h = mem-append_left (d ∷ []) h
answered-keeps d e (none ∷ rest) ds h = mem-append_left (d ∷ []) h
answered-keeps d e (some x ∷ rest) ds h = h

pub declare-Keeps : (d : Declaration) → Keeps (declare d)
unfolding declare
declare-Keeps d ch e h = answered-keeps d e ch.answers ch.declared h

continue-Mem :
    (n : Step) (d : Declaration) (r : Option Error × Channel)
    → Keeps n
    → (continue n r).0 ≡ none
    → (r.0 ≡ none → Mem d r.1.declared)
    → Mem d (continue n r).1.declared
continue-Mem n d (none, ch) k h f = k ch d (f refl)
continue-Mem n d (some e, ch) k h f = ground arith

pub then-Ensures_left :
    (m n : Step) (d : Declaration) → Ensures m d → Keeps n → Ensures (m then n) d
unfolding ◌then◌
then-Ensures_left m n d f k ch h = continue-Mem n d (m ch) k h (f ch)

continue-Mem_next :
    (n : Step) (d : Declaration) (r : Option Error × Channel)
    → Ensures n d
    → (continue n r).0 ≡ none
    → Mem d (continue n r).1.declared
continue-Mem_next n d (none, ch) f h = f ch h
continue-Mem_next n d (some e, ch) f h = ground arith

pub then-Ensures_right : (m n : Step) (d : Declaration) → Ensures n d → Ensures (m then n) d
unfolding ◌then◌
then-Ensures_right m n d f ch h = continue-Mem_next n d (m ch) f h

continue-keeps :
    (n : Step) (d : Declaration) (r : Option Error × Channel)
    → Keeps n
    → Mem d r.1.declared
    → Mem d (continue n r).1.declared
continue-keeps n d (none, ch) k h = k ch d h
continue-keeps n d (some e, ch) k h = h

pub then-Keeps : (m n : Step) → Keeps m → Keeps n → Keeps (m then n)
unfolding ◌then◌
then-Keeps m n f g ch d h = continue-keeps n d (m ch) g (f ch d h)

pub done-Keeps : Keeps done
unfolding done
done-Keeps ch d h = h

bind_keys-Keeps : (q : String) (keys : List String) → Keeps (bind_keys q keys)
unfolding bind_keys bind_queue
bind_keys-Keeps q [] = done-Keeps
bind_keys-Keeps q (key ∷ keys) =
    then-Keeps _ (bind_keys q keys) (declare-Keeps _) (bind_keys-Keeps q keys)

bind_keys-Ensures :
    (q : String) (keys : List String) (i : ℕ) (key : String)
    → get_elem? keys i ≡ some key
    → Ensures (bind_keys q keys) (binding q key exchange_retry)
unfolding bind_keys bind_queue
bind_keys-Ensures q (k ∷ keys) zero key h =
    subst (λ x. Ensures (bind_keys q (k ∷ keys)) (binding q x exchange_retry))
      (some-injective k key h)
      (then-Ensures_left _ (bind_keys q keys) _ (declare-Ensures _) (bind_keys-Keeps q keys))
bind_keys-Ensures q (k ∷ keys) (suc i) key h =
    then-Ensures_right _ (bind_keys q keys) _ (bind_keys-Ensures q keys i key h)
bind_keys-Ensures q [] i key h = ground arith

declare_level-Keeps : (i : ℕ) (l : RetryLevel) → Keeps (declare_level i l)
unfolding declare_level declare_queue
declare_level-Keeps i l =
    then-Keeps _ (bind_keys l.queue (level_keys i l)) (declare-Keeps _) (bind_keys-Keeps l.queue _)

pub declare_retry_levels-Keeps : (i : ℕ) (ls : List RetryLevel) → Keeps (declare_retry_levels i ls)
unfolding declare_retry_levels
declare_retry_levels-Keeps i [] = done-Keeps
declare_retry_levels-Keeps i (l ∷ ls) =
    then-Keeps (declare_level i l) (declare_retry_levels (suc i) ls) (declare_level-Keeps i l)
      (declare_retry_levels-Keeps (suc i) ls)

first_level-Ensures :
    (i : ℕ) (l : RetryLevel) (ls : List RetryLevel) (d : Declaration)
    → Ensures (declare_level i l) d
    → Ensures (declare_retry_levels i (l ∷ ls)) d
unfolding declare_retry_levels
first_level-Ensures i l ls d f =
    then-Ensures_left (declare_level i l) (declare_retry_levels (suc i) ls) d f
      (declare_retry_levels-Keeps (suc i) ls)

-- What a level declares at every index is declared by the loop.
level-Ensures :
    (i n : ℕ) (ls : List RetryLevel) (l : RetryLevel) (d : Declaration)
    → get_elem? ls n ≡ some l
    → ((j : ℕ) → Ensures (declare_level j l) d)
    → Ensures (declare_retry_levels i ls) d
unfolding declare_retry_levels
level-Ensures i n [] l d h f = ground arith
level-Ensures i zero (x ∷ ls) l d h f =
    subst
      (λ y. ((j : ℕ) → Ensures (declare_level j y) d) → Ensures (declare_retry_levels i (x ∷ ls)) d)
      (some-injective x l h) (λ g. first_level-Ensures i x ls d (g i)) f
level-Ensures i (suc n) (x ∷ ls) l d h f =
    then-Ensures_right (declare_level i x) (declare_retry_levels (suc i) ls) d
      (level-Ensures (suc i) n ls l d h f)

declare_level-queue :
    (i : ℕ) (l : RetryLevel) → Ensures (declare_level i l) (queue l.queue (level_arguments l))
unfolding declare_level declare_queue
declare_level-queue i l =
    then-Ensures_left _ (bind_keys l.queue (level_keys i l)) _ (declare-Ensures _)
      (bind_keys-Keeps l.queue (level_keys i l))

declare_level-binding :
    (i n : ℕ) (l : RetryLevel) (key : String)
    → get_elem? (level_keys i l) n ≡ some key
    → Ensures (declare_level i l) (binding l.queue key exchange_retry)
unfolding declare_level declare_queue
declare_level-binding i n l key h =
    then-Ensures_right _ (bind_keys l.queue (level_keys i l)) _
      (bind_keys-Ensures l.queue (level_keys i l) n key h)

own_key : (i : ℕ) (l : RetryLevel) → get_elem? (level_keys i l) 0 ≡ some l.key
own_key zero l = refl
own_key (suc i) l = refl

module _ (levels : List RetryLevel) (n : ℕ) (l : RetryLevel) (h : get_elem? levels n ≡ some l) where
  pub levels-queue : Ensures (declare_retry_levels 0 levels) (queue l.queue (level_arguments l))
  levels-queue = level-Ensures 0 n levels l _ h (λ j. declare_level-queue j l)

  pub levels-binding :
      Ensures (declare_retry_levels 0 levels) (binding l.queue l.key exchange_retry)
  levels-binding =
      level-Ensures 0 n levels l _ h (λ j. declare_level-binding j 0 l l.key (own_key j l))

-- The first level has the keys of what the processing queue rejects.
pub rejected-binding :
    (l : RetryLevel) (ls : List RetryLevel) (n : ℕ) (key : String)
    → get_elem? rejected_keys n ≡ some key
    → Ensures (declare_retry_levels 0 (l ∷ ls)) (binding l.queue key exchange_retry)
rejected-binding l ls n key h =
    first_level-Ensures 0 l ls _ (declare_level-binding 0 (suc n) l key h)
