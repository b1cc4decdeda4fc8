-- ===== src/S3/Laws.antt =====
-- What deleting objects leaves behind.
use gophprofile.Base.{
  ℕ, zero, suc, String, ◌≡◌, refl, sym, subst, Bool, true, false, Option, none, some, List, [], ◌∷◌,
  All, arith, eq_iff, lookup, without, lookup-without,
}
use gophprofile.Fault.{Error, join}
use gophprofile.World.{World, turn, meet, pure}
use gophprofile.S3.{
  Objects, remove_keys, result_errors, gone_keys, answer, delete_batch, delete_many,
}

abbrev pub IsGone : Objects → String → Type 0
IsGone m k = lookup k m ≡ none

without-IsGone : (k j : String) (m : Objects) → IsGone m j → IsGone (without k m) j
without-IsGone k j m h = rw lookup-without (ground (arith, h))

pub remove_keys-stays :
    (ks : List String) (j : String) (m : Objects) → IsGone m j → IsGone (remove_keys ks m) j
remove_keys-stays [] j m h = h
remove_keys-stays (k ∷ ks) j m h = remove_keys-stays ks j (without k m) (without-IsGone k j m h)

All-stays :
    (ks : List String) (k : String) (m : Objects)
    → All (IsGone (remove_keys ks (without k m))) ks
    → IsGone (remove_keys ks (without k m)) k × All (IsGone (remove_keys ks (without k m))) ks
All-stays ks k m h =
    (remove_keys-stays ks k (without k m) (rw lookup-without (ground (arith, eq_iff k k))), h)

pub remove_keys-IsGone : (ks : List String) (m : Objects) → All (IsGone (remove_keys ks m)) ks
remove_keys-IsGone [] m = tt
remove_keys-IsGone (k ∷ ks) m = All-stays ks k m (remove_keys-IsGone ks (without k m))

-- No error collected: every key is gone.
no_errors-gone :
    (e : Error) (at : ℕ) (ks : List String)
    → join (result_errors e at ks) ≡ none
    → gone_keys e at ks ≡ ks
unfolding join result_errors gone_keys
no_errors-gone e at [] h = refl
no_errors-gone e zero (k ∷ ks) h = ground arith
no_errors-gone e (suc at) (k ∷ ks) h = ground (arith, no_errors-gone e at ks h)

answer-none :
    (o : Option Error) (l : Bool) (at : ℕ) (ks : List String)
    → (answer o l at ks).0 ≡ none
    → (answer o l at ks).1 ≡ ks
unfolding answer
answer-none none l at ks h = refl
answer-none (some e) false at ks h = cc
answer-none (some e) true at ks h = no_errors-gone e at ks (ground arith)

-- DeleteMany without an error leaves no object under any of the keys, whatever the storage answered
-- for single objects.
pub delete_many-IsGone :
    (ks : List String) (w : World)
    → (delete_many ks w).0 ≡ none
    → All (IsGone (delete_many ks w).1.objects) ks
unfolding delete_many delete_batch pure
delete_many-IsGone [] w h = tt
delete_many-IsGone (k ∷ ks) w h =
    subst (λ gone. All (IsGone (remove_keys gone (meet w).objects)) (k ∷ ks))
      (sym
        (answer-none (turn w.script).fault (turn w.script).landed (turn w.script).reach (k ∷ ks) h))
      (remove_keys-IsGone (k ∷ ks) (meet w).objects)
