-- ===== src/Server/Http/RateLimit.antt =====
-- internal/server/http/ratelimit.go: the table of buckets. A bucket itself is golang.org/x/time/rate, the
-- record `Buckets`. Times are nanoseconds on one clock; where the source's difference of two times would
-- be negative it is zero here, and below both limits either way.
use Prim.Native.String.{len}
use gophprofile.Server.Http.Handlers.{max_user_id_len}
use gophprofile.Base.{
  leb, not, ◌&&◌, ℕ, ◌-◌, ◌*◌, ◌<◌, String, ◌≡◌, refl, ◌∙◌, ◌⊎◌, inl, inr, Bool, true, false,
  Option, none, some, [], ◌∷◌, max, ltb, str_eq, eq_iff, if◌then◌else◌, arith, StringMap, lookup,
  insert, without, lookup-without, insert-here, insert-elsewhere, Bool-cases,
}

-- The limiters of the library: rate.NewLimiter, AllowN, and a reservation that is cancelled at once,
-- with its delay rounded up to seconds.
pub record Buckets (B : Type 0) : Type 0 where
  pub new : B
  pub allow_n : ℕ → B → Bool × B
  pub reserve_and_cancel : ℕ → B → ℕ × B

pub record Visitor (B : Type 0) : Type 0 where
  pub lim : B
  pub seen : ℕ

pub record Limiters (B : Type 0) : Type 0 where
  pub visitors : StringMap (Visitor B)
  pub last_sweep : ℕ

abbrev pub limiter_idle_ttl : ℕ
limiter_idle_ttl = 180 * 1000000000

abbrev pub limiter_sweep_interval : ℕ
limiter_sweep_interval = 60 * 1000000000

module _ {B : Type 0} where
  abbrev pub is_idle : ℕ → Visitor B → Bool
  is_idle now v = ltb limiter_idle_ttl (now - v.seen)

  -- the loop over the visitors
  unfoldable pub drop_idle : ℕ → StringMap (Visitor B) → StringMap (Visitor B)
  drop_idle now [] = []
  drop_idle now ((key, v) ∷ rest) =
      let kept = drop_idle now rest in if is_idle now v then without key kept else (key, v) ∷ kept

  unfoldable pub sweep : ℕ → Limiters B → Limiters B
  sweep now l =
      if ltb (now - l.last_sweep) limiter_sweep_interval
      then l
      else record { visitors = drop_idle now l.visitors; last_sweep = now }

module _ {B : Type 0} (buckets : Buckets B) where
  abbrev bucket_of : Option (Visitor B) → B
  bucket_of none = buckets.new
  bucket_of (some v) = v.lim

  abbrev answer : ℕ → Bool × B → (Bool × ℕ) × B
  answer now (true, b) = ((true, 0), b)
  answer now (false, b) =
      let (delay, b') = buckets.reserve_and_cancel now b in ((false, max 1 delay), b')

  -- The result, with the seconds to wait, and the limiters after the call.
  unfoldable pub allow : String → ℕ → Limiters B → (Bool × ℕ) × Limiters B
  allow key now l =
      let swept = sweep now l in
      let (r, b) = answer now (buckets.allow_n now (bucket_of (lookup key swept.visitors))) in
      (r, record swept { visitors = insert key (record { lim = b; seen = now }) swept.visitors })

-- limitKey; `host` is what net.SplitHostPort finds in the remote address, if it can be split.
unfoldable pub limit_key : String → Option String → String → String
limit_key header_user_id host remote_addr =
    if not (str_eq header_user_id "") && leb (len header_user_id) max_user_id_len
    then header_user_id
    else elim host [ none ↦ remote_addr | some h ↦ h ]

module _ {B : Type 0} where
  -- What a sweep leaves of a visitor.
  abbrev unless_idle : ℕ → Option (Visitor B) → Option (Visitor B)
  unless_idle now none = none
  unless_idle now (some v) = if is_idle now v then none else some v

  lookup-drop_idle :
      (now : ℕ) (j : String) (m : StringMap (Visitor B))
      → lookup j (drop_idle now m) ≡ unless_idle now (lookup j m)
  unfolding lookup drop_idle
  lookup-drop_idle now j [] = refl
  lookup-drop_idle now j ((key, v) ∷ rest) =
      ground (
        arith,
        eq_iff key j,
        lookup-drop_idle now j rest,
        lookup-without key j (drop_idle now rest),
      )

  lookup-sweep :
      (now : ℕ) (j : String) (l : Limiters B)
      → (lookup j (sweep now l).visitors ≡ lookup j l.visitors)
        ⊎ (lookup j (sweep now l).visitors ≡ unless_idle now (lookup j l.visitors))
  unfolding sweep
  lookup-sweep now j l = elim (Bool-cases (ltb (now - l.last_sweep) limiter_sweep_interval)) [
    | inl e ↦ inl (rw e refl)
    | inr e ↦ inr (rw e (lookup-drop_idle now j l.visitors))
  ]

  -- Nothing has changed, or the visitor had been idle for too long and is gone.
  abbrev pub KeptOrIdle : ℕ → Option (Visitor B) → Option (Visitor B) → Type 0
  KeptOrIdle now old new =
      (new ≡ old)
      ⊎ ((v : Visitor B) × (old ≡ some v) × (limiter_idle_ttl < now - v.seen) × (new ≡ none))

  unless_idle-KeptOrIdle :
      (now : ℕ) (old new : Option (Visitor B)) → new ≡ unless_idle now old → KeptOrIdle now old new
  unless_idle-KeptOrIdle now none new e = inl e
  unless_idle-KeptOrIdle now (some v) new e = elim (Bool-cases (is_idle now v)) [
    | inl idle ↦ inr (v, refl, ground arith, ground arith)
    | inr fresh ↦ inl (ground arith)
  ]

  -- A request leaves a bucket for its key, seen now, and leaves the bucket of any other key as it was,
  -- unless that key has not been seen for longer than three minutes; then it may be gone.
  pub allow-KeptOrIdle :
      (buckets : Buckets B) (key j : String) (now : ℕ) (l : Limiters B)
      → str_eq key j ≡ false
      → let after = (allow buckets key now l).1.visitors in
        ((v : Visitor B) × (lookup key after ≡ some v) × (v.seen ≡ now))
        × KeptOrIdle now (lookup j l.visitors) (lookup j after)
  unfolding allow
  allow-KeptOrIdle buckets key j now l differ =
      let swept = sweep now l in
      let (r, b) =
        answer buckets now (buckets.allow_n now (bucket_of buckets (lookup key swept.visitors))) in
      let here = insert-here swept.visitors key (record { lim = b; seen = now }) in
      let there = insert-elsewhere swept.visitors key j (record { lim = b; seen = now }) differ in
      (
        (record { lim = b; seen = now }, here, refl),
        elim (lookup-sweep now j l) [
          | inl e ↦ inl (there ∙ e)
          | inr e ↦ unless_idle-KeptOrIdle now (lookup j l.visitors) _ (there ∙ e)
        ],
      )
