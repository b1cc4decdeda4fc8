-- ===== src/Domain/ProcessingStatus.antt =====
-- ProcessingStatus of internal/domain/domain.go. The column's CHECK constraint admits these values
-- only.
use gophprofile.Base.{ℕ, ◌==◌, ◌≡◌, refl, ◌||◌, Bool, true, List, [], ◌∷◌, any, arith}

pub data ProcessingStatus : Type 0 where
  pending processing completed failed : ProcessingStatus

abbrev tag : ProcessingStatus → ℕ
tag pending = 0
tag processing = 1
tag completed = 2
tag failed = 3

abbrev pub same : ProcessingStatus → ProcessingStatus → Bool
same a b = tag a == tag b

unfoldable pub allowed_from : ProcessingStatus → List ProcessingStatus
allowed_from processing = pending ∷ processing ∷ []
allowed_from completed = processing ∷ []
allowed_from failed = pending ∷ processing ∷ []
allowed_from pending = []

-- `processing_status = ANY($3)`
abbrev pub is_any : ProcessingStatus → List ProcessingStatus → Bool
is_any s from = any (same s) from

pub data Leads (a : ProcessingStatus) : ProcessingStatus → Type 0 where
  here : Leads a a
  move : {b c : ProcessingStatus} → Leads a b → is_any b (allowed_from c) ≡ true → Leads a c

pub Leads-trans : {a b c : ProcessingStatus} → Leads a b → Leads b c → Leads a c
Leads-trans p here = p
Leads-trans p (move q h) = move (Leads-trans p q) h

abbrev pub is_terminal : ProcessingStatus → Bool
is_terminal s = same s completed || same s failed

-- No sequence of transitions leaves `completed` or `failed`.
pub terminal : {a b : ProcessingStatus} → Leads a b → is_terminal a ≡ true → b ≡ a
unfolding allowed_from
terminal here h = refl
terminal {b = pending} (move q e) h = ground arith
terminal {b = processing} (move q e) h = ground (arith, terminal q h)
terminal {b = completed} (move q e) h = ground (arith, terminal q h)
terminal {b = failed} (move q e) h = ground (arith, terminal q h)
