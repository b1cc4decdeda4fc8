-- ===== src/Domain/UploadStatus.antt =====
-- UploadStatus of internal/domain/domain.go. The column's CHECK constraint admits these values only.
use gophprofile.Base.{ℕ, ◌==◌, ◌≡◌, refl, Bool, true, false, List, [], ◌∷◌, any, arith}

pub data UploadStatus : Type 0 where
  uploading uploaded failed : UploadStatus

abbrev tag : UploadStatus → ℕ
tag uploading = 0
tag uploaded = 1
tag failed = 2

abbrev pub same : UploadStatus → UploadStatus → Bool
same a b = tag a == tag b

unfoldable pub allowed_from : UploadStatus → List UploadStatus
allowed_from uploaded = uploading ∷ []
allowed_from failed = uploading ∷ []
allowed_from uploading = []

-- `upload_status = ANY($3)`
abbrev pub is_any : UploadStatus → List UploadStatus → Bool
is_any s from = any (same s) from

-- The statuses that a record can go through, by the transitions that `allowed_from` lists.
pub data Leads (a : UploadStatus) : UploadStatus → Type 0 where
  here : Leads a a
  move : {b c : UploadStatus} → Leads a b → is_any b (allowed_from c) ≡ true → Leads a c

pub Leads-trans : {a b c : UploadStatus} → Leads a b → Leads b c → Leads a c
Leads-trans p here = p
Leads-trans p (move q h) = move (Leads-trans p q) h

-- Once an upload has ended, in success or failure, no sequence of transitions changes its status.
pub ended : {a b : UploadStatus} → Leads a b → same a uploading ≡ false → b ≡ a
unfolding allowed_from
ended here h = refl
ended {b = uploading} (move q e) h = ground arith
ended {b = uploaded} (move q e) h = ground (arith, ended q h)
ended {b = failed} (move q e) h = ground (arith, ended q h)
