-- ===== src/S3/Evolution.antt =====
-- The calls of the storage leave the table to others.
use gophprofile.Base.{ℕ, String, List, [], ◌∷◌, refl}
use gophprofile.World.{meet}
use gophprofile.World.Keeps.{Keeps, Keeps-bind, Keeps-perform, keeps_rules, Rely-turn, Rely-rest}
use gophprofile.Postgres.Evolution.{Evolution, Evolution-preorder, Evolution-same}
use gophprofile.Postgres.Methods.{read-Keeps}
use gophprofile.S3.{put, get, delete_batch, delete_many}

pub put-Keeps :
    (etag_of : List ℕ → String) (key : String) (body : List ℕ) (size : ℕ) (content_type : String)
    → Keeps Evolution (put etag_of key body size content_type)
unfolding put
put-Keeps etag_of key body size content_type =
    Keeps-bind _ _ (Keeps-perform _ (λ n s. Evolution-same s _ refl refl)) (search keeps_rules)

pub get-Keeps : (key : String) → Keeps Evolution (get key)
unfolding get
get-Keeps key = search (keeps_rules, read-Keeps) depth 7

delete_batch-Keeps : (keys : List String) → Keeps Evolution (delete_batch keys)
unfolding delete_batch meet
delete_batch-Keeps keys = record {
  at = λ w h. (
    Evolution-preorder.trans _ _ _ (Rely-turn Evolution Evolution-preorder w.script h w.shared)
        (Evolution-same _ _ refl refl),
    Rely-rest Evolution w.script h,
  );
}

pub delete_many-Keeps : (keys : List String) → Keeps Evolution (delete_many keys)
unfolding delete_many
delete_many-Keeps [] = search keeps_rules
delete_many-Keeps (k ∷ ks) = delete_batch-Keeps (k ∷ ks)

pub ruleset storage_rules = (put-Keeps, get-Keeps, delete_many-Keeps)
