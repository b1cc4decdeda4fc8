-- ===== src/Imageproc/Complete.antt =====
-- internal/imageproc/thumbnail.go: what Thumbnails makes.
use gophprofile.Base.{
  ℕ, zero, suc, ◌≤◌, ◌<◌, String, ◌≡◌, refl, sym, ap, ◌∙◌, subst, inl, inr, Bool, true, false, ◌||◌,
  Option, none, some, List, [], ◌∷◌, ◌++◌, All, arith, length, take, leb, leb→le, str_eq, eq_iff, ℤ,
  pos, Bool-cases, StringMap, if◌then◌else◌, lookup, insert, insert-here, insert-elsewhere,
}
use gophprofile.Fault.{Error, Result, ok, err, wrap}
use gophprofile.Domain.Thumbnail.{ThumbnailSize, dimensions}
use gophprofile.Imageproc.{
  joined, sniff_len, within, Sides, Processor, Stream, Codecs, read_head, drop, check_mime,
  decode_config, decode, encode, flatten, each, thumbnail, thumbnails, added, opened, known,
  measured, decoded, all_of,
}
use gophprofile.Imageproc.Limits.{Fits, HasSmallSides, decode_config-Fits}

-- Under the size there is the picture, scaled to fill its sides, on white, and encoded with the quality.
abbrev pub Has :
    {Picture : Type 0}
    → Codecs Picture
    → Processor
    → Picture
    → StringMap (List ℕ)
    → ThumbnailSize
    → Type 0
Has codecs p img m size =
    let (width, height) = dimensions size in
    (bytes : List ℕ) × (lookup size m ≡ some bytes)
    × (codecs.encode_jpeg p.jpeg_quality
          (codecs.overlay_on_white (codecs.fill img width height) width height)
        ≡ ok bytes)
    × (0 < width)
    × (0 < height)

take-drop : (n : ℕ) (bs : List ℕ) → take n bs ++ drop n bs ≡ bs
take-drop zero bs = refl
take-drop (suc n) [] = refl
take-drop (suc n) (b ∷ bs) = ap (λ xs. b ∷ xs) (take-drop n bs)

length-take : (n : ℕ) (bs : List ℕ) → n ≤ length bs → length (take n bs) ≡ n
length-take zero bs h = refl
length-take (suc n) [] h = omega arith
length-take (suc n) (b ∷ bs) h = omega (arith, length-take n bs (omega arith))

drop-length : (bs : List ℕ) → drop (length bs) bs ≡ []
drop-length [] = refl
drop-length (b ∷ bs) = drop-length bs

append-nil : (bs : List ℕ) → bs ++ [] ≡ bs
append-nil [] = refl
append-nil (b ∷ bs) = ap (λ xs. b ∷ xs) (append-nil bs)

if-sides :
    {A : Type 0} (e : Error) (r : Result A) (width height : ℕ) (a : A)
    → (if leb width 0 || leb height 0 then err e else r) ≡ ok a
    → ((0 < width) × (0 < height)) × (r ≡ ok a)
if-sides e r width height a h = ground arith

ok-inj : {A : Type 0} (a b : A) → ok a ≡ ok b → a ≡ b
ok-inj a b h = cc h

module _ {Picture : Type 0} (codecs : Codecs Picture) (p : Processor) where
  added-ok :
      (size : ThumbnailSize) (r : Result (List ℕ)) (thumbs res : StringMap (List ℕ))
      → added codecs p size r thumbs ≡ ok res
      → (bytes : List ℕ) × (res ≡ insert size bytes thumbs) × (r ≡ ok bytes)
  added-ok size (err e) thumbs res h = ground arith
  added-ok size (ok bytes) thumbs res h = (bytes, cc h, refl)

  -- One thumbnail more, and those of other sizes as before.
  thumbnail-ok :
      (img : Picture) (size : ThumbnailSize) (thumbs res : StringMap (List ℕ))
      → thumbnail codecs p img size thumbs ≡ ok res
      → Has codecs p img res size
        × ((k : ThumbnailSize) → Has codecs p img thumbs k → Has codecs p img res k)
  unfolding encode flatten
  thumbnail-ok img size thumbs res h =
      let (wide, then_added) = if-sides _ _ _ _ res h in
      let (bytes, e, made) = added-ok size _ thumbs res then_added in
      let here : Has codecs p img res size =
        (bytes, rw e (insert-here thumbs size bytes), made, wide.0, wide.1) in
      (
        here,
        λ k old. elim (Bool-cases (str_eq size k)) [
          | inl same ↦ subst (Has codecs p img res) ((eq_iff size k).0 same) here
          | inr differ ↦ (
            old.0,
            rw e (insert-elsewhere thumbs size k bytes differ) ∙ old.1,
            old.2,
            old.3,
            old.4,
          )
        ],
      )

  -- One step of the loop.
  after :
      (img : Picture) (sizes : List ThumbnailSize) (r : Result (StringMap (List ℕ)))
      (res : StringMap (List ℕ))
      → each codecs p img sizes r ≡ ok res
      → (m : StringMap (List ℕ)) × (r ≡ ok m)
  unfolding each
  after img sizes (ok m) res h = (m, refl)
  after img [] (err e) res h = ground arith
  after img (size ∷ sizes) (err e) res h = ground arith

  each-Has :
      (img : Picture) (sizes : List ThumbnailSize) (thumbs res : StringMap (List ℕ))
      (k : ThumbnailSize)
      → each codecs p img sizes (ok thumbs) ≡ ok res
      → Has codecs p img thumbs k
      → Has codecs p img res k
  unfolding each
  each-Has img [] thumbs res k h a = subst (λ m. Has codecs p img m k) (ok-inj thumbs res h) a
  each-Has img (size ∷ sizes) thumbs res k h a =
      let (m, e) = after img sizes (thumbnail codecs p img size thumbs) res h in
      each-Has img sizes m res k (subst (λ r. each codecs p img sizes r ≡ ok res) e h)
        ((thumbnail-ok img size thumbs m e).1 k a)

  each-All :
      (img : Picture) (sizes : List ThumbnailSize) (thumbs res : StringMap (List ℕ))
      → each codecs p img sizes (ok thumbs) ≡ ok res
      → All (Has codecs p img res) sizes
  unfolding each
  each-All img [] thumbs res h = tt
  each-All img (size ∷ sizes) thumbs res h =
      let (m, e) = after img sizes (thumbnail codecs p img size thumbs) res h in
      let g = subst (λ r. each codecs p img sizes r ≡ ok res) e h in
      (
        each-Has img sizes m res size g (thumbnail-ok img size thumbs m e).0,
        each-All img sizes m res g,
      )

abbrev Whole : List ℕ → List ℕ → Type 0
Whole bs head = head ++ drop (length head) bs ≡ bs

take-Whole : (n : ℕ) (bs : List ℕ) → n ≤ length bs → Whole bs (take n bs)
take-Whole n bs h =
    subst (λ k. take n bs ++ drop k bs ≡ bs) (sym (length-take n bs h)) (take-drop n bs)

all-Whole : (bs : List ℕ) → Whole bs bs
all-Whole bs = ap (λ x. bs ++ x) (drop-length bs) ∙ append-nil bs

head-Whole :
    (full : Bool) (failure : Option Error) (bs head : List ℕ)
    → (full ≡ true → sniff_len ≤ length bs)
    → (if full
        then ok (take sniff_len bs)
        else elim failure [ some e ↦ err (wrap e) | none ↦ ok bs ])
      ≡ ok head
    → Whole bs head
head-Whole true failure bs head f h =
    subst (Whole bs) (ok-inj _ head h) (take-Whole sniff_len bs (f refl))
head-Whole false none bs head f h = subst (Whole bs) (ok-inj bs head h) (all-Whole bs)
head-Whole false (some e) bs head f h = ground arith

read_head-Whole : (s : Stream) (head : List ℕ) → read_head s ≡ ok head → Whole s.bytes head
unfolding read_head
read_head-Whole s head h =
    head-Whole (leb sniff_len (length s.bytes)) s.failure s.bytes head (leb→le _ _) h

within-ok : (limit : ℤ) (r : Result Sides) (d : Sides) → within limit r ≡ ok d → r ≡ ok d
unfolding within
within-ok limit (err e) d h = ground arith
within-ok limit (ok c) d h = ground arith

module _ {Picture : Type 0} (codecs : Codecs Picture) (p : Processor) where
  -- A picture that is decoded is that of the whole stream, and its sides have passed the checks.
  abbrev Decoded : Stream → Picture → Type 0
  Decoded s img = (codecs.decode s ≡ ok img) × (d : Sides) × ((decode_config codecs p s).0 ≡ ok d)

  -- The type of its head is one of those that are supported.
  abbrev Typed : Result (List ℕ) → Type 0
  Typed r = (head : List ℕ) × (mime : String) × (r ≡ ok head) × (check_mime codecs head ≡ ok mime)

  decoded-ok : (r : Result Picture) (img : Picture) → decoded codecs p r ≡ ok img → r ≡ ok img
  decoded-ok (err e) img h = ground arith
  decoded-ok (ok i) img h = h

  measured-Decoded :
      (s : Stream) (r : Result Sides × ℕ) (img : Picture)
      → measured codecs p s r ≡ ok img
      → (codecs.decode s ≡ ok img) × (d : Sides) × (r.0 ≡ ok d)
  measured-Decoded s (err e, n) img h = ground arith
  measured-Decoded s (ok d, n) img h =
      let e = decoded-ok (codecs.decode (joined codecs p n s)) img h in
      (
        subst (λ bs. codecs.decode (record s { bytes = bs }) ≡ ok img) (take-drop n s.bytes) e,
        d,
        refl,
      )

  known-Decoded :
      (s : Stream) (r : Result String) (img : Picture)
      → known codecs p s r ≡ ok img
      → Decoded s img × (mime : String) × (r ≡ ok mime)
  known-Decoded s (err e) img h = ground arith
  known-Decoded s (ok mime) img h =
      (measured-Decoded s (decode_config codecs p s) img h, mime, refl)

  opened-Decoded :
      (s : Stream) (r : Result (List ℕ)) (img : Picture)
      → ((head : List ℕ) → r ≡ ok head → Whole s.bytes head)
      → opened codecs p s r ≡ ok img
      → Decoded s img × Typed r
  opened-Decoded s (err e) img g h = ground arith
  opened-Decoded s (ok head) img g h =
      let (d, mime, m) = known-Decoded s (check_mime codecs head) img (
        subst (λ bs. known codecs p (record s { bytes = bs }) (check_mime codecs head) ≡ ok img)
          (g head refl) h) in
      (d, (head, mime, refl, m))

  all_of-ok :
      (sizes : List ThumbnailSize) (r : Result Picture) (res : StringMap (List ℕ))
      → all_of codecs p sizes r ≡ ok res
      → (img : Picture) × (r ≡ ok img) × All (Has codecs p img res) sizes
  all_of-ok sizes (err e) res h = ground arith
  all_of-ok sizes (ok img) res h = (img, refl, each-All codecs p img sizes [] res h)

-- Where thumbnails are made, there is one of each size that was asked for: the picture that was decoded
-- from the whole stream, scaled to fill the sides of that size, put on white and encoded with the quality
-- that is configured. It was decoded only after its header had shown sides that are positive and within
-- the limit on pixels. The decoders of the supported types are taken to answer sides of less than 31
-- bits.
pub thumbnails-Has :
    {Picture : Type 0} (codecs : Codecs Picture) (p : Processor) (limit : ℕ) (s : Stream)
    (sizes : List ThumbnailSize) (res : StringMap (List ℕ))
    → p.max_pixels ≡ pos limit
    → HasSmallSides codecs
    → thumbnails codecs p s sizes ≡ ok res
    → (img : Picture) × (codecs.decode s ≡ ok img)
      × All (Has codecs p img res) sizes
      × (d : Sides) × ((codecs.decode_config s).0 ≡ ok d)
      × Fits limit d
unfolding thumbnails decode decode_config
thumbnails-Has codecs p limit s sizes res l sides h =
    let (img, e, all) = all_of-ok codecs p sizes (decode codecs p s) res h in
    let ((q, d, f), (head, mime, r, m)) =
      opened-Decoded codecs p s (read_head s) img (read_head-Whole s) e in
    let fits = decode_config-Fits codecs p limit l sides s head mime d r m f in
    (img, q, all, d, within-ok p.max_pixels (codecs.decode_config s).0 d f, fits)
