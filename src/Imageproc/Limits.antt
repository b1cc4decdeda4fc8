-- ===== src/Imageproc/Limits.antt =====
-- internal/imageproc: what is true of an image that is accepted.
use native.Mathlib.Nat.{mul-le-mul}
use gophprofile.Base.{
  ℕ, ◌*◌, ◌≤◌, ◌<◌, String, ◌≡◌, refl, ◌⊎◌, Option, none, some, List, [], ◌∷◌, arith, subst, ap,
  sym, length, eq_iff, pos, int64_of,
}
use gophprofile.Fault.{Error, Result, ok, err}
use gophprofile.Imageproc.{
  mime_jpeg, mime_png, mime_webp, Info, Sides, Processor, Stream, Codecs, File, rewound, seek_start,
  advance, read_head, check_mime, within, decode_config, validate, ahead, rest, deferred, headed,
  typed, from_start, sized,
}

-- The types of originals.
abbrev pub IsSupported : String → Type 0
IsSupported mime = (mime ≡ mime_jpeg) ⊎ (mime ≡ mime_png) ⊎ (mime ≡ mime_webp)

-- A side of JPEG has 16 bits and one of WebP 24, and the decoder of PNG refuses those that are not positive
-- as an int32.
abbrev pub side_limit : ℕ
side_limit = 2147483648

int64_fits : (n : ℕ) → n ≤ 4611686014132420609 → int64_of n ≡ pos n
int64_fits n h = ground arith

area_fits : (w h : ℕ) → w < side_limit → h < side_limit → int64_of (w * h) ≡ pos (w * h)
area_fits w h a b =
    int64_fits (w * h)
      (mul-le-mul {n₁ = w} {m₁ = h} {n₂ = 2147483647} {m₂ = 2147483647} (omega arith) (omega arith))

abbrev pub Fits : ℕ → Sides → Type 0
Fits limit d = (0 < d.width) × (0 < d.height) × (d.width * d.height ≤ limit)

within-Fits :
    (limit : ℕ) (r : Result Sides) (e : Sides)
    → ((d : Sides) → r ≡ ok d → (d.width < side_limit) × (d.height < side_limit))
    → within (pos limit) r ≡ ok e
    → Fits limit e
unfolding within
within-Fits limit (err e) d sides h = ground arith
within-Fits limit (ok d) e sides h =
    let (a, b) = sides d refl in ground (arith, area_fits d.width d.height a b)

check_mime-IsSupported :
    {Picture : Type 0} (codecs : Codecs Picture) (head : List ℕ) (mime : String)
    → check_mime codecs head ≡ ok mime
    → IsSupported mime × IsSupported (codecs.detect_content_type head)
unfolding check_mime
check_mime-IsSupported codecs head mime h =
    let m = codecs.detect_content_type head in
    ground (arith, eq_iff m mime_jpeg, eq_iff m mime_png, eq_iff m mime_webp)

deferred_ok :
    {Picture : Type 0} (codecs : Codecs Picture) (p : Processor) (r : Result Info × File)
    (info : Info)
    → (deferred codecs p r).0 ≡ ok info
    → (r.0 ≡ ok info) × ((deferred codecs p r).1.position ≡ 0)
unfolding seek_start
deferred_ok codecs p (ok i, f) info h = ground arith
deferred_ok codecs p (err e, f) info h = ground arith

abbrev Accepted : ℕ → Info → Type 0
Accepted limit i =
    IsSupported i.mime_type × (0 < i.width) × (0 < i.height) × (i.width * i.height ≤ limit)

-- What the decoders of the supported types keep to: a stream whose head is detected as one of them has
-- sides of less than 31 bits.
abbrev pub HasSmallSides : {Picture : Type 0} → Codecs Picture → Type 0
HasSmallSides codecs =
    (s : Stream) (head : List ℕ) (d : Sides)
    → read_head s ≡ ok head
    → IsSupported (codecs.detect_content_type head)
    → (codecs.decode_config s).0 ≡ ok d
    → (d.width < side_limit) × (d.height < side_limit)

-- Seek to the start, where it succeeds.
rewound-ahead :
    (seeks : List (Option Error)) (f : File)
    → (rewound seeks f).0 ≡ none
    → ahead (rewound seeks f).1 ≡ f.content
unfolding rewound
rewound-ahead [] f h = refl
rewound-ahead (none ∷ seeks) f h = refl
rewound-ahead (some e ∷ seeks) f h = ground arith

seek_start-ahead : (f : File) → (seek_start f).0 ≡ none → ahead (seek_start f).1 ≡ f.content
unfolding seek_start
seek_start-ahead f h = rewound-ahead f.seeks f h

module _ {Picture : Type 0} (codecs : Codecs Picture) (p : Processor) (limit : ℕ)
    (max_pixels : p.max_pixels ≡ pos limit) (sides : HasSmallSides codecs) where
  pub decode_config-Fits :
      (s : Stream) (head : List ℕ) (mime : String) (d : Sides)
      → read_head s ≡ ok head
      → check_mime codecs head ≡ ok mime
      → (decode_config codecs p s).0 ≡ ok d
      → Fits limit d
  unfolding decode_config
  decode_config-Fits s head mime d r m h =
      within-Fits limit (codecs.decode_config s).0 d
        (λ e q. sides s head e r (check_mime-IsSupported codecs head mime m).1 q)
        (subst (λ k. within k (codecs.decode_config s).0 ≡ ok d) max_pixels h)

  sized-Accepted :
      (mime : String) (r : Result Sides × ℕ) (f : File) (info : Info)
      → IsSupported mime
      → ((d : Sides) → r.0 ≡ ok d → Fits limit d)
      → (sized codecs p mime r f).0 ≡ ok info
      → Accepted limit info
  sized-Accepted mime (err e, n) f info m g h = ground arith
  sized-Accepted mime (ok d, n) f info m g h = let fits = g d refl in ground arith

  from_start-Accepted :
      (mime : String) (r : Option Error × File) (info : Info)
      → IsSupported mime
      → (r.0 ≡ none → (d : Sides) → (decode_config codecs p (ahead r.1)).0 ≡ ok d → Fits limit d)
      → (from_start codecs p mime r).0 ≡ ok info
      → Accepted limit info
  from_start-Accepted mime (some e, f) info m g h = ground arith
  from_start-Accepted mime (none, f) info m g h =
      sized-Accepted mime (decode_config codecs p (ahead f)) f info m (g refl) h

  typed-Accepted :
      (head : List ℕ) (r : Result String) (f : File) (info : Info)
      → read_head f.content ≡ ok head
      → check_mime codecs head ≡ r
      → (typed codecs p r f).0 ≡ ok info
      → Accepted limit info
  typed-Accepted head (err e) f info q m h = ground arith
  typed-Accepted head (ok mime) f info q m h =
      from_start-Accepted mime (seek_start f) info (check_mime-IsSupported codecs head mime m).0
        (λ e d g.
          decode_config-Fits f.content head mime d q m
            (subst (λ t. (decode_config codecs p t).0 ≡ ok d) (seek_start-ahead f e) g))
        h

  headed-Accepted :
      (r : Result (List ℕ)) (f : File) (info : Info)
      → read_head f.content ≡ r
      → (headed codecs p r f).0 ≡ ok info
      → Accepted limit info
  unfolding advance
  headed-Accepted (err e) f info q h = ground arith
  headed-Accepted (ok head) f info q h =
      typed-Accepted head (check_mime codecs head) (advance (length head) f) info q refl h

-- An image that is accepted has a type that is supported, both sides positive, and no more pixels than
-- the limit, also where the number of pixels is computed in 64 bits; and the file is given back at its
-- start. The file stands at its start, and the decoders of the supported types are taken to answer
-- sides of less than 31 bits.
pub validate-IsSupported :
    {Picture : Type 0} (codecs : Codecs Picture) (p : Processor) (limit : ℕ) (f : File)
    (info : Info)
    → p.max_pixels ≡ pos limit
    → HasSmallSides codecs
    → f.position ≡ 0
    → (validate codecs p f).0 ≡ ok info
    → IsSupported info.mime_type
      × (0 < info.width)
      × (0 < info.height)
      × (info.width * info.height ≤ limit)
      × ((validate codecs p f).1.position ≡ 0)
unfolding validate
validate-IsSupported codecs p limit f info l sides at_start h =
    let (r, start) = deferred_ok codecs p (headed codecs p (read_head (ahead f)) f) info h in
    let (mime, width, height, pixels) =
      headed-Accepted codecs p limit l sides (read_head (ahead f)) f info
        (ap (λ k. read_head (rest k f.content)) (sym at_start)) r in
    (mime, width, height, pixels, start)
