-- ===== src/Imageproc.antt =====
-- internal/imageproc: the checks of an image before it is decoded, and the thumbnails. The detection
-- of a type, the decoders, the scaling and the encoder are in the record `Codecs`.
pub mod Limits
pub mod Complete
use gophprofile.Base.{
  ℕ, zero, suc, ◌+◌, ◌*◌, ◌/◌, ◌%◌, String, Bool, true, false, not, ◌&&◌, ◌||◌, Option, none, some,
  List, [], ◌∷◌, ◌++◌, length, take, get_or, ltb, leb, ◌==◌, str_eq, if◌then◌else◌, ℤ, leq,
  int64_of, codes, StringMap, insert,
}
use gophprofile.Fault.{
  Error, Result, ok, err, wrap, both, sentinel, unsupported_format, image_too_big, unsupported_size,
}
use gophprofile.Domain.Thumbnail.{ThumbnailSize, dimensions}
use gophprofile.Config.{Image}

abbrev pub mime_jpeg : String
mime_jpeg = "image/jpeg"

abbrev pub mime_png : String
mime_png = "image/png"

abbrev pub mime_webp : String
mime_webp = "image/webp"

abbrev pub sniff_len : ℕ
sniff_len = 512

pub record Info : Type 0 where
  pub mime_type : String
  pub width : ℕ
  pub height : ℕ

-- image.Config
pub record Sides : Type 0 where
  pub width : ℕ
  pub height : ℕ

pub record Processor : Type 0 where
  pub max_pixels : ℤ
  pub jpeg_quality : ℤ

unfoldable pub new : Image → Processor
new cfg = record { max_pixels = cfg.max_pixels; jpeg_quality = cfg.jpeg_quality }

-- What is left of a stream, and the error that stands at its end in place of io.EOF.
pub record Stream : Type 0 where
  pub bytes : List ℕ
  pub failure : Option Error

abbrev drop : ℕ → List ℕ → List ℕ
drop zero bs = bs
drop (suc n) [] = []
drop (suc n) (b ∷ bs) = drop n bs

abbrev rest : ℕ → Stream → Stream
rest n s = record s { bytes = drop n s.bytes }

-- io.ReadFull fails only where the stream fails before the buffer is full.
unfoldable pub read_head : Stream → Result (List ℕ)
read_head s =
    if leb sniff_len (length s.bytes)
    then ok (take sniff_len s.bytes)
    else elim s.failure [ some e ↦ err (wrap e) | none ↦ ok s.bytes ]

abbrev webp_chunk_at : ℕ
webp_chunk_at = 12

abbrev webp_flags_at : ℕ
webp_flags_at = 20

abbrev vp8x_chunk : String
vp8x_chunk = "VP8X"

abbrev same : List ℕ → List ℕ → Bool
same [] [] = true
same [] (d ∷ ds) = false
same (c ∷ cs) [] = false
same (c ∷ cs) (d ∷ ds) = c == d && same cs ds

-- head[webpFlagsAt] & 0x02 != 0
abbrev animation_bit : List ℕ → Bool
animation_bit head = (get_or head webp_flags_at 0 / 2) % 2 == 1

unfoldable pub is_animated_webp : List ℕ → Bool
is_animated_webp head =
    if leb (length head) webp_flags_at
    then false
    else same (take 4 (drop webp_chunk_at head)) (codes vp8x_chunk) && animation_bit head

-- `Picture` is image.Image. `decode_config` also says how many bytes it has read.
pub record Codecs (Picture : Type 0) : Type 0 where
  pub detect_content_type : List ℕ → String
  pub decode_config : Stream → Result Sides × ℕ
  pub decode : Stream → Result Picture
  pub fill : Picture → (width height : ℕ) → Picture
  pub overlay_on_white : Picture → (width height : ℕ) → Picture
  pub encode_jpeg : ℤ → Picture → Result (List ℕ)

-- The file of an upload: its contents, where it stands, and what its next calls of Seek return.
pub record File : Type 0 where
  pub content : Stream
  pub position : ℕ
  pub seeks : List (Option Error)

abbrev ahead : File → Stream
ahead f = rest f.position f.content

unfoldable pub advance : ℕ → File → File
advance n f = record f { position = f.position + n }

unfoldable rewound : List (Option Error) → File → Option Error × File
rewound [] f = (none, record f { position = 0 })
rewound (none ∷ seeks) f = (none, record f { position = 0; seeks = seeks })
rewound (some e ∷ seeks) f = (some e, record f { seeks = seeks })

-- Seek(0, io.SeekStart)
unfoldable pub seek_start : File → Option Error × File
unfolding rewound
seek_start f = rewound f.seeks f

-- The checks of the sides that decodeConfig makes.
unfoldable pub within : ℤ → Result Sides → Result Sides
within limit (err e) = err (both (sentinel unsupported_format) e)
within limit (ok d) =
    if leb d.width 0 || leb d.height 0
    then err (wrap (sentinel unsupported_format))
    else if not (leq (int64_of (d.width * d.height)) limit)
    then err (wrap (sentinel image_too_big))
    else ok d

module _ {Picture : Type 0} (codecs : Codecs Picture) where
  unfoldable pub check_mime : List ℕ → Result String
  check_mime head =
      let mime = codecs.detect_content_type head in
      if str_eq mime mime_jpeg || str_eq mime mime_png
      then ok mime
      else if str_eq mime mime_webp
      then if is_animated_webp head then err (wrap (sentinel unsupported_format)) else ok mime
      else err (wrap (sentinel unsupported_format))

  module _ (p : Processor) where
    -- decodeConfig, with how much it has read
    unfoldable pub decode_config : Stream → Result Sides × ℕ
    unfolding within
    decode_config s = let (d, n) = codecs.decode_config s in (within p.max_pixels d, n)

    abbrev sized : String → Result Sides × ℕ → File → Result Info × File
    sized mime (err e, n) f = (err e, advance n f)
    sized mime (ok d, n) f =
        (ok (record { mime_type = mime; width = d.width; height = d.height }), advance n f)

    abbrev from_start : String → Option Error × File → Result Info × File
    from_start mime (some e, f) = (err (wrap e), f)
    from_start mime (none, f) = sized mime (decode_config (ahead f)) f

    abbrev typed : Result String → File → Result Info × File
    typed (err e) f = (err e, f)
    typed (ok mime) f = from_start mime (seek_start f)

    abbrev headed : Result (List ℕ) → File → Result Info × File
    headed (err e) f = (err e, f)
    headed (ok head) f = typed (check_mime head) (advance (length head) f)

    abbrev seek_failed : Result Info → Option Error → Result Info
    seek_failed (ok info) (some e) = err (wrap e)
    seek_failed r _ = r

    -- The deferred function: the file is given back at its start.
    abbrev deferred : Result Info × File → Result Info × File
    deferred (r, f) = let (e, f') = seek_start f in (seek_failed r e, f')

    unfoldable pub validate : File → Result Info × File
    unfolding read_head check_mime decode_config seek_start advance
    validate f = deferred (headed (read_head (ahead f)) f)

    abbrev decoded : Result Picture → Result Picture
    decoded (err e) = err (both (sentinel unsupported_format) e)
    decoded (ok img) = ok img

    -- `seen` is what decodeConfig has read, and the decoder gets it before the rest.
    abbrev joined : ℕ → Stream → Stream
    joined n s = record s { bytes = take n s.bytes ++ drop n s.bytes }

    abbrev measured : Stream → Result Sides × ℕ → Result Picture
    measured s (err e, n) = err e
    measured s (ok d, n) = decoded (codecs.decode (joined n s))

    abbrev known : Stream → Result String → Result Picture
    known s (err e) = err e
    known s (ok mime) = measured s (decode_config s)

    -- The head and what the stream has after it are the stream again.
    abbrev opened : Stream → Result (List ℕ) → Result Picture
    opened s (err e) = err e
    opened s (ok head) =
        known (record s { bytes = head ++ drop (length head) s.bytes }) (check_mime head)

    unfoldable pub decode : Stream → Result Picture
    unfolding read_head check_mime decode_config
    decode s = opened s (read_head s)

    unfoldable pub encode : Picture → Result (List ℕ)
    encode img = codecs.encode_jpeg p.jpeg_quality img

    unfoldable pub flatten : Picture → (width height : ℕ) → Picture
    flatten img width height = codecs.overlay_on_white img width height

    abbrev added :
        ThumbnailSize → Result (List ℕ) → StringMap (List ℕ) → Result (StringMap (List ℕ))
    added size (err e) thumbs = err (wrap e)
    added size (ok bytes) thumbs = ok (insert size bytes thumbs)

    abbrev thumbnail : Picture → ThumbnailSize → StringMap (List ℕ) → Result (StringMap (List ℕ))
    thumbnail img size thumbs =
        let (width, height) = dimensions size in
        if leb width 0 || leb height 0
        then err (wrap (sentinel unsupported_size))
        else added size (encode (flatten (codecs.fill img width height) width height)) thumbs

    -- The loop, with what it has made so far.
    unfoldable pub each :
        Picture → List ThumbnailSize → Result (StringMap (List ℕ)) → Result (StringMap (List ℕ))
    unfolding encode flatten
    each img [] r = r
    each img (size ∷ sizes) (err e) = err e
    each img (size ∷ sizes) (ok thumbs) = each img sizes (thumbnail img size thumbs)

    abbrev all_of : List ThumbnailSize → Result Picture → Result (StringMap (List ℕ))
    all_of sizes (err e) = err e
    all_of sizes (ok img) = each img sizes (ok [])

    unfoldable pub thumbnails : Stream → List ThumbnailSize → Result (StringMap (List ℕ))
    unfolding decode each
    thumbnails s sizes = all_of sizes (decode s)
