-- ===== src/Tests/Imageproc.antt =====
-- Runs of internal/imageproc with small codecs.
use gophprofile.Base.{
  insert, ℕ, ◌*◌, ◌≤◌, ◌<◌, ◌≡◌, refl, none, some, List, [], ◌∷◌, All, arith, pos, StringMap,
}
use gophprofile.Fault.{ok, err, foreign, sentinel, wrap, image_too_big}
use gophprofile.Domain.Thumbnail.{thumbnail_sizes, dimensions}
use gophprofile.Imageproc.{Sides, Processor, Stream, Codecs, File, read_head, validate, thumbnails}
use gophprofile.Imageproc.Limits.{IsSupported, Fits, side_limit, validate-IsSupported}
use gophprofile.Imageproc.Complete.{Has, thumbnails-Has}

-- A picture is the list of its bytes.
abbrev codecs : Codecs (List ℕ)
codecs = record {
  detect_content_type = λ bs. "image/png";
  decode_config = λ s. (ok (record { width = 40; height = 30 }), 2);
  decode = λ s. ok s.bytes;
  fill = λ img w h. img;
  overlay_on_white = λ img w h. img;
  encode_jpeg = λ q img. ok img;
}

abbrev processor : Processor
processor = record { max_pixels = pos 1200; jpeg_quality = pos 85 }

abbrev tight : Processor
tight = record { max_pixels = pos 1199; jpeg_quality = pos 85 }

abbrev stream : Stream
stream = record { bytes = 1 ∷ 2 ∷ 3 ∷ []; failure = none }

abbrev file : File
file = record { content = stream; position = 0; seeks = [] }

accepted :
    ((validate codecs processor file).0
      ≡ ok (record { mime_type = "image/png"; width = 40; height = 30 }))
    × ((validate codecs tight file).0 ≡ err (wrap (sentinel image_too_big)))
    × ((validate codecs processor (record file { seeks = none ∷ some (foreign 1) ∷ [] })).0
        ≡ err (wrap (foreign 1)))
unfolding validate
accepted = (refl, refl, refl)

sides_are_small :
    (s : Stream) (head : List ℕ) (d : Sides)
    → read_head s ≡ ok head
    → IsSupported (codecs.detect_content_type head)
    → (codecs.decode_config s).0 ≡ ok d
    → (d.width < side_limit) × (d.height < side_limit)
sides_are_small s head d r t h = ground arith

validate-IsSupported_example :
    IsSupported "image/png"
    × (0 < 40)
    × (0 < 30)
    × (40 * 30 ≤ 1200)
    × ((validate codecs processor file).1.position ≡ 0)
validate-IsSupported_example =
    validate-IsSupported codecs processor 1200 file
      (record { mime_type = "image/png"; width = 40; height = 30 }) refl sides_are_small refl
      accepted.0

abbrev both_thumbnails : StringMap (List ℕ)
both_thumbnails = ("100x100", 1 ∷ 2 ∷ 3 ∷ []) ∷ ("300x300", 1 ∷ 2 ∷ 3 ∷ []) ∷ []

made : thumbnails codecs processor stream thumbnail_sizes ≡ ok both_thumbnails
unfolding thumbnails dimensions insert
made = refl

thumbnails-Has_example :
    (img : List ℕ) × (codecs.decode stream ≡ ok img)
    × All (Has codecs processor img both_thumbnails) thumbnail_sizes
    × (d : Sides) × ((codecs.decode_config stream).0 ≡ ok d)
    × Fits 1200 d
thumbnails-Has_example =
    thumbnails-Has codecs processor 1200 stream thumbnail_sizes both_thumbnails refl sides_are_small
      made
