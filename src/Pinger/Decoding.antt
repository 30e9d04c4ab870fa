-- ===== src/Pinger/Decoding.antt =====
-- internal/pinger/compression.go: the decoders that a Content-Encoding calls for.
use w8nc.Base.{
  ◌+◌, ◌*◌, ◌/◌, ◌%◌, Bool, false, ◌&&◌, ◌||◌, List, [], ◌∷◌, ◌++◌, ltb, leb, ◌==◌, if◌then◌else◌,
  length,
}
use w8nc.Base.Result.{Result, ok, err, ◌>>=◌}
use w8nc.Base.Text.{Text, codes, text_eq, is_empty, trim_space, to_lower}
use w8nc.Pinger.{Stream, Decoders, World}
use mathlib.Core.List.{reverse}

-- strings.Split(s, ","), with the piece before `s`.
unfoldable pub split_commas : Text → Text → List Text
split_commas piece [] = piece ∷ []
split_commas piece (c ∷ s) =
    let cut = piece ∷ split_commas [] s in
    let longer = split_commas (piece ++ c ∷ []) s in if c == b',' then cut else longer

-- Whether two bytes are the header of zlib.
abbrev pub is_zlib : Text → Bool
is_zlib [] = false
is_zlib (a ∷ []) = false
is_zlib (a ∷ b ∷ bytes) = a % 16 == 8 && (leb (a / 16) 7 && (a * 256 + b) % 31 == 0)

abbrev pub inflated : Decoders → Stream → Result Text Stream
inflated d body = if is_zlib body.content then d.zlib body else ok (d.flate body)

abbrev pub is_plain : Text → Bool
is_plain encoding = is_empty encoding || text_eq encoding (codes "identity")

abbrev pub is_gzip : Text → Bool
is_gzip encoding = text_eq encoding (codes "gzip") || text_eq encoding (codes "x-gzip")

-- The `switch` on the encoding.
unfoldable pub decoder : World → Text → Stream → Result Text Stream
decoder w encoding body =
    if is_plain encoding
    then ok body
    else if is_gzip encoding
    then w.decoders.gzip body
    else if text_eq encoding (codes "deflate")
    then inflated w.decoders body
    else if text_eq encoding (codes "br")
    then ok (w.decoders.brotli body)
    else if text_eq encoding (codes "zstd")
    then w.decoders.zstd body
    else err (codes "unsupported response content encoding " ++ w.quote encoding)

abbrev pub wrapped : Result Text Stream → Result Text Stream
wrapped (ok body) = ok body
wrapped (err message) = err (codes "decode response: " ++ message)

-- The loop, over the encodings from the last one on.
unfoldable pub decode_each : World → List Text → Stream → Result Text Stream
decode_each w [] body = ok body
decode_each w (encoding ∷ encodings) body =
    wrapped (decoder w (to_lower (trim_space encoding)) body) >>= decode_each w encodings

-- decodedResponseBody; nothing is modelled of closing the decoders.
unfoldable pub decoded_response_body : World → Stream → Text → Result Text Stream
decoded_response_body w body content_encoding =
    let encodings = split_commas [] content_encoding in
    if ltb 4 (length encodings)
    then err (codes "too many response content encodings")
    else decode_each w (reverse encodings) body
