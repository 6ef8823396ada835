-- ===== src/Requests/FromChat/RoundTrip/Images.antt =====
-- The source of an image, as a URL and read again.
use text.Mathlib.TextLemmas.{nil-append, append-nil}
use plano.Prelude.{
  false, none, some, String, ◌<>◌, starts_with, starts_with-append, strip_prefix-append, split_once,
  split_once-append, rejoin, piece_of, first_piece, ◌≡◌, refl, ap, ◌∙◌,
}
use plano.Streaming.Sse.{MessagesImageSource}
use plano.Requests.{ImageUrl}
use plano.Requests.FromMessages.{convert_image_source_to_url}
use plano.Requests.FromChat.{media_type_in, media_type_of, convert_image_url_to_source}

-- A URL that holds no data, or data under a media type without a comma or a semicolon.
pub data IsSource : MessagesImageSource → Type 0 where
  remote : (u : String) → starts_with u "data:" ≡ false → IsSource (MessagesImageSource.url u)
  inline :
      (media_type base64_data : String)
      → split_once b',' media_type ≡ none
      → split_once b';' media_type ≡ none
      → IsSource (MessagesImageSource.base64 media_type base64_data)

cut_data :
    (base64_data : String)
    → split_once b',' (";base64," <> base64_data) ≡ some (";base64", base64_data)
unfolding split_once
cut_data base64_data =
    split_once-append b',' ";base64," base64_data
    ∙ ap (λ t. some (";base64", t)) (nil-append base64_data)

cut_type :
    (media_type base64_data : String)
    → split_once b',' media_type ≡ none
    → split_once b',' (media_type <> (";base64," <> base64_data))
      ≡ some (media_type <> ";base64", base64_data)
cut_type media_type base64_data no_comma =
    split_once-append b',' media_type (";base64," <> base64_data)
    ∙ rw (no_comma, cut_data base64_data) refl

cut_url :
    (media_type base64_data : String)
    → split_once b',' media_type ≡ none
    → split_once b',' ("data:" <> (media_type <> (";base64," <> base64_data)))
      ≡ some ("data:" <> (media_type <> ";base64"), base64_data)
unfolding split_once
cut_url media_type base64_data no_comma =
    split_once-append b',' "data:" (media_type <> (";base64," <> base64_data))
    ∙ ap (rejoin "data:" (media_type <> (";base64," <> base64_data)) none)
        (cut_type media_type base64_data no_comma)

cut_header :
    (media_type : String)
    → split_once b';' media_type ≡ none
    → first_piece b';' (media_type <> ";base64") ≡ media_type
unfolding split_once first_piece
cut_header media_type no_semicolon =
    ap (piece_of (media_type <> ";base64")) (
      split_once-append b';' media_type ";base64"
      ∙ ap (λ cut. rejoin media_type ";base64" cut (some ("", "base64"))) no_semicolon)
    ∙ append-nil media_type

media_type-header :
    (media_type : String)
    → split_once b';' media_type ≡ none
    → media_type_of ("data:" <> (media_type <> ";base64")) ≡ media_type
media_type-header media_type no_semicolon =
    ap media_type_in (strip_prefix-append "data:" (media_type <> ";base64"))
    ∙ cut_header media_type no_semicolon

abbrev pub auto_url : MessagesImageSource → ImageUrl
auto_url source = record { url = convert_image_source_to_url source; detail = some "auto" }

pub convert_image_url-auto_url :
    {source : MessagesImageSource}
    → IsSource source
    → convert_image_url_to_source (auto_url source) ≡ source
unfolding convert_image_url_to_source convert_image_source_to_url
convert_image_url-auto_url (remote u no_data) = rw no_data refl
convert_image_url-auto_url (inline media_type base64_data no_comma no_semicolon) =
    rw
      (
        starts_with-append "data:" (media_type <> (";base64," <> base64_data)),
        cut_url media_type base64_data no_comma,
        media_type-header media_type no_semicolon,
      )
      refl
