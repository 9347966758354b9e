-- ===== src/Server/Images/Roundtrip.antt =====
-- crates/xrouter-server/src/translate.rs: an image from an Anthropic request to its URL and back.
use xrouter.Common.{
  ℕ, ◌≡◌, refl, sym, ap, ◌∙◌, ◌≢◌, Option, none, some, [], ◌∷◌, ◌++◌, Text, codes, text_eq,
  option_or, strip_prefix, split_once, All, All-append, append_assoc, arith,
}
use xrouter.Json.{find_field}
use xrouter.Server.Images.{
  before_semicolon, image, base64_source, data_url, data_image, parts_image,
  openai_image_url_to_anthropic, anthropic_image_to_openai_url,
}

before_semicolon-append :
    (s t : Text) → All (λ (c : ℕ). c ≢ b';') s → before_semicolon (s ++ b';' ∷ t) ≡ s
unfolding before_semicolon
before_semicolon-append [] t h = refl
before_semicolon-append (c ∷ s) t h = ground (arith, h.0, before_semicolon-append s t h.1)

split_once-append :
    (s t : Text) → All (λ (c : ℕ). c ≢ b',') s → split_once b',' (s ++ b',' ∷ t) ≡ some (s, t)
unfolding split_once
split_once-append [] t h = refl
split_once-append (c ∷ s) t h = ground (arith, h.0, split_once-append s t h.1)

data_image-data_url :
    (media_type body : Text)
    → All (λ (c : ℕ). c ≢ b';') media_type
    → All (λ (c : ℕ). c ≢ b',') media_type
    → strip_prefix (codes "base64,") body ≡ none
    → data_image (media_type ++ (codes ";base64," ++ body))
      ≡ some (image (base64_source media_type body))
unfolding data_image
data_image-data_url media_type body h k n =
    let kind = codes ";base64" in
    let no_comma : All (λ (c : ℕ). c ≢ b',') kind = (
      omega arith,
      (omega arith, (omega arith, (omega arith, (omega arith, (omega arith, (omega arith, tt)))))),
    ) in
    let parts =
      ap (split_once b',') (sym (append_assoc media_type kind (b',' ∷ body)))
      ∙ split_once-append (media_type ++ kind) body
          (All-append (λ (c : ℕ). c ≢ b',') media_type kind k no_comma) in
    ap parts_image parts
    ∙ ap
        (λ (m : Text).
          some (image (base64_source m (option_or (strip_prefix (codes "base64,") body) body))))
        (before_semicolon-append media_type (codes "base64") h)
    ∙ ap (λ (o : Option Text). some (image (base64_source media_type (option_or o body)))) n

-- The URL of an image in base64 is translated back to the image, if its media type has no ';' and no
-- ',' and its data do not start with "base64,".
pub openai_image-anthropic_image :
    (media_type body : Text)
    → All (λ (c : ℕ). c ≢ b';') media_type
    → All (λ (c : ℕ). c ≢ b',') media_type
    → strip_prefix (codes "base64,") body ≡ none
    → (url : Text) × (anthropic_image_to_openai_url (image (base64_source media_type body))
        ≡ some url)
      × (openai_image_url_to_anthropic url ≡ some (image (base64_source media_type body)))
unfolding anthropic_image_to_openai_url openai_image_url_to_anthropic find_field text_eq
    strip_prefix
openai_image-anthropic_image media_type body h k n =
    (data_url media_type body, refl, data_image-data_url media_type body h k n)
