-- ===== src/Server/Images/Tests.antt =====
-- Runs of the translation of images, and its theorem at a concrete input.
use xrouter.Common.{◌≡◌, refl, none, some, Text, codes, strip_prefix, arith}
use xrouter.Server.Images.{
  image, base64_source, url_source, data_image, openai_image_url_to_anthropic,
  anthropic_image_to_openai_url,
}
use xrouter.Server.Images.Roundtrip.{openai_image-anthropic_image}

url_run :
    openai_image_url_to_anthropic (codes "https://x/y.png")
    ≡ some (image (url_source (codes "https://x/y.png")))
unfolding openai_image_url_to_anthropic data_image strip_prefix
url_run = refl

prefix_free : strip_prefix (codes "base64,") (codes "AAA") ≡ none
unfolding strip_prefix
prefix_free = refl

openai_image-anthropic_image_example :
    (url : Text) × (anthropic_image_to_openai_url
        (image (base64_source (codes "a/b") (codes "AAA")))
      ≡ some url)
    × (openai_image_url_to_anthropic url ≡ some (image (base64_source (codes "a/b") (codes "AAA"))))
openai_image-anthropic_image_example =
    openai_image-anthropic_image (codes "a/b") (codes "AAA")
      (omega arith, (omega arith, (omega arith, tt)))
      (omega arith, (omega arith, (omega arith, tt))) prefix_free
