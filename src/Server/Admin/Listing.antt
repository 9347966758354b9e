-- ===== src/Server/Admin/Listing.antt =====
-- crates/xrouter-server/src/lib.rs: the filters of `handle_admin_models`.
use xrouter.Common.{
  ℕ, ◌≡◌, refl, Bool, false, Option, none, some, List, [], ◌∷◌, Text, codes, text_eq, ◌++◌, ap, sym,
  ◌∙◌, if◌then◌else◌, Bool-cases, inl, inr, ◌&&◌, not, option_or,
}
use xrouter.Json.{Value, get, as_bool, find_field}
use xrouter.Core.Free.{is_free}
use xrouter.Config.{Config}
use xrouter.Providers.{RawModel}
use xrouter.Providers.Cache.{ModelCache}
use xrouter.Server.Admin.Models.{ModelsQuery, is_image_model, rows, provider_models, all_rows}

-- A query with a filter for free models and a type.
abbrev pub typed : Option Text → Option Bool → Option Text → ModelsQuery
typed p free t = record { provider = p; free = free; type_ = t }

-- The rows for which a test holds.
unfoldable pub kept : (Value → Bool) → List Value → List Value
kept f [] = []
kept f (v ∷ vs) = let rest = kept f vs in if f v then v ∷ rest else rest

pub kept-append :
    (f : Value → Bool) (us vs : List Value) → kept f (us ++ vs) ≡ kept f us ++ kept f vs
unfolding kept
kept-append f [] vs = refl
kept-append f (u ∷ us) vs = elim (Bool-cases (f u)) [
  | inl e ↦ rw (e, kept) (ap (λ x. u ∷ x) (kept-append f us vs))
  | inr e ↦ rw (e, kept) (kept-append f us vs)
]

-- A field of a row that is a Boolean.
unfoldable pub is_marked : Text → Value → Bool
is_marked name v = option_or (as_bool (get v name)) false

abbrev pub image_row : Value → Bool
image_row v = is_marked (codes "image") v

abbrev pub text_row : Value → Bool
text_row v = not (image_row v)

module _ (p : Option Text) (free : Option Bool) where
  rows-images :
      (prov : Text) (ms : List RawModel)
      → rows (typed p free (some (codes "images"))) prov ms
        ≡ kept image_row (rows (typed p free none) prov ms)
  unfolding rows kept is_marked find_field text_eq
  rows-images prov [] = refl
  rows-images prov (m ∷ ms) = elim (Bool-cases (is_image_model m.id)) [
    | inl i ↦ elim (Bool-cases (option_or free false && not (is_free m.id))) [
      | inl f ↦ rw (i, f) (rows-images prov ms)
      | inr f ↦ rw (i, f) (rw (rows-images prov ms) refl)
    ]
    | inr i ↦ elim (Bool-cases (option_or free false && not (is_free m.id))) [
      | inl f ↦ rw (i, f) (rows-images prov ms)
      | inr f ↦ rw (i, f) (rows-images prov ms)
    ]
  ]

  rows-texts :
      (prov : Text) (ms : List RawModel)
      → rows (typed p free (some (codes "text"))) prov ms
        ≡ kept text_row (rows (typed p free none) prov ms)
  unfolding rows kept is_marked find_field text_eq
  rows-texts prov [] = refl
  rows-texts prov (m ∷ ms) = elim (Bool-cases (is_image_model m.id)) [
    | inl i ↦ elim (Bool-cases (option_or free false && not (is_free m.id))) [
      | inl f ↦ rw (i, f) (rows-texts prov ms)
      | inr f ↦ rw (i, f) (rows-texts prov ms)
    ]
    | inr i ↦ elim (Bool-cases (option_or free false && not (is_free m.id))) [
      | inl f ↦ rw (i, f) (rows-texts prov ms)
      | inr f ↦ rw (i, f) (rw (rows-texts prov ms) refl)
    ]
  ]

-- A test keeps from the rows of all providers what it keeps from the rows of each.
all_rows-kept :
    (cfg : Config) (cache : ModelCache) (now : ℕ) (q r : ModelsQuery) (f : Value → Bool)
    → ((prov : Text) (ms : List RawModel) → rows q prov ms ≡ kept f (rows r prov ms))
    → (ps : List Text) → all_rows cfg cache now q ps ≡ kept f (all_rows cfg cache now r ps)
unfolding all_rows kept
all_rows-kept cfg cache now q r f h [] = refl
all_rows-kept cfg cache now q r f h (prov ∷ ps) =
    let ms = provider_models cfg cache now prov in
    (λ i. h prov ms i ++ all_rows-kept cfg cache now q r f h ps i)
    ∙ sym (kept-append f (rows r prov ms) (all_rows cfg cache now r ps))

-- For the same providers and the same wish for free models, the list of the type `images` has just
-- those rows of the list without a type whose field `image` is true, in the same order, and the list
-- of the type `text` just the others.
pub all_rows-types :
    (cfg : Config) (cache : ModelCache) (now : ℕ) (p : Option Text) (free : Option Bool)
    (ps : List Text)
    → (all_rows cfg cache now (typed p free (some (codes "images"))) ps
        ≡ kept image_row (all_rows cfg cache now (typed p free none) ps))
      × (all_rows cfg cache now (typed p free (some (codes "text"))) ps
          ≡ kept text_row (all_rows cfg cache now (typed p free none) ps))
all_rows-types cfg cache now p free ps = (
  all_rows-kept cfg cache now _ (typed p free none) image_row (rows-images p free) ps,
  all_rows-kept cfg cache now _ (typed p free none) text_row (rows-texts p free) ps,
)
