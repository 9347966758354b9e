-- ===== src/Providers/Cache.antt =====
-- crates/xrouter-providers/src/cache.rs: `ModelCache` in memory. An instant is a number of
-- nanoseconds; the snapshot on disk is not modelled.
use xrouter.Common.{
  [], ◌∷◌, ℕ, ◌-◌, ◌*◌, ◌≡◌, Bool, false, Option, none, some, List, Text, ltb, lookup, insert,
  if◌then◌else◌, arith, text_eq, lookup-insert,
}
use xrouter.Providers.{RawModel}

-- `TTL`, 600 seconds.
abbrev pub ttl : ℕ
ttl = 600 * 1000000000

pub record ModelCache : Type 0 where
  pub models : List (Text × (List RawModel × ℕ))

-- `at.elapsed() < TTL`; an instant in the future has elapsed 0.
abbrev is_recent : ℕ → ℕ → Bool
is_recent at now = ltb (now - at) ttl

unfoldable pub get : ModelCache → Text → ℕ → Option (List RawModel)
get c provider now = elim (lookup provider c.models) [
  | none ↦ none
  | some (models, at) ↦ if is_recent at now then some models else none
]

unfoldable pub is_fresh : ModelCache → Text → ℕ → Bool
is_fresh c provider now = elim (lookup provider c.models) [
  | none ↦ false
  | some (models, at) ↦ is_recent at now
]

unfoldable pub insert_models : ModelCache → Text → List RawModel → ℕ → ModelCache
insert_models c provider models now = record { models = insert provider (models, now) c.models }

unfoldable pub get_or_stale : ModelCache → Text → Option (List RawModel)
get_or_stale c provider = elim (lookup provider c.models) [
  | none ↦ none
  | some (models, at) ↦ some models
]

-- An entry of the snapshot on disk: `fetched_at` is in seconds of the Unix clock.
record CacheEntry : Type 0 where
  models : List RawModel
  fetched_at : ℕ

-- `CacheEntry::is_fresh`; `saturating_sub` stops at 0.
abbrev is_fresh_entry : CacheEntry → ℕ → Bool
is_fresh_entry e now_secs = ltb (now_secs - e.fetched_at) 600

-- The instant that `load_snapshot` gives an entry: its age before now, or one second past the TTL. An
-- instant before the clock's origin would panic.
abbrev loaded_at : ℕ → ℕ → CacheEntry → ℕ
loaded_at now now_secs e =
    let age = now_secs - e.fetched_at in
    if ltb age 600 then now - age * 1000000000 else now - ttl - 1000000000

-- The entries of a snapshot, put into the map one after the other.
unfoldable load_entries : ModelCache → ℕ → ℕ → List (Text × CacheEntry) → ModelCache
load_entries c now now_secs [] = c
load_entries c now now_secs ((k, e) ∷ es) =
    load_entries (record { models = insert k (e.models, loaded_at now now_secs e) c.models }) now
      now_secs es

-- A read after an insert: of the provider that was inserted, the models for as long as 600 seconds
-- have not passed and nothing from then on, while the stale read returns them at any time; of any
-- other provider, what the cache held before.
pub get-insert_models :
    (c : ModelCache) (provider other : Text) (models : List RawModel) (now later : ℕ)
    → (get (insert_models c provider models now) other later ≡ (
        if text_eq provider other
        then if ltb (later - now) ttl then some models else none
        else get c other later))
      × (get_or_stale (insert_models c provider models now) other
          ≡ (if text_eq provider other then some models else get_or_stale c other))
unfolding get get_or_stale insert_models
get-insert_models c provider other models now later =
    ground (arith, lookup-insert provider other (models, now) c.models)
