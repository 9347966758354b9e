-- ===== src/Server/Resolve.antt =====
-- crates/xrouter-server/src/resolve.rs: what a request's `model` field stands for. Texts are compared
-- by their code points, as their bytes in UTF-8 are. A log line has no part in the result.
pub mod Matches
pub mod Laws
pub mod Sound
mod Tests
use xrouter.Common.{
  ℕ, ◌+◌, Bool, true, false, not, ◌&&◌, ◌||◌, Option, none, some, List, [], ◌∷◌, ◌++◌, Text, codes,
  text_eq, ltb, ◌==◌, if◌then◌else◌, is_some, lookup, insert, length, take, drop, find_text,
  strip_prefix, split_once, trim,
}
use xrouter.Core.{ModelEntry, Tier}
use xrouter.Core.Endpoint
use xrouter.Core.Free.{to_lowercase}
use xrouter.Core.Registry.{find_tier}
use xrouter.Config.{Config, ProviderConfig}
use xrouter.Providers.{RawModel}
use xrouter.Providers.Cache.{ModelCache, get_or_stale, insert_models}

pub data ResolvedTarget : Type 0 where
  tier : Tier → ResolvedTarget
  direct : ModelEntry → ResolvedTarget

abbrev pub Candidate : Type 0
Candidate = Text × Text

pub data ResolutionError : Type 0 where
  ambiguous : List Candidate → ResolutionError
  not_found : ResolutionError

pub data Resolution : Type 0 where
  ok : ResolvedTarget → Resolution
  err : ResolutionError → Resolution

abbrev pub is_empty : Text → Bool
is_empty [] = true
is_empty (c ∷ s) = false

-- The marker of a free model is cut out where it is found first, the list of markers in order.
unfoldable pub cut_marker : List Text → Text → Text → Text
cut_marker [] lower model = model
cut_marker (m ∷ ms) lower model = elim (find_text m lower) [
  | some pos ↦ take pos model ++ drop (pos + length m) model
  | none ↦ cut_marker ms lower model
]

abbrev pub markers : List Text
markers =
    codes ":free"
    ∷ codes "-free-"
    ∷ codes "[free]-"
    ∷ codes "(free)-"
    ∷ codes "-free"
    ∷ codes "[free]"
    ∷ codes "(free)"
    ∷ []

unfoldable pub strip_free_suffix : Text → Text
unfolding cut_marker
strip_free_suffix model = cut_marker markers (to_lowercase model) model

-- (a) tier entries with exactly this `model`.
unfoldable pub entry_matches : Text → List ModelEntry → List Candidate
entry_matches model [] = []
entry_matches model (e ∷ es) =
    if text_eq e.model model
    then (e.provider, e.model) ∷ entry_matches model es
    else entry_matches model es

unfoldable pub tier_matches : Text → List Tier → List Candidate
unfolding entry_matches
tier_matches model [] = []
tier_matches model (t ∷ ts) = entry_matches model t.entries ++ tier_matches model ts

-- (b) the cache of each enabled provider.
unfoldable pub listed_matches : Text → Text → List RawModel → List Candidate
listed_matches prov model [] = []
listed_matches prov model (m ∷ ms) =
    if text_eq m.id model
    then (prov, m.id) ∷ listed_matches prov model ms
    else listed_matches prov model ms

abbrev pub cached_matches : Text → Text → Option (List RawModel) → List Candidate
cached_matches prov model none = []
cached_matches prov model (some ms) = listed_matches prov model ms

unfoldable pub known_matches : ModelCache → Text → List (Text × ProviderConfig) → List Candidate
unfolding listed_matches
known_matches cache model [] = []
known_matches cache model ((prov, p) ∷ ps) =
    if not p.enabled
    then known_matches cache model ps
    else cached_matches prov model (get_or_stale cache prov) ++ known_matches cache model ps

abbrev pub matches_of : Config → Text → Option ModelCache → List Candidate
matches_of cfg model none = tier_matches model cfg.tiers ++ []
matches_of cfg model (some cache) =
    tier_matches model cfg.tiers ++ known_matches cache model cfg.providers

-- `Ord` of texts and of pairs.
unfoldable pub text_le : Text → Text → Bool
text_le [] t = true
text_le (a ∷ s) [] = false
text_le (a ∷ s) (b ∷ t) = ltb a b || (a == b && text_le s t)

abbrev pub pair_eq : Candidate → Candidate → Bool
pair_eq (p, m) (q, n) = text_eq p q && text_eq m n

abbrev pub pair_le : Candidate → Candidate → Bool
pair_le (p, m) (q, n) = if text_eq p q then text_le m n else text_le p q

-- `sort()`: equal candidates cannot be told apart, so any sort gives the same list.
unfoldable pub insert_pair : Candidate → List Candidate → List Candidate
insert_pair x [] = x ∷ []
insert_pair x (y ∷ ys) = if pair_le x y then x ∷ y ∷ ys else y ∷ insert_pair x ys

unfoldable pub sort : List Candidate → List Candidate
unfolding insert_pair
sort [] = []
sort (x ∷ xs) = insert_pair x (sort xs)

-- `dedup()`: an element goes if it equals the one that was kept before it.
unfoldable pub dedup_from : Candidate → List Candidate → List Candidate
dedup_from x [] = x ∷ []
dedup_from x (y ∷ ys) = if pair_eq x y then dedup_from x ys else x ∷ dedup_from y ys

unfoldable pub dedup : List Candidate → List Candidate
unfolding dedup_from
dedup [] = []
dedup (x ∷ xs) = dedup_from x xs

unfoldable pub collect_bare_candidates : Config → Text → Option ModelCache → List Candidate
unfolding sort dedup
collect_bare_candidates cfg model known = dedup (sort (matches_of cfg model known))

-- The entry of a direct target.
abbrev pub direct_entry : Text → Text → ModelEntry
direct_entry provider model = record {
  provider = provider;
  model = model;
  is_default = true;
  weight = 1;
  endpoint_id = Endpoint.new provider model;
}

unfoldable pub pick : List Candidate → Resolution
pick [] = err not_found
pick ((p, m) ∷ []) = ok (direct (direct_entry p m))
pick (x ∷ y ∷ ys) = err (ambiguous (x ∷ y ∷ ys))

abbrev pub no_candidates : List Candidate → Bool
no_candidates [] = true
no_candidates (x ∷ xs) = false

unfoldable pub resolve_bare : Config → Text → Option ModelCache → Resolution
unfolding pick
resolve_bare cfg model known =
    let candidates = collect_bare_candidates cfg model known in
    let stripped = strip_free_suffix model in
    let again = collect_bare_candidates cfg stripped known in
    if not (no_candidates candidates)
    then pick candidates
    else if not (text_eq stripped model) && not (no_candidates again)
    then pick again
    else err not_found

-- Step 2: `provider/model`, at the first '/', with a provider of the configuration.
unfoldable pub addressed : Config → Text → Option ModelEntry
addressed cfg raw = elim (split_once b'/' raw) [
  | none ↦ none
  | some (prov, mid) ↦
      if not (is_empty prov) && not (is_empty mid) && is_some (lookup prov cfg.providers)
      then some (direct_entry prov mid)
      else none
]

unfoldable pub resolve_model : Config → Text → Option ModelCache → Resolution
resolve_model cfg model known =
    let raw = trim model in
    if is_empty raw then err not_found else elim (find_tier cfg.tiers raw) [
      | some t ↦ ok (tier t)
      | none ↦ elim (addressed cfg raw) [
        | some e ↦ ok (direct e)
        | none ↦ resolve_bare cfg raw known
      ]
    ]

-- The operations of a resolution, for runs at concrete inputs.
pub resolve_ops : Unit {0}
unfolding resolve_model addressed resolve_bare pick collect_bare_candidates dedup dedup_from sort
    insert_pair text_le known_matches listed_matches tier_matches entry_matches strip_free_suffix
    cut_marker to_lowercase find_text strip_prefix trim split_once lookup insert insert_models
    find_tier get_or_stale text_eq
resolve_ops = tt
