-- ===== src/Server/Resolve/Sound.antt =====
-- crates/xrouter-server/src/resolve.rs: the results of `resolve_model` and what they are about.
use xrouter.Common.{
  ◌≡◌, refl, sym, ap, ◌∙◌, ◌↔◌, ◌⊎◌, inl, inr, Bool, true, false, not, ◌&&◌, subst, Option, none,
  some, List, [], ◌∷◌, Text, arith, if◌then◌else◌, Option-cases, trim, split_once, is_some, lookup,
  true-ne-false,
}
use xrouter.Core.{ModelEntry, Tier}
use xrouter.Core.Registry.{find_tier}
use xrouter.Config.{Config}
use xrouter.Providers.Cache.{ModelCache}
use xrouter.Server.Resolve.{
  Candidate, ok, err, tier, direct, ambiguous, not_found, pick, resolve_bare, resolve_model,
  addressed, collect_bare_candidates, strip_free_suffix, direct_entry, is_empty,
}
use xrouter.Server.Resolve.Laws.{
  IsUnmatched, IsOnlyMatch, IsChoice, IsAddress, pick-direct, pick-ambiguous, pick-found,
  pick-not_found, resolve_bare-cases, resolve_model-cases,
}

tier_inj : (s t : Tier) → ok (tier s) ≡ ok (tier t) → s ≡ t
tier_inj s t h = cc

direct_inj : (d e : ModelEntry) → ok (direct d) ≡ ok (direct e) → d ≡ e
direct_inj d e h = cc

test_some :
    (b : Bool) (d e : ModelEntry) → (if b then some d else none) ≡ some e → (b ≡ true) × (d ≡ e)
test_some true d e h = (refl, cc)
test_some false d e h = cc

addressed-IsAddress :
    (cfg : Config) (known : Option ModelCache) (raw : Text) (e : ModelEntry)
    → addressed cfg raw ≡ some e
    → IsAddress cfg known raw e
unfolding addressed
addressed-IsAddress cfg known raw e h = elim (Option-cases (split_once b'/' raw)) [
  | inl n ↦ absurd (true-ne-false (sym (test_some false e e (sym (rw (addressed, n) refl) ∙ h)).0))
  | inr ((p, m), s) ↦
      let found = not (is_empty p) && not (is_empty m) && is_some (lookup p cfg.providers) in
      let (t, d) = test_some found (direct_entry p m) e (sym (rw (addressed, s) refl) ∙ h) in
      subst (IsAddress cfg known raw) d (refl, s, ground (arith, t))
]

-- What the search by id gives, of the id as it stands or, if nothing has that, without its marker.
pub resolve_bare-direct :
    (cfg : Config) (known : Option ModelCache) (id : Text) (e : ModelEntry)
    → resolve_bare cfg id known ≡ ok (direct e)
    → IsOnlyMatch cfg known id e
      ⊎ (IsUnmatched cfg known id × IsOnlyMatch cfg known (strip_free_suffix id) e)
resolve_bare-direct cfg known id e h = elim (resolve_bare-cases cfg known id) [
  | inl (m, k) ↦
      inl (pick-direct cfg known id (collect_bare_candidates cfg id known) e refl (sym k ∙ h))
  | inr (n, k) ↦ inr (
    n,
    pick-direct cfg known (strip_free_suffix id)
        (collect_bare_candidates cfg (strip_free_suffix id) known) e refl (sym k ∙ h),
  )
]

pick-not_tier : (cs : List Candidate) (t : Tier) → ¬ (pick cs ≡ ok (tier t))
unfolding pick
pick-not_tier [] t h = cc
pick-not_tier ((p, m) ∷ []) t h = cc
pick-not_tier (y ∷ z ∷ zs) t h = cc

resolve_bare-not_tier :
    (cfg : Config) (known : Option ModelCache) (id : Text) (t : Tier)
    → ¬ (resolve_bare cfg id known ≡ ok (tier t))
unfolding resolve_bare
resolve_bare-not_tier cfg known id t h = elim (resolve_bare-cases cfg known id) [
  | inl (m, k) ↦ pick-not_tier (collect_bare_candidates cfg id known) t (sym k ∙ h)
  | inr (n, k) ↦
      pick-not_tier (collect_bare_candidates cfg (strip_free_suffix id) known) t (sym k ∙ h)
]

resolve_bare-ambiguous :
    (cfg : Config) (known : Option ModelCache) (id : Text) (cs : List Candidate)
    → resolve_bare cfg id known ≡ err (ambiguous cs)
    → IsChoice cfg known id cs
      ⊎ (IsUnmatched cfg known id × IsChoice cfg known (strip_free_suffix id) cs)
resolve_bare-ambiguous cfg known id cs h = elim (resolve_bare-cases cfg known id) [
  | inl (m, k) ↦
      inl (pick-ambiguous cfg known id (collect_bare_candidates cfg id known) cs refl (sym k ∙ h))
  | inr (n, k) ↦ inr (
    n,
    pick-ambiguous cfg known (strip_free_suffix id)
        (collect_bare_candidates cfg (strip_free_suffix id) known) cs refl (sym k ∙ h),
  )
]

resolve_bare-not_found :
    (cfg : Config) (known : Option ModelCache) (id : Text)
    → resolve_bare cfg id known ≡ err not_found
    → IsUnmatched cfg known id × IsUnmatched cfg known (strip_free_suffix id)
resolve_bare-not_found cfg known id h = elim (resolve_bare-cases cfg known id) [
  | inl (m, k) ↦ absurd (pick-found cfg known (collect_bare_candidates cfg id known) m (sym k ∙ h))
  | inr (n, k) ↦ (
    n,
    pick-not_found cfg known (strip_free_suffix id)
        (collect_bare_candidates cfg (strip_free_suffix id) known) refl (sym k ∙ h),
  )
]

-- A request is routed to a tier just if its trimmed model field is not empty and is the name of the
-- tier, the first of that name: neither an address nor a model of that id comes before a tier.
pub resolve_model-tier_iff :
    (cfg : Config) (model : Text) (known : Option ModelCache) (t : Tier)
    → (resolve_model cfg model known ≡ ok (tier t))
      ↔ ((is_empty (trim model) ≡ false) × (find_tier cfg.tiers (trim model) ≡ some t))
unfolding resolve_model
resolve_model-tier_iff cfg model known t = (
  λ h. elim (resolve_model-cases cfg known model) [
    | inl (x, k) ↦ cc
    | inr (x, inl (s, f, k)) ↦ (x, f ∙ ap some (tier_inj s t (sym k ∙ h)))
    | inr (x, inr (f, inl (e, a, k))) ↦ cc
    | inr (x, inr (f, inr k)) ↦ absurd (resolve_bare-not_tier cfg known (trim model) t (sym k ∙ h))
  ],
  λ h. rw (h.0, resolve_model, h.1) refl,
)

-- A direct target is built from its provider and model, and no tier has the model field as its name.
-- Either the field is `provider/model` and the provider is configured; or one provider's model is the
-- only match of the field as an id; or nothing matches the field, and one provider's model is the
-- only match of the field without its free marker.
pub resolve_model-direct :
    (cfg : Config) (model : Text) (known : Option ModelCache) (e : ModelEntry)
    → resolve_model cfg model known ≡ ok (direct e)
    → (find_tier cfg.tiers (trim model) ≡ none)
      × (IsAddress cfg known (trim model) e
          ⊎ (IsOnlyMatch cfg known (trim model) e
              ⊎ (IsUnmatched cfg known (trim model)
                  × IsOnlyMatch cfg known (strip_free_suffix (trim model)) e)))
resolve_model-direct cfg model known e h = elim (resolve_model-cases cfg known model) [
  | inl (x, k) ↦ cc
  | inr (x, inl (s, f, k)) ↦ cc
  | inr (x, inr (f, inl (d, a, k))) ↦ (
    f,
    inl (addressed-IsAddress cfg known (trim model) e (a ∙ ap some (direct_inj d e (sym k ∙ h)))),
  )
  | inr (x, inr (f, inr k)) ↦ (f, inr (resolve_bare-direct cfg known (trim model) e (sym k ∙ h)))
]

-- An ambiguous model field is no tier's name. The error lists the matches of the field as an id, or
-- where nothing matches that, the matches of the field without its free marker, and two of them differ.
pub resolve_model-ambiguous :
    (cfg : Config) (model : Text) (known : Option ModelCache) (cs : List Candidate)
    → resolve_model cfg model known ≡ err (ambiguous cs)
    → (find_tier cfg.tiers (trim model) ≡ none)
      × (IsChoice cfg known (trim model) cs
          ⊎ (IsUnmatched cfg known (trim model)
              × IsChoice cfg known (strip_free_suffix (trim model)) cs))
resolve_model-ambiguous cfg model known cs h = elim (resolve_model-cases cfg known model) [
  | inl (x, k) ↦ cc
  | inr (x, inl (s, f, k)) ↦ cc
  | inr (x, inr (f, inl (d, a, k))) ↦ cc
  | inr (x, inr (f, inr k)) ↦ (f, resolve_bare-ambiguous cfg known (trim model) cs (sym k ∙ h))
]

-- Where nothing is found, the model field is blank, or it is no tier's name, nothing matches it as an
-- id, and nothing matches it without its free marker.
pub resolve_model-not_found :
    (cfg : Config) (model : Text) (known : Option ModelCache)
    → resolve_model cfg model known ≡ err not_found
    → (is_empty (trim model) ≡ true)
      ⊎ ((find_tier cfg.tiers (trim model) ≡ none)
          × IsUnmatched cfg known (trim model)
          × IsUnmatched cfg known (strip_free_suffix (trim model)))
resolve_model-not_found cfg model known h = elim (resolve_model-cases cfg known model) [
  | inl (x, k) ↦ inl x
  | inr (x, inl (s, f, k)) ↦ cc
  | inr (x, inr (f, inl (d, a, k))) ↦ cc
  | inr (x, inr (f, inr k)) ↦
      let (n, m) = resolve_bare-not_found cfg known (trim model) (sym k ∙ h) in inr (f, n, m)
]
