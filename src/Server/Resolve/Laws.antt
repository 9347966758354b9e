-- ===== src/Server/Resolve/Laws.antt =====
-- What the resolution of a `model` field stands on: the tiers, the address and the candidates.
use xrouter.Common.{
  ◌≡◌, refl, sym, ap, ◌∙◌, subst, ◌≢◌, ◌⊎◌, inl, inr, Bool, true, false, not, ◌&&◌, ◌||◌, Option,
  none, some, List, [], ◌∷◌, Text, text_eq, text_eq_iff, arith, if◌then◌else◌, Bool-cases,
  Option-cases, trim, split_once, is_some, lookup, true-ne-false,
}
use xrouter.Core.{ModelEntry, Tier}
use xrouter.Core.Registry.{find_tier}
use xrouter.Config.{Config}
use xrouter.Providers.Cache.{ModelCache}
use xrouter.Server.Resolve.{
  Candidate, ok, err, tier, direct, ambiguous, not_found, pair_eq, pick, resolve_bare,
  resolve_model, addressed, collect_bare_candidates, matches_of, no_candidates, strip_free_suffix,
  direct_entry, is_empty,
}
use xrouter.Server.Resolve.Matches.{
  has, pair_eq_refl, has-collect_bare_candidates, collect-distinct,
}

direct_inj : (d e : ModelEntry) → ok (direct d) ≡ ok (direct e) → d ≡ e
direct_inj d e h = cc

ambiguous_inj : (cs ds : List Candidate) → err (ambiguous cs) ≡ err (ambiguous ds) → cs ≡ ds
ambiguous_inj cs ds h = cc

or_none : (b : Bool) → (b || false) ≡ b
or_none b = ground arith

-- A search that finds nothing leaves the result to the second one.
two_searches :
    (cs ds : List Candidate) (same : Bool)
    → (same ≡ true → ds ≡ cs)
    → ((no_candidates cs ≡ false)
        × ((if not (no_candidates cs)
              then pick cs
              else if not same && not (no_candidates ds)
              then pick ds
              else err not_found)
            ≡ pick cs))
      ⊎ ((cs ≡ [])
          × ((if not (no_candidates cs)
                then pick cs
                else if not same && not (no_candidates ds)
                then pick ds
                else err not_found)
              ≡ pick ds))
unfolding pick
two_searches (x ∷ cs) ds same h = inl (refl, refl)
two_searches [] [] true h = inr (refl, refl)
two_searches [] [] false h = inr (refl, refl)
two_searches [] (d ∷ ds) false h = inr (refl, refl)
two_searches [] (d ∷ ds) true h = absurd (true-ne-false (sym (ap no_candidates (h refl))))

module _ (cfg : Config) (known : Option ModelCache) where
  -- No tier entry and no cached model has the id.
  abbrev pub IsUnmatched : Text → Type 0
  IsUnmatched id = (x : Candidate) → has x (matches_of cfg id known) ≡ false

  -- The entry is the only match of the id, however often it comes.
  abbrev pub IsOnlyMatch : Text → ModelEntry → Type 0
  IsOnlyMatch id e =
      (e ≡ direct_entry e.provider e.model)
      × ((x : Candidate) → has x (matches_of cfg id known) ≡ pair_eq (e.provider, e.model) x)

  -- The list has the matches of the id, and two of them differ.
  abbrev pub IsChoice : Text → List Candidate → Type 0
  IsChoice id cs =
      ((x : Candidate) → has x cs ≡ has x (matches_of cfg id known))
      × ((y : Candidate) × (z : Candidate) × (y ≢ z) × (has y cs ≡ true) × (has z cs ≡ true))

  -- `provider/model` with a provider of the configuration.
  abbrev pub IsAddress : Text → ModelEntry → Type 0
  IsAddress raw e =
      (e ≡ direct_entry e.provider e.model)
      × (split_once b'/' raw ≡ some (e.provider, e.model))
      × (is_some (lookup e.provider cfg.providers) ≡ true)

  IsUnmatched-of_empty : (id : Text) → collect_bare_candidates cfg id known ≡ [] → IsUnmatched id
  IsUnmatched-of_empty id h x = sym (has-collect_bare_candidates x cfg id known) ∙ ap (has x) h

  pub pick-direct :
      (id : Text) (cs : List Candidate) (e : ModelEntry)
      → collect_bare_candidates cfg id known ≡ cs
      → pick cs ≡ ok (direct e)
      → IsOnlyMatch id e
  unfolding pick
  pick-direct id [] e h k = cc
  pick-direct id ((p, m) ∷ []) e h k = subst (IsOnlyMatch id) (direct_inj (direct_entry p m) e k) (
    refl,
    λ x.
        sym (has-collect_bare_candidates x cfg id known)
        ∙ ap (has x) h
        ∙ or_none (pair_eq (p, m) x),
  )
  pick-direct id (x ∷ y ∷ ys) e h k = cc

  pub pick-ambiguous :
      (id : Text) (cs ds : List Candidate)
      → collect_bare_candidates cfg id known ≡ cs
      → pick cs ≡ err (ambiguous ds)
      → IsChoice id ds
  unfolding pick
  pick-ambiguous id [] ds h k = cc
  pick-ambiguous id ((p, m) ∷ []) ds h k = cc
  pick-ambiguous id (y ∷ z ∷ zs) ds h k = subst (IsChoice id) (ambiguous_inj (y ∷ z ∷ zs) ds k) (
    λ x. sym (ap (has x) h) ∙ has-collect_bare_candidates x cfg id known,
    (
      y,
      z,
      collect-distinct cfg id known y z zs h,
      ground (arith, pair_eq_refl y),
      ground (arith, pair_eq_refl z),
    ),
  )

  pub pick-found : (cs : List Candidate) → no_candidates cs ≡ false → ¬ (pick cs ≡ err not_found)
  unfolding pick
  pick-found [] n k = cc
  pick-found ((p, m) ∷ []) n k = cc
  pick-found (y ∷ z ∷ zs) n k = cc

  pub pick-not_found :
      (id : Text) (cs : List Candidate)
      → collect_bare_candidates cfg id known ≡ cs
      → pick cs ≡ err not_found
      → IsUnmatched id
  unfolding pick
  pick-not_found id [] h k = IsUnmatched-of_empty id h
  pick-not_found id ((p, m) ∷ []) h k = cc
  pick-not_found id (y ∷ z ∷ zs) h k = cc

  -- The second search decides where the first one finds nothing.
  pub resolve_bare-cases :
      (id : Text)
      → ((no_candidates (collect_bare_candidates cfg id known) ≡ false)
          × (resolve_bare cfg id known ≡ pick (collect_bare_candidates cfg id known)))
        ⊎ (IsUnmatched id
            × (resolve_bare cfg id known
                ≡ pick (collect_bare_candidates cfg (strip_free_suffix id) known)))
  unfolding resolve_bare
  resolve_bare-cases id =
      let stripped = strip_free_suffix id in
      elim (two_searches (collect_bare_candidates cfg id known)
        (collect_bare_candidates cfg stripped known) (text_eq stripped id)
        (λ e. ap (λ s. collect_bare_candidates cfg s known) ((text_eq_iff stripped id).0 e))) [
          | inl h ↦ inl h
          | inr (n, h) ↦ inr (IsUnmatched-of_empty id n, h)
        ]

  -- The four ways of a resolution.
  pub resolve_model-cases :
      (model : Text)
      → ((is_empty (trim model) ≡ true) × (resolve_model cfg model known ≡ err not_found))
        ⊎ ((is_empty (trim model) ≡ false)
            × (((t : Tier) × (find_tier cfg.tiers (trim model) ≡ some t)
                  × (resolve_model cfg model known ≡ ok (tier t)))
                ⊎ ((find_tier cfg.tiers (trim model) ≡ none)
                    × (((e : ModelEntry) × (addressed cfg (trim model) ≡ some e)
                          × (resolve_model cfg model known ≡ ok (direct e)))
                        ⊎ (resolve_model cfg model known ≡ resolve_bare cfg (trim model) known)))))
  unfolding resolve_model
  resolve_model-cases model = elim (Bool-cases (is_empty (trim model))) [
    | inl h ↦ inl (h, rw (h, resolve_model) refl)
    | inr h ↦ inr (
      h,
      elim (Option-cases (find_tier cfg.tiers (trim model))) [
        | inr (t, f) ↦ inl (t, f, rw (h, resolve_model, f) refl)
        | inl f ↦ inr (
          f,
          elim (Option-cases (addressed cfg (trim model))) [
            | inr (e, a) ↦ inl (e, a, rw (h, resolve_model, f, a) refl)
            | inl a ↦ inr (rw (h, resolve_model, f, a) refl)
          ],
        )
      ],
    )
  ]
