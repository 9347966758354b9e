-- ===== src/Server/Admin/Tiers.antt =====
-- The entries and the live tiers after a request to create a tier.
use mathlib.Core.Option as Option
use xrouter.Common.{
  ◌≡◌, refl, ap, Bool, true, false, Option, some, List, [], ◌∷◌, map, Text, text_eq, text_eq_iff,
  ◌==◌, if◌then◌else◌, Bool-cases, Option-cases, inl, inr, arith, ◌&&◌, not, is_some,
}
use xrouter.Core.{ModelEntry, Tier, EndpointId, new_tier}
use xrouter.Core.Endpoint
use xrouter.Core.Registry.{find_tier, replace_tier}
use xrouter.Core.Registry.Laws.{find_tier-replace_tier}
use xrouter.Config.{Config, finalize, finalize_tier, finalize_entry}
use xrouter.Server.Failover.{check_auth}
use xrouter.Server.Admin.{
  TierEntryInput, TierCreateInput, is_valid_tier_name, is_seen, input_key, entry_of, push_entries,
  model_entries, with_tier, handle_admin_create_tier,
}

-- The entries with an id.
unfoldable pub with_id : EndpointId → List ModelEntry → List ModelEntry
with_id id [] = []
with_id id (e ∷ es) =
    let rest = with_id id es in if text_eq e.endpoint_id id then e ∷ rest else rest

-- The entry of the first input with an id.
unfoldable pub first_entry : EndpointId → List TierEntryInput → List ModelEntry
first_entry id [] = []
first_entry id (e ∷ es) =
    if text_eq (Endpoint.new e.provider e.model) id
    then entry_of false e ∷ []
    else first_entry id es

with_id-push_entries :
    (id : EndpointId) (seen : List Text) (es : List TierEntryInput)
    → with_id id (push_entries false seen es) ≡ (if is_seen id seen then [] else first_entry id es)
unfolding with_id push_entries first_entry is_seen Endpoint.new
with_id-push_entries id seen [] = ground arith
with_id-push_entries id seen (e ∷ es) = elim (Bool-cases (is_seen (input_key e) seen)) [
  | inl s ↦
      rw (s, push_entries, with_id)
        (ground (
          arith,
          with_id-push_entries id seen es,
          text_eq_iff (input_key e) id,
          ap (λ (k : Text). is_seen k seen) {x = input_key e} {y = id},
          s,
        ))
  | inr s ↦
      rw (s, push_entries, with_id)
        (ground (
          arith,
          with_id-push_entries id (input_key e ∷ seen) es,
          text_eq_iff (input_key e) id,
          ap (λ (k : Text). is_seen k seen) {x = input_key e} {y = id},
          s,
        ))
]

-- An entry was made for every id of the input, from the first input with that id and from no other.
-- The first input's entry is the default, and no other entry is.
pub model_entries-first :
    (e : TierEntryInput) (es : List TierEntryInput) (id : EndpointId)
    → with_id id (model_entries (e ∷ es))
      ≡ (if text_eq (input_key e) id then entry_of true e ∷ [] else first_entry id es)
unfolding with_id push_entries first_entry is_seen Endpoint.new
model_entries-first e es id = ground (arith, with_id-push_entries id (input_key e ∷ []) es)

push_entries-finalize :
    (b : Bool) (seen : List Text) (es : List TierEntryInput)
    → map finalize_entry (push_entries b seen es) ≡ push_entries b seen es
unfolding push_entries Endpoint.new
push_entries-finalize b seen [] = refl
push_entries-finalize b seen (e ∷ es) = elim (Bool-cases (is_seen (input_key e) seen)) [
  | inl s ↦ rw (s, push_entries) (push_entries-finalize b seen es)
  | inr s ↦
      rw (s, push_entries)
        (ap (λ (ms : List ModelEntry). entry_of b e ∷ ms)
          (push_entries-finalize false (input_key e ∷ seen) es))
]

find_tier-finalize :
    (ts : List Tier) (name : Text)
    → find_tier (map finalize_tier ts) name ≡ Option.map finalize_tier (find_tier ts name)
unfolding find_tier
find_tier-finalize [] name = refl
find_tier-finalize (t ∷ ts) name = elim (Bool-cases (text_eq t.name name)) [
  | inl e ↦ rw (e, find_tier) refl
  | inr e ↦ rw (e, find_tier) (find_tier-finalize ts name)
]

find_tier-with_tier :
    (cfg : Config) (new name : Text) (es : List TierEntryInput)
    → find_tier (with_tier cfg (new_tier new (model_entries es))).tiers name ≡ (
        if text_eq new name
        then some (new_tier new (model_entries es))
        else Option.map finalize_tier (find_tier cfg.tiers name))
unfolding with_tier finalize
find_tier-with_tier cfg new name es =
    rw
      (
        find_tier-finalize (replace_tier cfg.tiers (new_tier new (model_entries es))) name,
        find_tier-replace_tier cfg.tiers (new_tier new (model_entries es)) name,
      )
      (elim (Bool-cases (text_eq new name)) [
        | inl e ↦ rw e (
            ap (λ (ms : List ModelEntry). some (new_tier new ms))
              (push_entries-finalize true [] es))
        | inr e ↦ rw e refl
      ])

abbrev is_empty : List TierEntryInput → Bool
is_empty [] = true
is_empty (e ∷ es) = false

-- Whether the tier can be created: who asks, its name, its entries and the file allow it.
abbrev pub is_allowed : (Config → Option Text) → Config → Text → TierCreateInput → Bool
is_allowed save cfg authorization body =
    let cfg' = with_tier cfg (new_tier body.name (model_entries body.entries)) in
    check_auth cfg authorization
    && (is_valid_tier_name body.name && (not (is_empty body.entries) && not (is_some (save cfg'))))

-- What the reply and the live tier of a name are.
abbrev pub IsAnswered : (Config → Option Text) → Config → Text → TierCreateInput → Text → Type 0
IsAnswered save cfg authorization body name =
    let (reply, after) = handle_admin_create_tier save cfg authorization body in
    let allowed = is_allowed save cfg authorization body in
    ((reply.status == 200) ≡ allowed)
    × (find_tier after.tiers name ≡ (
        if allowed
        then if text_eq body.name name
          then some (new_tier body.name (model_entries body.entries))
          else Option.map finalize_tier (find_tier cfg.tiers name)
        else find_tier cfg.tiers name))

by_entries :
    (save : Config → Option Text) (cfg : Config) (authorization new : Text)
    (es : List TierEntryInput) (name : Text)
    → IsAnswered save cfg authorization (record { name = new; entries = es }) name
unfolding handle_admin_create_tier
by_entries save cfg authorization new [] name = elim (Bool-cases (check_auth cfg authorization)) [
  | inl a ↦ elim (Bool-cases (is_valid_tier_name new)) [
    | inl v ↦ rw (a, v, handle_admin_create_tier) (refl, refl)
    | inr v ↦ rw (a, v, handle_admin_create_tier) (refl, refl)
  ]
  | inr a ↦ rw (a, handle_admin_create_tier) (refl, refl)
]
by_entries save cfg authorization new (e ∷ es) name =
    let cfg' = with_tier cfg (new_tier new (model_entries (e ∷ es))) in
    elim (Bool-cases (check_auth cfg authorization)) [
      | inl a ↦ elim (Bool-cases (is_valid_tier_name new)) [
        | inl v ↦ elim (Option-cases (save cfg')) [
          | inl s ↦
              rw (a, v, s, handle_admin_create_tier)
                (refl, find_tier-with_tier cfg new name (e ∷ es))
          | inr (msg, s) ↦ rw (a, v, s, handle_admin_create_tier) (refl, refl)
        ]
        | inr v ↦ rw (a, v, handle_admin_create_tier) (refl, refl)
      ]
      | inr a ↦ rw (a, handle_admin_create_tier) (refl, refl)
    ]

-- A request to create a tier answers 200 just where the credential, the name, the entries and the
-- writing of the file allow it. Then the live tier of that name is the new one with its entries, and
-- every other name has the tier it had, finalized. Else every name has the tier it had.
pub handle_admin_create_tier-IsAnswered :
    (save : Config → Option Text) (cfg : Config) (authorization : Text) (body : TierCreateInput)
    (name : Text)
    → IsAnswered save cfg authorization body name
handle_admin_create_tier-IsAnswered save cfg authorization body name =
    by_entries save cfg authorization body.name body.entries name
