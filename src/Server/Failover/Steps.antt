-- ===== src/Server/Failover/Steps.antt =====
-- The ways a round of the loop of `route_openai_request` can go, as a relation.
use xrouter.Common.{
  ℕ, ◌≡◌, refl, ◌||◌, ◌⊎◌, Bool, true, false, Option, some, Text, lookup, leb, ◌==◌, Bool-cases,
  Option-cases, inl, inr, if◌then◌else◌,
}
use xrouter.Core.{ModelEntry, ApiKey}
use xrouter.Config.{Config, ProviderConfig}
use xrouter.Auth.Store.{DeviceAccountConfig}
use xrouter.Server.Metrics.{inc_error}
use xrouter.Server.Failover.{
  World, App, Request, Loop, UpstreamResponse, answered, failed, timed_out, Sent, Credential,
  granted, refused, credential, count,
}
use xrouter.Server.Failover.Attempt.{
  Flow, next, is_success, succeeded, unauthorized, over_quota, unavailable, other_status, classify,
  send_failed, send_timed_out, adapter_panicked, attempt_send, claim_probe, ctx_of, attempt_with,
  attempt_provider, try_entry,
}

-- The loop's variables once a candidate is chosen.
abbrev pub visited : ModelEntry → Loop → Loop
visited e st = record st { last_provider = e.provider; last_model = e.model }

-- The variables before the call of the upstream.
abbrev pub ready : World → ℕ → ModelEntry → App → Loop → Loop
ready w i e app st = record (visited e st) { app = claim_probe w i e.endpoint_id app }

module _ (w : World) (req : Request) (cap i : ℕ) (tier_name : Text) (e : ModelEntry)
    (st : Loop) where
  -- What the upstream's answer leads to, after the key was granted.
  pub data Classified (p : ProviderConfig) (key : ApiKey) (acct : Option DeviceAccountConfig)
      (u : UpstreamResponse) (st' : Loop) : Flow → Type 0 where
    succeeds :
        is_success u.status ≡ true
        → Classified p key acct u st' (succeeded w i e tier_name u st'.app)
    rejects :
        (u.status == 401 || u.status == 403) ≡ true
        → Classified p key acct u st' (unauthorized w i e p key acct u st')
    limits :
        (u.status == 429) ≡ true → Classified p key acct u st' (over_quota w i e p key acct u st')
    fails :
        (leb 500 u.status || u.status == 408) ≡ true
        → Classified p key acct u st' (unavailable w i e cap u st')
    others : Classified p key acct u st' (other_status w i e u st')

  classify-Classified :
      (p : ProviderConfig) (key : ApiKey) (acct : Option DeviceAccountConfig) (u : UpstreamResponse)
      (st' : Loop)
      → Classified p key acct u st' (classify w i e cap tier_name p key acct u st')
  unfolding classify
  classify-Classified p key acct u st' = elim (Bool-cases (is_success u.status)) [
    | inl h ↦ rw h (succeeds h)
    | inr h ↦ rw h (elim (Bool-cases (u.status == 401 || u.status == 403)) [
      | inl k ↦ rw k (rejects k)
      | inr k ↦ rw k (elim (Bool-cases (u.status == 429)) [
        | inl m ↦ rw m (limits m)
        | inr m ↦ rw m (elim (Bool-cases (leb 500 u.status || u.status == 408)) [
          | inl n ↦ rw n (fails n)
          | inr n ↦ rw n others
        ])
      ])
    ])
  ]

  pub data Step : Flow → Type 0 where
    skips : Step (next (visited e st))
    refuses :
        (p : ProviderConfig) (msg : Text) (app : App)
        → credential w i p e st.app ≡ (refused msg, app)
        → Step (
            next
              (record (visited e st) { app = count inc_error app; last_error = some (401, msg) }))
    panics :
        (p : ProviderConfig) (key : ApiKey) (acct : Option DeviceAccountConfig) (app : App)
        → credential w i p e st.app ≡ (granted key acct, app)
        → Step (adapter_panicked w i e cap (ready w i e app st))
    errs :
        (p : ProviderConfig) (key : ApiKey) (acct : Option DeviceAccountConfig) (app : App)
        (msg : Text)
        → credential w i p e st.app ≡ (granted key acct, app)
        → w.send i (ctx_of w req p e key) ≡ failed msg
        → Step (send_failed w i e cap msg (ready w i e app st))
    times_out :
        (p : ProviderConfig) (key : ApiKey) (acct : Option DeviceAccountConfig) (app : App)
        → credential w i p e st.app ≡ (granted key acct, app)
        → w.send i (ctx_of w req p e key) ≡ timed_out
        → Step (send_timed_out w i e cap (ready w i e app st))
    replies :
        (p : ProviderConfig) (key : ApiKey) (acct : Option DeviceAccountConfig) (app : App)
        (u : UpstreamResponse) (f : Flow)
        → credential w i p e st.app ≡ (granted key acct, app)
        → w.send i (ctx_of w req p e key) ≡ answered u
        → Classified p key acct u (ready w i e app st) f
        → Step f

  Sent-cases :
      (r : Sent)
      → ((u : UpstreamResponse) × (r ≡ answered u))
        ⊎ (((msg : Text) × (r ≡ failed msg)) ⊎ (r ≡ timed_out))
  Sent-cases (answered u) = inl (u, refl)
  Sent-cases (failed msg) = inr (inl (msg, refl))
  Sent-cases timed_out = inr (inr refl)

  attempt_send-Step :
      (p : ProviderConfig) (key : ApiKey) (acct : Option DeviceAccountConfig) (app : App)
      → credential w i p e st.app ≡ (granted key acct, app)
      → Step
          (attempt_send w i e cap tier_name p key acct (ctx_of w req p e key) (ready w i e app st))
  unfolding attempt_send
  attempt_send-Step p key acct app c = elim (Bool-cases (w.panics i)) [
    | inl h ↦ rw h (panics p key acct app c)
    | inr h ↦ rw h (elim (Sent-cases (w.send i (ctx_of w req p e key))) [
      | inl (u, s) ↦
          rw s
            (replies p key acct app u _ c s (classify-Classified p key acct u (ready w i e app st)))
      | inr (inl (msg, s)) ↦ rw s (errs p key acct app msg c s)
      | inr (inr s) ↦ rw s (times_out p key acct app c s)
    ])
  ]

  attempt_with-Step :
      (p : ProviderConfig) (r : Credential × App)
      → credential w i p e st.app ≡ r
      → Step (attempt_with w req cap i tier_name p e (visited e st) r)
  unfolding attempt_with
  attempt_with-Step p (refused msg, app) c = refuses p msg app c
  attempt_with-Step p (granted key acct, app) c = attempt_send-Step p key acct app c

  attempt_provider-Step :
      (p : ProviderConfig) → Step (attempt_provider w req cap i tier_name p e (visited e st))
  unfolding attempt_provider
  attempt_provider-Step p = attempt_with-Step p (credential w i p e st.app) refl

  if_enabled-Step :
      (b : Bool) (p : ProviderConfig)
      → Step (
          if b
          then attempt_provider w req cap i tier_name p e (visited e st)
          else next (visited e st))
  if_enabled-Step true p = attempt_provider-Step p
  if_enabled-Step false p = skips

  -- Each round of the loop goes in one of these ways.
  pub try_entry-Step : (cfg : Config) → Step (try_entry w cfg req cap i tier_name e st)
  unfolding try_entry
  try_entry-Step cfg = elim (Option-cases (lookup e.provider cfg.providers)) [
    | inl h ↦ rw (h, try_entry) skips
    | inr (p, h) ↦ rw (h, try_entry) (if_enabled-Step p.enabled p)
  ]
