-- ===== src/Server/Failover/Refinement.antt =====
-- crates/xrouter-server/src/lib.rs: `route_openai_request` as a history of calls on `HealthRegistry`.
use xrouter.Common.{
  ℕ, zero, suc, ◌*◌, ◌≤◌, ◌≡◌, refl, sym, ap, ◌∙◌, subst, List, [], ◌∷◌, Text, take, length,
  length-map, arith, ◌⊎◌, inl, inr,
}
use xrouter.Core.{EndpointId, ModelEntry, Tier}
use xrouter.Config.{Config, ProviderConfig}
use xrouter.Balancer.Candidates.{candidates_ordered, ids_of}
use xrouter.Server.Failover.{World, App, Request, Loop, Credential, credential}
use xrouter.Server.Failover.Attempt.{
  Flow, next, leave, answer, send_failed, send_timed_out, adapter_panicked, try_entry, ctx_of,
}
use xrouter.Server.Failover.Steps.{
  Step, skips, refuses, panics, errs, times_out, replies, try_entry-Step, ready,
}
use xrouter.Server.Failover.Draws.{credential-IsDrawn}
use xrouter.Server.Failover.Calls.{
  IsCaused, cuts_off, stalls, Caused, Caused-take, IsRead, Reaches, Reaches-imp, Reaches-refl,
  Reaches-trans, Reaches-most,
}
use xrouter.Server.Failover.Health.{
  snapshot_from-Reaches, health_of, app_of, app_of-next_or_leave, won_in, won_in-next_or_leave,
  claim_probe-Reaches, fails-Reaches, Classified-Reaches,
}
use xrouter.Server.Failover.Route.{
  Outcome, rejected, relayed, Ending, exhausted, replied, run_candidates, conclude,
  serve_candidates, serve, start, max_attempts,
}
use xrouter.Balancer.Health.History
use xrouter.Balancer.Candidates.Order.{candidates_ordered-length}
use xrouter.Balancer.Health.History.{Call, step}

module _ (w : World) (req : Request) (cap i : ℕ) (tier_name : Text) (e : ModelEntry)
    (st : Loop) where
  granted-health :
      (p : ProviderConfig) (app : App) {c : Credential}
      → credential w i p e st.app ≡ (c, app)
      → health_of app ≡ health_of st.app
  granted-health p app c =
      ap (λ x. health_of x.1) (sym c) ∙ (credential-IsDrawn w i p e st.app).health

  -- The state before the upstream is called.
  ready-Reaches :
      (p : ProviderConfig) (app : App) {c : Credential}
      → credential w i p e st.app ≡ (c, app)
      → Reaches (IsCaused w i e) 1 [] (health_of st.app) (health_of (ready w i e app st).app)
  ready-Reaches p app c =
      subst (λ r. Reaches (IsCaused w i e) 1 [] r (health_of (ready w i e app st).app))
        (granted-health p app c) (claim_probe-Reaches w i e app)

  -- A failure of the endpoint after that.
  failing-Reaches :
      (p : ProviderConfig) (app : App) {c : Credential}
      → credential w i p e st.app ≡ (c, app)
      → IsCaused w i e (w.after i, History.fails (w.jitter i) e.endpoint_id)
      → Reaches (IsCaused w i e) 2 [] (health_of st.app) (
          step
            (health_of (ready w i e app st).app)
            (w.after i, History.fails (w.jitter i) e.endpoint_id))
  failing-Reaches p app c why =
      Reaches-trans (IsCaused w i e) 1 1 2 [] [] _ _ _ (ready-Reaches p app c)
        (fails-Reaches w i e _ why) (omega arith)

  Step-Reaches :
      (f : Flow)
      → Step w req cap i tier_name e st f
      → Reaches (IsCaused w i e) 2 (won_in e f) (health_of st.app) (health_of (app_of f))
  unfolding adapter_panicked send_failed send_timed_out step
  Step-Reaches f skips = Reaches-refl (IsCaused w i e) 2 (health_of st.app)
  Step-Reaches f (refuses p msg app c) =
      subst (λ r. Reaches (IsCaused w i e) 2 [] (health_of st.app) r) (sym (granted-health p app c))
        (Reaches-refl (IsCaused w i e) 2 (health_of st.app))
  Step-Reaches f (panics p key acct app c) =
      rw (app_of-next_or_leave, won_in-next_or_leave)
        (Reaches-most (IsCaused w i e) 1 2 [] _ _ (ready-Reaches p app c) (omega arith))
  Step-Reaches f (errs p key acct app msg c s) =
      rw (app_of-next_or_leave, won_in-next_or_leave)
        (failing-Reaches p app c (cuts_off (ctx_of w req p e key) msg s))
  Step-Reaches f (times_out p key acct app c s) =
      rw (app_of-next_or_leave, won_in-next_or_leave)
        (failing-Reaches p app c (stalls (ctx_of w req p e key) s))
  Step-Reaches f (replies p key acct app u g c s k) =
      Reaches-trans (IsCaused w i e) 1 1 2 [] (won_in e f) _ _ _ (ready-Reaches p app c)
        (Classified-Reaches w i e req cap tier_name st p key acct u _ g s k) (omega arith)

abbrev pub ending_app : Ending → App
ending_app (exhausted st) = st.app
ending_app (replied app e u) = app

-- The endpoint that answered.
abbrev ending_won : Ending → List EndpointId
ending_won (exhausted st) = []
ending_won (replied app e u) = e.endpoint_id ∷ []

module _ (w : World) (cfg : Config) (req : Request) (cap : ℕ) (tier_name : Text) where
  abbrev LoopReaches : ℕ → List ModelEntry → Loop → Ending → Type 0
  LoopReaches i es st o =
      Reaches (Caused w i es) (2 * length es) (ending_won o) (health_of st.app)
        (health_of (ending_app o))

  run_candidates-Reaches :
      (i : ℕ) (es : List ModelEntry) (st : Loop)
      → LoopReaches i es st (run_candidates w cfg req cap i tier_name es st)
  unfolding run_candidates
  run_candidates-Reaches i [] st = Reaches-refl (Caused w i []) 0 (health_of st.app)
  run_candidates-Reaches i (e ∷ es) st =
      go (λ st'. run_candidates-Reaches (suc i) es st') (try_entry w cfg req cap i tier_name e st)
        (Reaches-imp 2 _ _ _ (λ c h. inl h)
          (Step-Reaches w req cap i tier_name e st _
            (try_entry-Step w req cap i tier_name e st cfg)))
    where
      go :
          ((st' : Loop)
            → LoopReaches (suc i) es st' (run_candidates w cfg req cap (suc i) tier_name es st'))
          → (f : Flow)
          → Reaches (Caused w i (e ∷ es)) 2 (won_in e f) (health_of st.app) (health_of (app_of f))
          → LoopReaches i (e ∷ es) st (elim f [
            | next st' ↦ run_candidates w cfg req cap (suc i) tier_name es st'
            | leave st' ↦ exhausted st'
            | answer app u ↦ replied app e u
          ])
      go rest (next st') h =
          Reaches-trans (Caused w i (e ∷ es)) 2 (2 * length es) _ [] _ _ _ _ h
            (Reaches-imp (2 * length es) _ _ _ (λ c q. inr q) (rest st')) (omega arith)
      go rest (leave st') h = Reaches-most (Caused w i (e ∷ es)) 2 _ [] _ _ h (omega arith)
      go rest (answer app u) h =
          Reaches-most (Caused w i (e ∷ es)) 2 _ (e.endpoint_id ∷ []) _ _ h (omega arith)

length-take-le : (n : ℕ) (es : List ModelEntry) → length (take n es) ≤ length es
length-take-le zero es = omega arith
length-take-le (suc n) [] = omega arith
length-take-le (suc n) (e ∷ es) = omega (arith, length-take-le n es)

-- The endpoint whose answer the caller gets.
abbrev pub served_by : Outcome → List EndpointId
served_by (rejected status body) = []
served_by (relayed e u) = e.endpoint_id ∷ []

-- The calls that serving a request may make on the registry: reads of the tier's endpoints, and in the
-- rounds of its candidates those that their answers cause.
abbrev pub IsAllowed : World → Tier → App → ℕ × Call → Type 0
IsAllowed w t app c =
    IsRead (w.before 0) (ids_of t.entries) c
    ⊎ Caused w 0 (candidates_ordered app.balancer t (w.before 0)).0 c

module _ (w : World) (cfg : Config) (req : Request) (tier_name : Text) where
  conclude-health :
      (o : Ending)
      → (health_of (conclude w cfg req tier_name o).1 ≡ health_of (ending_app o))
        × (served_by (conclude w cfg req tier_name o).0 ≡ ending_won o)
  unfolding conclude
  conclude-health (exhausted st) = (refl, refl)
  conclude-health (replied app e u) = (refl, refl)

  serve_candidates-Reaches :
      (cap : ℕ) (es : List ModelEntry) (app : App)
      → Reaches
          (Caused w 0 es)
          (2 * length es)
          (served_by (serve_candidates w cfg req tier_name cap es app).0)
          (health_of app)
          (health_of (serve_candidates w cfg req tier_name cap es app).1)
  unfolding serve_candidates
  serve_candidates-Reaches cap [] app = Reaches-refl (Caused w 0 []) 0 _
  serve_candidates-Reaches cap (e ∷ es) app =
      let o = run_candidates w cfg req cap 0 tier_name (take cap (e ∷ es)) (start w cfg req app) in
      let same = conclude-health o in
      rw (same.0, same.1)
        (Reaches-most (Caused w 0 (e ∷ es)) (2 * length (take cap (e ∷ es))) (2 * length (e ∷ es))
          (ending_won o) _ _
          (Reaches-imp (2 * length (take cap (e ∷ es))) (ending_won o) _ _
            (λ c h. Caused-take w cap 0 (e ∷ es) c h)
            (run_candidates-Reaches w cfg req cap tier_name 0 (take cap (e ∷ es))
              (start w cfg req app)))
          (omega (arith, length-take-le cap (e ∷ es))))

  -- Serving a request, from the choice of the candidates to the reply, changes the health of the
  -- endpoints as some history of calls on the registry does, of at most three for each entry of the
  -- tier. The endpoints of the tier are read, and every other call is about a candidate in its
  -- round and has its cause: a claim of a probe, or what the upstream sent in that round. Just one
  -- success is recorded if the caller gets an upstream's answer, for that upstream's endpoint, and
  -- else none.
  pub serve-Reaches :
      (t : Tier) (app : App)
      → Reaches
          (IsAllowed w t app)
          (3 * length t.entries)
          (served_by (serve w cfg req tier_name t app).0)
          (health_of app)
          (health_of (serve w cfg req tier_name t app).1)
  unfolding serve candidates_ordered
  serve-Reaches t app =
      let now = w.before 0 in
      let found = candidates_ordered app.balancer t now in
      let app' : App = record app { balancer = found.1 } in
      let n : length found.0 ≡ length t.entries = candidates_ordered-length app.balancer t now in
      Reaches-trans (IsAllowed w t app) (length (ids_of t.entries)) (2 * length found.0) _ [] _ _ _
        _
        (Reaches-imp (length (ids_of t.entries)) [] _ _ (λ c h. inl h)
          (snapshot_from-Reaches [] (health_of app) (ids_of t.entries) now))
        (Reaches-imp (2 * length found.0) _ _ _ (λ c h. inr h)
          (serve_candidates-Reaches (max_attempts cfg app' found.0) found.0 app'))
        (omega (arith, n, length-map t.entries (λ (e : ModelEntry). e.endpoint_id)))
