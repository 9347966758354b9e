-- ===== src/Server/Failover/Calls.antt =====
-- crates/xrouter-server/src/lib.rs: the calls on `HealthRegistry` that `route_openai_request` may make,
-- each with what it is made for.
use xrouter.Common.{
  ℕ, zero, suc, ◌+◌, ◌≤◌, ◌≡◌, refl, sym, ap, ◌∙◌, ◌||◌, ◌⊎◌, inl, inr, true, Option, none, some,
  List, [], ◌∷◌, ◌++◌, Text, All, All-append, All-imp, append_assoc, length, length-append, take,
  arith, leb, ◌==◌,
}
use xrouter.Core.{EndpointId, ModelEntry}
use xrouter.Balancer.Health.{HealthRegistry}
use xrouter.Balancer.Health.History
use xrouter.Balancer.Health.History.{Call, reads, probes, retries_after, kills, step, run}
use xrouter.Server.Failover.{World, RequestCtx, UpstreamResponse, answered, failed, timed_out}
use xrouter.Server.Failover.Attempt.{is_success}

-- What the calls in the round of a candidate, at place `i`, are made for: its time and its endpoint
-- or key, and the upstream's answer to what was sent.
pub data IsCaused (w : World) (i : ℕ) (e : ModelEntry) : ℕ × Call → Type 0 where
  claims : IsCaused w i e (w.before i, probes e.endpoint_id)
  serves :
      (ctx : RequestCtx) (u : UpstreamResponse)
      → w.send i ctx ≡ answered u
      → is_success u.status ≡ true
      → IsCaused w i e (w.after i, History.succeeds e.endpoint_id)
  rejects_key :
      (ctx : RequestCtx) (u : UpstreamResponse)
      → w.send i ctx ≡ answered u
      → (u.status == 401 || u.status == 403) ≡ true
      → IsCaused w i e (w.after i, kills ctx.api_key)
  limits_rate :
      (ctx : RequestCtx) (u : UpstreamResponse)
      → w.send i ctx ≡ answered u
      → (u.status == 429) ≡ true
      → u.retry_after ≡ none
      → IsCaused w i e (w.after i, History.fails (w.jitter i) e.endpoint_id)
  tells_when :
      (ctx : RequestCtx) (u : UpstreamResponse) (secs : Option ℕ)
      → w.send i ctx ≡ answered u
      → (u.status == 429) ≡ true
      → u.retry_after ≡ some secs
      → IsCaused w i e (w.after i, retries_after e.endpoint_id secs)
  breaks :
      (ctx : RequestCtx) (u : UpstreamResponse)
      → w.send i ctx ≡ answered u
      → (leb 500 u.status || u.status == 408) ≡ true
      → IsCaused w i e (w.after i, History.fails (w.jitter i) e.endpoint_id)
  cuts_off :
      (ctx : RequestCtx) (msg : Text)
      → w.send i ctx ≡ failed msg
      → IsCaused w i e (w.after i, History.fails (w.jitter i) e.endpoint_id)
  stalls :
      (ctx : RequestCtx)
      → w.send i ctx ≡ timed_out
      → IsCaused w i e (w.after i, History.fails (w.jitter i) e.endpoint_id)

-- A call in the round of one of the candidates, the first of which is at place `i`.
abbrev pub Caused : World → ℕ → List ModelEntry → ℕ × Call → Type 0
Caused w i [] c = ⊥
Caused w i (e ∷ es) c = IsCaused w i e c ⊎ Caused w (suc i) es c

pub Caused-take :
    (w : World) (n i : ℕ) (es : List ModelEntry) (c : ℕ × Call)
    → Caused w i (take n es) c
    → Caused w i es c
Caused-take w zero i es c h = elim h [ ]
Caused-take w (suc n) i [] c h = h
Caused-take w (suc n) i (e ∷ es) c (inl h) = inl h
Caused-take w (suc n) i (e ∷ es) c (inr h) = inr (Caused-take w n (suc i) es c h)

-- The read of one of these endpoints.
abbrev pub IsRead : ℕ → List EndpointId → ℕ × Call → Type 0
IsRead now [] c = ⊥
IsRead now (id ∷ ids) c = (c ≡ (now, reads id)) ⊎ IsRead now ids c

-- The endpoints whose success is recorded, in order.
abbrev pub win : Call → List EndpointId
win (History.succeeds id) = id ∷ []
win c = []

unfoldable pub wins : List (ℕ × Call) → List EndpointId
wins [] = []
wins ((t, c) ∷ cs) = win c ++ wins cs

wins-append : (cs ds : List (ℕ × Call)) → wins (cs ++ ds) ≡ wins cs ++ wins ds
unfolding wins
wins-append [] ds = refl
wins-append ((t, c) ∷ cs) ds =
    ap (λ ws. win c ++ ws) (wins-append cs ds) ∙ sym (append_assoc (win c) (wins cs) (wins ds))

run-append : (r : HealthRegistry) (cs ds : List (ℕ × Call)) → run r (cs ++ ds) ≡ run (run r cs) ds
unfolding run
run-append r [] ds = refl
run-append r (c ∷ cs) ds = run-append (step r c) cs ds

-- The second registry is the first after at most `n` calls, each of which is allowed, and among which
-- the recorded successes are those of the endpoints `won`.
abbrev pub Reaches :
    (ℕ × Call → Type 0) → ℕ → List EndpointId → HealthRegistry → HealthRegistry → Type 0
Reaches IsAllowed n won r r' =
    (cs : List (ℕ × Call)) × (length cs ≤ n) × All IsAllowed cs × (wins cs ≡ won) × (r' ≡ run r cs)

pub Reaches-imp :
    {P Q : ℕ × Call → Type 0} (n : ℕ) (won : List EndpointId) (r s : HealthRegistry)
    → ((c : ℕ × Call) → P c → Q c)
    → Reaches P n won r s
    → Reaches Q n won r s
Reaches-imp n won r s f (cs, h, ps, e, q) = (cs, h, All-imp f cs ps, e, q)

module _ (P : ℕ × Call → Type 0) where
  pub Reaches-refl : (n : ℕ) (r : HealthRegistry) → Reaches P n [] r r
  unfolding run wins
  Reaches-refl n r = ([], omega arith, tt, refl, refl)

  pub Reaches-step :
      (r : HealthRegistry) (c : ℕ × Call) → P c → win c.1 ≡ [] → Reaches P 1 [] r (step r c)
  unfolding run wins
  Reaches-step r (t, c) p lost = ((t, c) ∷ [], omega arith, (p, tt), ap (λ ws. ws ++ []) lost, refl)

  pub Reaches-win :
      (r : HealthRegistry) (t : ℕ) (id : EndpointId)
      → P (t, History.succeeds id)
      → Reaches P 1 (id ∷ []) r (step r (t, History.succeeds id))
  unfolding run wins
  Reaches-win r t id p = ((t, History.succeeds id) ∷ [], omega arith, (p, tt), refl, refl)

  pub Reaches-trans :
      (m n k : ℕ) (us vs : List EndpointId) (r s t : HealthRegistry)
      → Reaches P m us r s
      → Reaches P n vs s t
      → m + n ≤ k
      → Reaches P k (us ++ vs) r t
  Reaches-trans m n k us vs r s t (cs, h, ps, e, q) (ds, l, qs, f, p) le = (
    cs ++ ds,
    omega (arith, length-append cs ds),
    All-append P cs ds ps qs,
    wins-append cs ds ∙ (λ i. e i ++ f i),
    p ∙ ap (λ x. run x ds) q ∙ sym (run-append r cs ds),
  )

  pub Reaches-most :
      (n k : ℕ) (won : List EndpointId) (r s : HealthRegistry)
      → Reaches P n won r s
      → n ≤ k
      → Reaches P k won r s
  Reaches-most n k won r s (cs, h, ps, e, q) le = (cs, omega arith, ps, e, q)
