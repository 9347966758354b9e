-- ===== src/Server/Failover/Bounds.antt =====
-- crates/xrouter-server/src/lib.rs: the cap on the attempts in the loop of `route_openai_request`.
use xrouter.Common.{ℕ, suc, ◌+◌, ◌≤◌, List, [], ◌∷◌, Text}
use xrouter.Core.{ModelEntry}
use xrouter.Config.{Config}
use xrouter.Server.Failover.{World, Request, Loop}
use xrouter.Server.Failover.Attempt.{Flow, next, leave, answer, try_entry}
use xrouter.Server.Failover.Route.{Ending, exhausted, replied}

unfoldable pub IsBounded : ℕ → ℕ → Flow → Type 0
IsBounded cap n (next st) = st.attempt ≤ n + 1
IsBounded cap n (leave st) = (cap ≤ st.attempt) × (st.attempt ≤ n + 1)
IsBounded cap n (answer app u) = Unit

-- The loop without its cap: every candidate is tried until one is answered with success.
module _ (w : World) (cfg : Config) (req : Request) (cap : ℕ) (tier_name : Text) where
  unfoldable pub try_all : ℕ → List ModelEntry → Loop → Ending
  try_all i [] st = exhausted st
  try_all i (e ∷ es) st = elim (try_entry w cfg req cap i tier_name e st) [
    | next st' ↦ try_all (suc i) es st'
    | leave st' ↦ try_all (suc i) es st'
    | answer app u ↦ replied app e u
  ]
