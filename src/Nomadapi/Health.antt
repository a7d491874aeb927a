-- ===== src/Nomadapi/Health.antt =====
-- internal/nomadapi/client.go: Health. The calls Status().Leader and Nodes().List are arguments.
use ai_model_scheduler.Base.{length, ok, err, List, ℕ, String, Bool, Result, true, false}
use ai_model_scheduler.Nomadapi.Api.{Act, ◌>>=◌, return}
use ai_model_scheduler.Nomadapi.Stats.{NodeStub}

-- Health
pub record Health : Type 0 where
  pub reachable : Bool
  pub leader : String
  pub nodes : ℕ
  pub error : String

unfoldable pub count_nodes : Result String (List NodeStub) → ℕ
count_nodes (err _) = 0
count_nodes (ok nodes) = length nodes

module _ {W : Type 0} (leader_call : Act W (Result String String))
    (nodes_call : Act W (Result String (List NodeStub))) where
  unfoldable pub led : Result String String → Act W Health
  unfolding count_nodes
  led (err text) = return (record { reachable = false; leader = ""; nodes = 0; error = text })
  led (ok leader) = do
    listed ← nodes_call
    return (record { reachable = true; leader = leader; nodes = count_nodes listed; error = "" })

  -- Health
  unfoldable pub health : Act W Health
  health = leader_call >>= led
