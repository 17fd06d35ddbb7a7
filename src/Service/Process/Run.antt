-- ===== src/Service/Process/Run.antt =====
-- ProcessEvent: its phases in their order. Errors are results; only a panic is an outcome of its own.
use go_m_layer.Prelude.{Bool, if◌then◌else◌, Outcome, ok, fail, panic}
use go_m_layer.External.{External}
use go_m_layer.Entities.Records.{Event}
use go_m_layer.DataStates.{DataStates}
use go_m_layer.Service.Env.{Env}
use go_m_layer.Service.Process.Phase.{Phase, ◌>>=◌, finish, Verdict, PayloadData}
use go_m_layer.Service.Process.Checks.{is_local, process_local, check_event, agent_authorization}
use go_m_layer.Service.Process.Previous.{previous_event_of}
use go_m_layer.Service.Process.Auth.{auth_event_of}
use go_m_layer.Service.Process.Recency.{check_recency}

unfoldable pub with_states : DataStates → Outcome Verdict → Outcome (DataStates × Verdict)
with_states ds (ok v) = ok (ds, v)
with_states ds (fail e) = fail e
with_states ds panic = panic

module _ ⦃x : External⦄ (v : Env) where
  -- The event of another node.
  unfoldable pub process_remote :
      Event → PayloadData → Bool → DataStates → Phase (DataStates × Verdict)
  process_remote e data_ required ds = do
    kept ← check_event v ds e data_ required
    current ← agent_authorization v kept e required
    (with_previous, previous_event, previous) ← previous_event_of v kept e
    r ← auth_event_of v with_previous e required current previous
    check_recency v e data_ required current previous_event previous r

  unfoldable pub process_event :
      Event → PayloadData → Bool → DataStates → Outcome (DataStates × Verdict)
  unfolding process_remote with_states
  process_event e data_ required ds =
      if is_local v e
      then with_states ds (process_local v e)
      else finish (process_remote e data_ required ds)
