-- ===== src/Service/Handle/Dispatch.antt =====
-- HandleNewPubSubEvent and broadcastEvent of internal/service/helper.go.
pub mod Facts
pub mod Commits
use go_m_layer.Prelude.{
  Str, Bool, true, false, not, ◌&&◌, if◌then◌else◌, Option, none, some, Error, Outcome, ok, fail,
  panic, ◌>>=◌,
}
use go_m_layer.External.{External}
use go_m_layer.Entities.Records.{
  State, subnet_state, authorization_state, topic_state, subscription_state, message_state, Event,
}
use go_m_layer.Service.Env.{Env}
use go_m_layer.Service.Process.Checks.{is_local}
use go_m_layer.Service.Handle.Step.{Handled, Step, next}
use go_m_layer.Service.Handle.Auth.{handle_auth}
use go_m_layer.Service.Handle.Topic.{handle_topic}
use go_m_layer.Service.Handle.Subscription.{handle_subscription}
use go_m_layer.Service.Handle.Message.{handle_message}
use go_m_layer.Service.Handle.Subnet.{handle_subnet, subnet_id}

no_error : Option Error → Bool
no_error none = true
no_error (some e) = false

-- broadcastEvent: the event that p2p.PublishEvent is called on, if any, which is marked first.
unfoldable pub broadcasts : Env → Event → Option Error → Option Event
unfolding no_error
broadcasts v e err =
    if no_error err && not e.broadcasted && is_local v e
    then some (record e { broadcasted = true })
    else none

module _ ⦃x : External⦄ (v : Env) where
  handled_by_kind : Event → Option State → Outcome Handled
  handled_by_kind e none = ok (record { committed = none; error = none })
  handled_by_kind e (some (subnet_state s)) = handle_subnet v e
  handled_by_kind e (some (authorization_state a)) = handle_auth v e
  handled_by_kind e (some (topic_state t)) = handle_topic v e
  handled_by_kind e (some (subscription_state s)) = handle_subscription v e
  handled_by_kind e (some (message_state m)) = handle_message v e

  -- HandleNewPubSubSubnetEvent writes the subnet's id into the event before it can return no error.
  with_subnet : Event → Step Str → Event
  with_subnet e (next id) = record e { subnet = id }
  with_subnet e _ = e

  -- Without a handler there is no broadcastEvent.
  broadcasts_handled : Event → Option State → Handled → Option Event
  unfolding broadcasts with_subnet
  broadcasts_handled e none h = none
  broadcasts_handled e (some (subnet_state s)) h =
      broadcasts v (with_subnet e (subnet_id v s)) h.error
  broadcasts_handled e (some s) h = broadcasts v e h.error

  -- What the handler did, and the event that is published.
  unfoldable pub handle_event : Event → Outcome (Handled × Option Event)
  unfolding handled_by_kind broadcasts_handled
  handle_event e = do
    h ← handled_by_kind e e.payload.content
    ok (h, broadcasts_handled e e.payload.content h)
