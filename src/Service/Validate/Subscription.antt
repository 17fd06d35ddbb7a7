-- ===== src/Service/Validate/Subscription.antt =====
-- ValidateSubscriptionData of internal/service/subscription.go
use go_m_layer.Prelude.{
  true, false, not, ◌&&◌, ◌||◌, Option, none, some, List, [], ◌∷◌, str, str_eq, ltb, if◌then◌else◌,
  ◌==◌, Error, record_not_found, Outcome, ok, fail, panic, forbidden, is_not_found, ◌>>=◌, ◌>>◌,
  reject_if, deref,
}
use go_m_layer.Entities.Constants.{
  subscribe_topic_event, unsubscribed_subscription_status, invited_subscription_status,
  subscribed_subscription_status, banned_subscription_status,
}
use go_m_layer.Entities.Records.{
  Topic, Subscription, State, subscription_state, ClientPayload, zero_subscription,
}
use go_m_layer.Service.Env.{Env}

subscription_of : Option State → Outcome Subscription
subscription_of (some (subscription_state s)) = ok s
subscription_of _ = panic

first_subscription : List Subscription → Option Subscription
first_subscription [] = none
first_subscription (s ∷ more) = some s

-- The error of a missing record is kept beside the result, and returned at the end.
current_of : Outcome (List Subscription) → Outcome (Option Subscription × Option Error)
unfolding first_subscription
current_of (ok found) = ok (first_subscription found, none)
current_of (fail record_not_found) = ok (none, some record_not_found)
current_of (fail e) = if is_not_found (some e) then ok (none, some e) else fail e
current_of panic = panic

-- An event of the subscription's kind, by whoever sent it.
invited_or_banned : ClientPayload → Subscription → Outcome (Unit {0})
invited_or_banned payload s =
    if not (str_eq s.subscriber payload.account) && not (str_eq s.agent payload.agent)
    then (do
      status ← deref s.status
      reject_if
          (not (status == invited_subscription_status || status == banned_subscription_status))
          (forbidden (str "Subscription status must be Invited or Banned")))
    else ok tt

-- *topic.Public is read first, whatever the current state is.
invited_first : Topic → Option Subscription → Outcome (Unit {0})
invited_first topic current = do
  is_public ← deref topic.is_public
  reject_if (not is_public && (elim current [ none ↦ true | some c ↦ false ]))
      (forbidden (str "Must be invited first"))

not_banned : Option Subscription → Outcome (Unit {0})
not_banned none = ok tt
not_banned (some c) = do
  status ← deref c.status
  reject_if (status == banned_subscription_status) (forbidden (str "Banned subscriber"))

role_allowed : Topic → Subscription → Option Subscription → Outcome (Unit {0})
role_allowed topic s (some c) = do
  old ← deref c.role
  new ← deref s.role
  reject_if (not (old == new)) (forbidden (str "Invalid role selected"))
role_allowed topic s none = do
  new ← deref s.role
  default ← deref topic.default_subscriber_role
  reject_if (ltb default new) (forbidden (str "Invalid role selected"))

subscribed_or_not : Subscription → Outcome (Unit {0})
subscribed_or_not s = do
  status ← deref s.status
  reject_if
      (not (status == unsubscribed_subscription_status || status == subscribed_subscription_status))
      (forbidden (str "Subscription status must be Subscribed or Unsubscribed"))

answers_invitation : Topic → Subscription → Option Subscription → Outcome (Unit {0})
unfolding invited_first not_banned role_allowed subscribed_or_not
answers_invitation topic s current = do
  invited_first topic current
  not_banned current
  role_allowed topic s current
  subscribed_or_not s

returned : Option Subscription × Option Error → Outcome (Option Subscription)
returned (current, none) = ok current
returned (current, some e) = fail e

module _ (v : Env) where
  unfoldable pub validate_subscription_data : ClientPayload → Topic → Outcome (Option Subscription)
  unfolding subscription_of current_of invited_or_banned answers_invitation returned
  validate_subscription_data payload topic = do
    s ← subscription_of payload.content
    found ← current_of (
        v.subscriptions (record zero_subscription {
          subscriber = s.subscriber;
          subnet = s.subnet;
          topic = s.topic;
        }))
    if payload.event_type == subscribe_topic_event
        then invited_or_banned payload s
        else answers_invitation topic s found.0
    returned found
