-- ===== src/Service/Validate/Message.antt =====
-- ValidateMessageData of internal/service/message.go
pub mod Facts
use go_m_layer.Prelude.{
  ℕ, Bool, true, false, not, ◌&&◌, ◌||◌, Option, none, some, List, [], ◌∷◌, ◌++◌, Str, str, str_eq,
  ltb, if◌then◌else◌, Error, Outcome, ok, fail, panic, unauthorized, bad_request, is_not_found,
  ◌>>=◌, ◌>>◌, reject_if, deref, attempt,
}
use go_m_layer.Entities.Constants.{member_priviledge, topic_writer_role, topic_manager_role}
use go_m_layer.Entities.Records.{
  Authorization, Subnet, Topic, Subscription, Message, State, message_state, ClientPayload,
  zero_subscription,
}
use go_m_layer.Service.Env.{Env}
use go_m_layer.Service.Validate.Authorization.{authorization_filter}

message_of : Option State → Outcome Message
message_of (some (message_state m)) = ok m
message_of _ = panic

-- A missing record is no subscription.
found_or_none : Outcome (List Subscription) → Outcome (List Subscription)
found_or_none (ok found) = ok found
found_or_none (fail e) = if is_not_found (some e) then ok [] else fail e
found_or_none panic = panic

-- Of the first two subscriptions, the one of the higher role; the second where the roles are equal.
unfoldable pub chosen_subscription : Subscription → List Subscription → Outcome Subscription
chosen_subscription a [] = ok a
chosen_subscription a (b ∷ more) = do
  first ← deref a.role
  second ← deref b.role
  ok (if ltb second first then a else b)

-- payload.Account != topic.Account && *subscription.Role < role
unfoldable pub below : ClientPayload → Topic → Subscription → ℕ → Outcome Bool
below payload topic s role =
    if str_eq payload.account topic.account
    then ok false
    else (deref s.role >>= λ r. ok (ltb r role))

unfoldable pub may_post : ClientPayload → Topic → Subscription → Outcome (Option Subscription)
unfolding below
may_post payload topic s = do
  read_only ← deref topic.read_only
  not_manager ← if read_only then below payload topic s topic_manager_role else ok false
  reject_if not_manager (unauthorized (str "Not allowed to post to this topic"))
  not_writer ← below payload topic s topic_writer_role
  reject_if not_writer (unauthorized (str "Not allowed to post to this topic"))
  ok (some s)

is_member : List Authorization → Outcome (Unit {0})
is_member [] = fail (unauthorized (str "agent not authorized"))
is_member (a ∷ more) = do
  p ← deref a.priviledge
  reject_if (ltb p member_priviledge) (unauthorized (str "agent not authorized"))

module _ (v : Env) where
  -- Without a subscription: the subnet's account, or an account that authorized the agent.
  member_without_subscription : ClientPayload → Outcome (Option Subscription)
  unfolding is_member
  member_without_subscription payload =
      attempt (v.subnet_by_id payload.subnet)
        (λ subnet.
          if str_eq payload.account subnet.account
          then ok none
          else (attempt
                (v.account_authorizations
                  (authorization_filter payload.account payload.subnet payload.agent))
                is_member (λ e. fail (unauthorized (str "Invalid authorization")))
              >> ok none))
        λ e. fail (bad_request (str "Invalid subnet"))

  of_subscriptions : ClientPayload → Topic → List Subscription → Outcome (Option Subscription)
  unfolding member_without_subscription chosen_subscription may_post
  of_subscriptions payload topic [] = member_without_subscription payload
  of_subscriptions payload topic (s ∷ more) = do
    chosen ← chosen_subscription s more
    may_post payload topic chosen

  subscriptions_of : ClientPayload → Message → Str → Outcome (List Subscription)
  subscriptions_of payload m subscriber = v.subscriptions (record zero_subscription {
    subnet = payload.subnet;
    topic = m.topic;
    subscriber = subscriber;
  })

  unfoldable pub validate_message_data : ClientPayload → Topic → Outcome (Option Subscription)
  unfolding message_of found_or_none subscriptions_of of_subscriptions
  validate_message_data payload topic = do
    m ← message_of payload.content
    reject_if (not (str_eq payload.account m.sender)) (bad_request (str "Invalid message signer"))
    by_account ← found_or_none (subscriptions_of payload m payload.account)
    by_agent ← subscriptions_of payload m payload.agent
    of_subscriptions payload topic (by_account ++ by_agent)
