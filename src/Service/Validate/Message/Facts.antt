-- ===== src/Service/Validate/Message/Facts.antt =====
-- What a message satisfies that its check accepts.
use go_m_layer.Prelude.{
  ◌≡◌, refl, arith, ◌⊎◌, inl, inr, ℕ, ◌≤◌, ltb, Bool, true, false, not, Option, none, some, List,
  [], ◌∷◌, ◌++◌, str_eq, str_eq_iff, if◌then◌else◌, Error, Outcome, ok, fail, panic, Ensures,
  Ensures-result, Ensures-ok, Ensures-fail, Ensures-panic, Ensures->>=, Ensures-reject_if,
  Ensures-deref, Ensures-if, Ensures-attempt, Ensures-last, not-false, attempt, reject_if,
}
use go_m_layer.Entities.Constants.{member_priviledge, topic_writer_role, topic_manager_role}
use go_m_layer.Entities.Records.{
  Authorization, Subnet, Topic, Subscription, Message, State, message_state, ClientPayload,
}
use go_m_layer.Service.Env.{Env}
use go_m_layer.Service.Validate.Authorization.{authorization_filter}
use go_m_layer.Service.Validate.Message.{
  validate_message_data, message_of, chosen_subscription, below, may_post, is_member,
  member_without_subscription, of_subscriptions, found_or_none, subscriptions_of,
}

-- Of a list that a query returned: its first authorization has the privilege of a member.
FirstIsMember : Outcome (List Authorization) → Type 0
FirstIsMember o =
    (a : Authorization) × (more : List Authorization) × (p : ℕ) × (o ≡ ok (a ∷ more))
    × (a.priviledge ≡ some p)
    × (member_priviledge ≤ p)

is_member-Ensures : (l : List Authorization) → Ensures (λ _. FirstIsMember (ok l)) (is_member l)
unfolding is_member FirstIsMember
is_member-Ensures [] = Ensures-fail _ _
is_member-Ensures (a ∷ more) = Ensures-deref _ a.priviledge _ λ p has.
    Ensures-last _ (reject_if (ltb p member_priviledge) _)
      λ _ q. (a, more, p, refl, has, ground arith)

authorized-Ensures :
    (o : Outcome (List Authorization)) (e : Error)
    → Ensures (λ _. FirstIsMember o) (attempt o is_member (λ _. fail e))
authorized-Ensures (ok l) e = is_member-Ensures l
authorized-Ensures (fail err) e = Ensures-fail _ e
authorized-Ensures panic e = Ensures-panic _

-- A subscription that stands in a list.
Among : Subscription → List Subscription → Type 0
Among s l = (before after : List Subscription) × (l ≡ before ++ (s ∷ after))

Among-two :
    (c : Bool) (a b : Subscription) (more : List Subscription)
    → Among (if c then a else b) (a ∷ b ∷ more)
unfolding Among
Among-two true a b more = ([], b ∷ more, refl)
Among-two false a b more = (a ∷ [], more, refl)

chosen_subscription-Among :
    (a : Subscription) (more : List Subscription)
    → Ensures (λ s. Among s (a ∷ more)) (chosen_subscription a more)
unfolding chosen_subscription
chosen_subscription-Among a [] = unfold Among in Ensures-ok _ a ([], [], refl)
chosen_subscription-Among a (b ∷ more) = Ensures-deref _ a.role _ λ first _.
    Ensures-deref _ b.role _ λ second _. Ensures-ok _ _ (Among-two (ltb second first) a b more)

module _ (v : Env) (payload : ClientPayload) (topic : Topic) where
  RoleFor : ℕ → Subscription → Type 0
  RoleFor role s = (payload.account ≡ topic.account) ⊎ ((r : ℕ) × (s.role ≡ some r) × (role ≤ r))

  -- The topic's account posts with any subscription, any other account with the role of a manager, if
  -- the topic is read-only, or of a writer.
  unfoldable pub MayPost : List Subscription → Option Subscription → Type 0
  unfolding FirstIsMember RoleFor Among
  MayPost l none =
      (l ≡ [])
      × (subnet : Subnet) × (v.subnet_by_id payload.subnet ≡ ok subnet)
      × ((payload.account ≡ subnet.account)
          ⊎ FirstIsMember (
              v.account_authorizations
                (authorization_filter payload.account payload.subnet payload.agent)))
  MayPost l (some s) =
      Among s l
      × (read_only : Bool) × (topic.read_only ≡ some read_only)
      × RoleFor (if read_only then topic_manager_role else topic_writer_role) s

  below-Ensures :
      (s : Subscription) (role : ℕ)
      → Ensures (λ b. b ≡ false → RoleFor role s) (below payload topic s role)
  unfolding below RoleFor
  below-Ensures s role =
      Ensures-if _ (str_eq payload.account topic.account) _ _
        (λ same. Ensures-ok _ false λ _. inl ((str_eq_iff payload.account topic.account).0 same))
        λ _.
          Ensures-deref _ s.role _
            λ r has. Ensures-ok _ (ltb r role) λ enough. inr (r, has, ground arith)

  allowed :
      (s : Subscription) (read_only not_manager not_writer : Bool)
      → (if read_only then below payload topic s topic_manager_role else ok false) ≡ ok not_manager
      → not_manager ≡ false
      → below payload topic s topic_writer_role ≡ ok not_writer
      → not_writer ≡ false
      → RoleFor (if read_only then topic_manager_role else topic_writer_role) s
  allowed s true not_manager not_writer asked enough found writer =
      Ensures-result _ (below payload topic s topic_manager_role) not_manager
        (below-Ensures s topic_manager_role) asked enough
  allowed s false not_manager not_writer asked enough found writer =
      Ensures-result _ (below payload topic s topic_writer_role) not_writer
        (below-Ensures s topic_writer_role) found writer

  may_post-Ensures :
      (l : List Subscription) (s : Subscription)
      → Among s l
      → Ensures (MayPost l) (may_post payload topic s)
  unfolding may_post MayPost
  may_post-Ensures l s among = Ensures-deref _ topic.read_only _ λ read_only set.
      Ensures->>= _ (if read_only then below payload topic s topic_manager_role else ok false) _
        λ not_manager asked. Ensures-reject_if _ not_manager _ _ λ enough.
          Ensures->>= _ (below payload topic s topic_writer_role) _ λ not_writer found.
            Ensures-reject_if _ not_writer _ _ λ writer. Ensures-ok _ (some s) (
              among,
              read_only,
              set,
              allowed s read_only not_manager not_writer asked enough found writer,
            )

  member_without_subscription-Ensures : Ensures (MayPost []) (member_without_subscription v payload)
  unfolding member_without_subscription MayPost
  member_without_subscription-Ensures =
      let granted =
        v.account_authorizations
          (authorization_filter payload.account payload.subnet payload.agent) in
      Ensures-attempt _ (v.subnet_by_id payload.subnet) _ _
        (λ subnet found.
          Ensures-if _ (str_eq payload.account subnet.account) _ _
            (λ same.
              Ensures-ok _ none
                (refl, subnet, found, inl ((str_eq_iff payload.account subnet.account).0 same)))
            λ _. Ensures->>= _ (attempt granted is_member _) _ λ _ q. Ensures-ok _ none (
              refl,
              subnet,
              found,
              inr (
                  Ensures-result _ (attempt granted is_member _) tt (authorized-Ensures granted _)
                    q),
            ))
        λ e _. Ensures-fail _ _

  of_subscriptions-Ensures :
      (l : List Subscription) → Ensures (MayPost l) (of_subscriptions v payload topic l)
  unfolding of_subscriptions
  of_subscriptions-Ensures [] = member_without_subscription-Ensures
  of_subscriptions-Ensures (s ∷ more) = Ensures->>= _ (chosen_subscription s more) _ λ chosen h.
      may_post-Ensures (s ∷ more) chosen
        (Ensures-result _ (chosen_subscription s more) chosen (chosen_subscription-Among s more) h)

  -- The payload holds a message whose sender is its account, and that account may post, by the
  -- subscriptions to the topic that the store has of the account and of the agent.
  pub GoodMessage : Option Subscription → Type 0
  GoodMessage r =
      (m : Message) × (payload.content ≡ some (message_state m))
      × (payload.account ≡ m.sender)
      × (by_account by_agent : List Subscription) × (found_or_none
            (subscriptions_of v payload m payload.account)
          ≡ ok by_account)
      × (subscriptions_of v payload m payload.agent ≡ ok by_agent)
      × MayPost (by_account ++ by_agent) r

message_of-Ensures : (o : Option State) → Ensures (λ m. o ≡ some (message_state m)) (message_of o)
unfolding message_of Ensures
message_of-Ensures (some (message_state a)) = refl
message_of-Ensures _ = tt

module _ (v : Env) (payload : ClientPayload) (topic : Topic) where
  good_message :
      (m : Message) (by_account by_agent : List Subscription) (r : Option Subscription)
      → message_of payload.content ≡ ok m
      → not (str_eq payload.account m.sender) ≡ false
      → found_or_none (subscriptions_of v payload m payload.account) ≡ ok by_account
      → subscriptions_of v payload m payload.agent ≡ ok by_agent
      → MayPost v payload topic (by_account ++ by_agent) r
      → GoodMessage v payload topic r
  unfolding GoodMessage
  good_message m by_account by_agent r held same ours theirs may = (
    m,
    Ensures-result _ (message_of payload.content) m (message_of-Ensures payload.content) held,
    (str_eq_iff payload.account m.sender).0 (not-false _ same),
    by_account,
    by_agent,
    ours,
    theirs,
    may,
  )

  validate_message_data-Ensures :
      Ensures (GoodMessage v payload topic) (validate_message_data v payload topic)
  unfolding validate_message_data
  validate_message_data-Ensures = Ensures->>= _ (message_of payload.content) _ λ m held.
      Ensures-reject_if _ (not (str_eq payload.account m.sender)) _ _ λ same.
        Ensures->>= _ (found_or_none (subscriptions_of v payload m payload.account)) _
          λ by_account ours.
            Ensures->>= _ (subscriptions_of v payload m payload.agent) _ λ by_agent theirs.
              Ensures-last _ (of_subscriptions v payload topic (by_account ++ by_agent)) λ r posted.
                good_message m by_account by_agent r held same ours theirs (
                  Ensures-result _ (of_subscriptions v payload topic (by_account ++ by_agent)) r
                    (of_subscriptions-Ensures v payload topic (by_account ++ by_agent)) posted)

  -- A message that ValidateMessageData accepts is sent by the payload's account. If the result names a
  -- subscription, it is one that the store gave for the topic and the account or the agent, and the account
  -- owns the topic or that subscription has the role of a manager, where the topic is read-only, and of a
  -- writer, where it is not. If the result names none, the store gave none, and the account owns the subnet
  -- or has authorized the agent with the privilege of a member.
  pub validate_message_data-GoodMessage :
      (r : Option Subscription)
      → validate_message_data v payload topic ≡ ok r
      → GoodMessage v payload topic r
  validate_message_data-GoodMessage r h =
      Ensures-result _ (validate_message_data v payload topic) r validate_message_data-Ensures h
