-- ===== src/Service/Validate/Topic/Facts.antt =====
-- What a topic satisfies that its check accepts.
use go_m_layer.Prelude.{
  ◌≡◌, arith, ℕ, ◌≤◌, ltb, true, not, Option, none, some, is_empty, length, if◌then◌else◌, Error,
  ok, Ensures, Ensures-result, Ensures-ok, Ensures->>=, Ensures-reject_if, Ensures-deref,
  Ensures-last, not-false, reject_if,
}
use go_m_layer.Entities.Constants.{member_priviledge}
use go_m_layer.Entities.Records.{Authorization, Topic}
use go_m_layer.Service.Env.{Env}
use go_m_layer.Service.Validate.Topic.{
  validate_topic_data, writes_as_member, local_topic, is_alpha_numeric_dot,
}

unfoldable pub HasPrivilege : Option Authorization → Type 0
HasPrivilege none = Unit {0}
HasPrivilege (some a) = (p : ℕ) × (a.priviledge ≡ some p) × (member_priviledge ≤ p)

-- A reference of one to forty letters, digits, dots and underscores; and an authorization, where one
-- is given, with the privilege of a member.
unfoldable pub GoodTopic : Topic → Option Authorization → Type 0
unfolding HasPrivilege
GoodTopic topic auth =
    (is_alpha_numeric_dot topic.ref ≡ true) × (length topic.ref ≤ 40) × HasPrivilege auth

rejected_below :
    (P : Unit {0} → Type 0) (p : ℕ) (e : Error)
    → (member_priviledge ≤ p → P tt)
    → Ensures P (reject_if (ltb p member_priviledge) e)
rejected_below P p e h =
    Ensures-last P (reject_if (ltb p member_priviledge) e) λ _ q. h (ground arith)

writes_as_member-Ensures :
    (o : Option Authorization) → Ensures (λ _. HasPrivilege o) (writes_as_member o)
unfolding writes_as_member HasPrivilege
writes_as_member-Ensures none = Ensures-ok _ tt tt
writes_as_member-Ensures (some b) =
    Ensures-deref _ b.priviledge _ λ p has. rejected_below _ p _ λ enough. (p, has, enough)

validate_topic_data-Ensures :
    (v : Env) (topic : Topic) (auth : Option Authorization)
    → Ensures (λ (_ : Option Topic). GoodTopic topic auth) (validate_topic_data v topic auth)
unfolding validate_topic_data GoodTopic
validate_topic_data-Ensures v topic auth =
    Ensures->>= _
      (if not (is_empty topic.id) then local_topic (v.topic_by_id topic.id) else ok none) _
      λ current _. Ensures->>= _ (writes_as_member auth) _ λ _ written.
        Ensures-reject_if _ (ltb 40 (length topic.ref)) _ _ λ short.
          Ensures-reject_if _ (not (is_alpha_numeric_dot topic.ref)) _ _ λ letters.
            Ensures-ok _ current (
              not-false (is_alpha_numeric_dot topic.ref) letters,
              ground arith,
              Ensures-result _ (writes_as_member auth) _ (writes_as_member-Ensures auth) written,
            )

-- A topic that ValidateTopicData accepts has a reference of one to forty of the allowed characters, and
-- an authorization that is given with it has at least the privilege of a member.
pub validate_topic_data-GoodTopic :
    (v : Env) (topic : Topic) (auth : Option Authorization) (current : Option Topic)
    → validate_topic_data v topic auth ≡ ok current
    → GoodTopic topic auth
validate_topic_data-GoodTopic v topic auth current h =
    Ensures-result _ (validate_topic_data v topic auth) current
      (validate_topic_data-Ensures v topic auth) h
