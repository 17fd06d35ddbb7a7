-- ===== src/Service/Validate/Topic.antt =====
-- ValidateTopicData of internal/service/topic.go
pub mod Facts
use go_m_layer.Prelude.{
  ℕ, Bool, true, false, not, ◌&&◌, ◌||◌, Option, none, some, List, [], ◌∷◌, Str, str, is_empty,
  length, ltb, leb, if◌then◌else◌, ◌==◌, Error, record_not_found, Outcome, ok, fail, panic,
  bad_request, forbidden, ◌>>=◌, ◌>>◌, reject_if, deref,
}
use go_m_layer.Entities.Constants.{member_priviledge}
use go_m_layer.Entities.Records.{Authorization, Topic}
use go_m_layer.Service.Env.{Env}

-- ^[a-zA-Z0-9_.]+$; the `$` of Go's regexp is the end of the text.
alpha_numeric_dot : ℕ → Bool
alpha_numeric_dot c =
    (leb 97 c && leb c 122)
    || (leb 65 c && leb c 90)
    || (leb 48 c && leb c 57)
    || c == 95
    || c == 46

all_alpha_numeric_dot : Str → Bool
all_alpha_numeric_dot [] = true
all_alpha_numeric_dot (c ∷ rest) = alpha_numeric_dot c && all_alpha_numeric_dot rest

-- utils.IsAlphaNumericDot
unfoldable pub is_alpha_numeric_dot : Str → Bool
unfolding alpha_numeric_dot all_alpha_numeric_dot
is_alpha_numeric_dot s = not (is_empty s) && all_alpha_numeric_dot s

-- What the query found. Its errors are dropped, but GORM's.
local_topic : Outcome Topic → Outcome (Option Topic)
local_topic (ok t) = ok (some t)
local_topic (fail record_not_found) = fail (forbidden (str "Invalid subnet id"))
local_topic (fail e) = ok none
local_topic panic = panic

-- Where there is an authorization, it must carry the privilege of a member.
writes_as_member : Option Authorization → Outcome (Unit {0})
writes_as_member none = ok tt
writes_as_member (some a) = do
  p ← deref a.priviledge
  reject_if (ltb p member_priviledge)
      (forbidden (str "Agent does not have enough permission to create topics"))

module _ (v : Env) where
  unfoldable pub validate_topic_data : Topic → Option Authorization → Outcome (Option Topic)
  unfolding local_topic writes_as_member is_alpha_numeric_dot
  validate_topic_data topic auth = do
    current ← if not (is_empty topic.id) then local_topic (v.topic_by_id topic.id) else ok none
    writes_as_member auth
    reject_if (ltb 40 (length topic.ref))
        (bad_request (str "Topic reference can not be more than 40 characters"))
    reject_if (not (is_alpha_numeric_dot topic.ref))
        (bad_request (str "Reference must be alphanumeric, _ and . but cannot start with a number"))
    ok current
