-- ===== src/Entities/Ids.antt =====
-- entities/event.go, the models and the paths; the model that an event type belongs to.
use go_m_layer.Prelude.{
  ℕ, List, [], ◌∷◌, ◌++◌, Str, str, str_eq, is_empty, split, if◌then◌else◌, ltb,
}

-- int64
pub data ℤ : Type 0 where
  pos : ℕ → ℤ
  negsuc : ℕ → ℤ

-- EntityModel is a string type: the six texts that the switches name, and any other text.
pub data EntityModel : Type 0 where
  auth_model topic_model subscription_model message_model subnet_model wallet_model : EntityModel
  other_model : Str → EntityModel

abbrev pub no_model : EntityModel
no_model = other_model []

unfoldable pub model_text : EntityModel → Str
model_text auth_model = str "auth"
model_text topic_model = str "top"
model_text subscription_model = str "sub"
model_text message_model = str "msg"
model_text subnet_model = str "snet"
model_text wallet_model = str "wal"
model_text (other_model s) = s

-- EntityModel(s), a conversion from a string
unfoldable pub model_of_text : Str → EntityModel
model_of_text s =
    if str_eq s (str "auth")
    then auth_model
    else if str_eq s (str "top")
    then topic_model
    else if str_eq s (str "sub")
    then subscription_model
    else if str_eq s (str "msg")
    then message_model
    else if str_eq s (str "snet")
    then subnet_model
    else if str_eq s (str "wal")
    then wallet_model
    else other_model s

-- EntityPath; an EventPath embeds one and adds nothing.
pub record EventPath : Type 0 where
  pub model : EntityModel
  pub id : Str
  pub validator : Str
  pub index : ℤ

abbrev pub empty_path : EventPath
empty_path = record { model = no_model; id = []; validator = []; index = pos 0 }

abbrev pub new_event_path : Str → EntityModel → Str → EventPath
new_event_path v m i = record { model = m; id = i; validator = v; index = pos 0 }

unfoldable pub path_to_string : EventPath → Str
unfolding is_empty model_text
path_to_string e =
    if is_empty e.id
    then []
    else e.validator ++ (str "/" ++ (model_text e.model ++ (str "/" ++ e.id)))

path_of_parts : List Str → EventPath
path_of_parts [] = empty_path
path_of_parts (i ∷ []) = record empty_path { id = i }
path_of_parts (v ∷ i ∷ []) = record empty_path { id = i; validator = v }
path_of_parts (v ∷ m ∷ i ∷ more) = new_event_path v (model_of_text m) i

unfoldable pub path_from_string : Str → EventPath
unfolding path_of_parts model_of_text split
path_from_string path = path_of_parts (split 47 path)

-- GetModelTypeFromEventType
unfoldable pub model_of_event_type : ℕ → EntityModel
model_of_event_type t =
    if ltb t 600
    then subnet_model
    else if ltb t 700
    then auth_model
    else if ltb t 1100
    then topic_model
    else if ltb t 1200
    then subscription_model
    else if ltb t 1300
    then message_model
    else if ltb t 1500
    then wallet_model
    else no_model
