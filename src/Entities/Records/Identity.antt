-- ===== src/Entities/Records/Identity.antt =====
-- GetModel, GetId and GetPath of entities/: what states and events are named by.
use go_m_layer.Prelude.{
  zero, suc, not, Option, none, some, [], Str, str, is_empty, remove_char, hex_prefix, hex_valid,
  remove_0x, take, length, ltb, if◌then◌else◌, Outcome, ok, fail, panic, text, ◌>>=◌, hex_string,
}
use go_m_layer.External.{External, Bytes}
use go_m_layer.Entities.Ids.{
  ℤ, pos, negsuc, EntityModel, auth_model, topic_model, subscription_model, message_model,
  subnet_model, EventPath, new_event_path,
}
use go_m_layer.Entities.Records.Structs.{
  SignatureData, State, Event, tendermint, ethereum, other_key, subnet_state, authorization_state,
  topic_state, subscription_state, message_state,
}

-- GetModel: a nil value has no `Interface()`, which panics.
unfoldable pub get_model : Option State → Outcome EntityModel
get_model none = panic
get_model (some (subnet_state s)) = ok subnet_model
get_model (some (authorization_state a)) = ok auth_model
get_model (some (topic_state t)) = ok topic_model
get_model (some (subscription_state s)) = ok subscription_model
get_model (some (message_state m)) = ok message_model

-- utils.UuidToBytes drops the dashes and the error of the decoding.
unfoldable pub uuid_to_bytes : Str → Bytes
unfolding remove_char hex_prefix
uuid_to_bytes uuid = hex_prefix (remove_char 45 uuid)

index_of_path : ℤ → EventPath → EventPath
index_of_path (pos zero) p = p
index_of_path (pos (suc n)) p = record p { index = pos (suc n) }
index_of_path (negsuc n) p = p

module _ ⦃x : External⦄ where
  -- hex.DecodeString and uuid.FromBytes of the first 32 characters. The slice panics on fewer.
  unfoldable pub id_of_signature : Str → Outcome Str
  id_of_signature sig =
      if ltb (length sig) 32
      then panic
      else if hex_valid (take 32 sig)
      then x.uuid_from_bytes (hex_prefix (take 32 sig))
      else fail (text (str "encoding/hex: invalid byte"))

  -- GetId of entities/client_payload.go: an id that is given stays.
  unfoldable pub get_id : Str → Str → Outcome Str
  unfolding is_empty remove_0x id_of_signature
  get_id signature id =
      if not (is_empty id)
      then ok id
      else if is_empty signature
      then fail (text (str "payload has no signature"))
      else id_of_signature (remove_0x signature)

  -- Event.GetId
  unfoldable pub event_id : Event → Outcome Str
  unfolding is_empty id_of_signature
  event_id e =
      if is_empty e.signature
      then fail (text (str "signature is required"))
      else id_of_signature e.signature

  -- Event.GetPath: nil where the event has no id.
  unfoldable pub event_path : Event → Outcome (Option EventPath)
  unfolding event_id get_model index_of_path
  event_path e = elim (event_id e) [
    | ok i ↦
        (get_model e.payload.content >>= λ model.
        ok (some (index_of_path e.index (new_event_path e.validator model i))))
    | fail _ ↦ ok none
    | panic ↦ panic
  ]

  -- Subnet.GetSignature: what a subnet is named by is the signature of its own data.
  unfoldable pub subnet_signature : SignatureData → Outcome Str
  subnet_signature d = elim d.ty [
    | tendermint ↦ (elim (x.base64_decode d.signature) [
      | ok b ↦ ok (hex_string b)
      | fail err ↦ ok (hex_string (x.base64_partial d.signature))
      | panic ↦ panic
    ])
    | ethereum ↦ ok (remove_0x d.signature)
    | other_key s ↦ ok []
  ]
