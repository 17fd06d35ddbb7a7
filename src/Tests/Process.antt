-- ===== src/Tests/Process.antt =====
-- One event of another node, accepted.
use go_m_layer.Prelude.{
  ◌≡◌, refl, true, false, ◌⊎◌, Outcome, ok, not_found, lookup, insert, str_has_eq, str_eq, is_empty,
  decimal, hex_prefix, hex_valid, remove_char, remove_0x, split, trim_spaces, key_eq, equal_fold,
}
use go_m_layer.Encoding.{
  parse_uint, big_bytes, has_0x, encode_param, encode_bytes, to_base64_padded, add_base64_padding,
}
use go_m_layer.Entities.Did.{
  addr_of, address_from_string, build_address, device_string, to_did_string, did_to_string,
}
use go_m_layer.Entities.Ids.{model_text}
use go_m_layer.Entities.Records.{event_id, id_of_signature, uuid_to_bytes}
use go_m_layer.Entities.Wire.{
  print_int, chain_id_bytes, payload_bytes, payload_hash, event_params, event_bytes,
}
use go_m_layer.DataStates.{
  DataStates, new_data_states, event_at, add_event, add_current_state, is_zero_list,
  update_event_struct,
}
use go_m_layer.Service.Signature.{
  validate_event, verify_auth_data_signature, verify_signature_data, signature_message,
  public_key_bytes, address_to_hex,
}
use go_m_layer.Service.Process.Phase.{Verdict, accepts, refuse}
use go_m_layer.Service.Process.Checks.{
  is_local, out_of_time, last_authorization, agent_authorization, agent_signature, subnet_of_event,
  check_event,
}
use go_m_layer.Service.Process.Previous.{previous_event_of}
use go_m_layer.Service.Process.Auth.{needs_auth_event, replaces, auth_event_of}
use go_m_layer.Service.Process.Recency.{against_state, against_local_auth, check_recency}
use go_m_layer.Service.Process.Run.{process_event, process_remote}
use go_m_layer.Service.Process.Checks.Facts.{AgentSigned}
use go_m_layer.Service.Process.Auth.Facts.{Authorized}
use go_m_layer.Service.Process.Facts.{
  process_event-AgentSigned, process_event-Authorized, process_event-timely,
}
use go_m_layer.Tests.Data.{plain, a_node, an_event, no_local_state, with_event}

answer : Outcome (DataStates × Verdict) → DataStates × Verdict
answer (ok r) = r
answer _ = (new_data_states, refuse false false false not_found)

run : DataStates × Verdict
unfolding answer
run = answer (process_event a_node an_event no_local_state true with_event)

away : is_local a_node an_event ≡ false
unfolding is_local str_eq
away = refl

run_result : process_event a_node an_event no_local_state true with_event ≡ ok (run.0, run.1)
unfolding run answer process_event process_remote check_event is_local out_of_time validate_event
    event_bytes event_params payload_bytes chain_id_bytes print_int encode_bytes encode_param
    parse_uint big_bytes has_0x decimal hex_prefix hex_valid is_empty str_eq uuid_to_bytes
    remove_char remove_0x equal_fold address_to_hex public_key_bytes subnet_of_event agent_signature
    addr_of address_from_string build_address split trim_spaces add_event event_at lookup insert
    event_id id_of_signature agent_authorization last_authorization device_string to_did_string
    did_to_string previous_event_of auth_event_of needs_auth_event replaces payload_hash
    verify_auth_data_signature verify_signature_data signature_message to_base64_padded
    add_base64_padding add_current_state update_event_struct is_zero_list model_text key_eq
    check_recency against_state against_local_auth
run_result = refl

run_accepts : accepts run.1 ≡ true
unfolding run answer process_event process_remote check_event is_local out_of_time validate_event
    event_bytes event_params payload_bytes chain_id_bytes print_int encode_bytes encode_param
    parse_uint big_bytes has_0x decimal hex_prefix hex_valid is_empty str_eq uuid_to_bytes
    remove_char remove_0x equal_fold address_to_hex public_key_bytes subnet_of_event agent_signature
    addr_of address_from_string build_address split trim_spaces add_event event_at lookup insert
    event_id id_of_signature agent_authorization last_authorization device_string to_did_string
    did_to_string previous_event_of auth_event_of needs_auth_event replaces payload_hash
    verify_auth_data_signature verify_signature_data signature_message to_base64_padded
    add_base64_padding add_current_state update_event_struct is_zero_list model_text key_eq
    check_recency against_state against_local_auth accepts
run_accepts = refl

process_event-Authorized_example : Authorized a_node an_event
process_event-Authorized_example =
    process_event-Authorized a_node an_event no_local_state true with_event run.0 run.1 away refl
      run_result run_accepts

process_event-AgentSigned_example :
    (validate_event a_node an_event ≡ ok tt) × AgentSigned a_node an_event
process_event-AgentSigned_example =
    process_event-AgentSigned a_node an_event no_local_state true with_event run.0 run.1 away refl
      run_result run_accepts

process_event-timely_example : (an_event.payload.timestamp ≡ 0) ⊎ (out_of_time an_event ≡ false)
process_event-timely_example =
    process_event-timely a_node an_event no_local_state true with_event run.0 run.1 away refl
      run_result run_accepts
