-- ===== src/Service/Process/Auth.antt =====
-- service.go, lines 338 to 459: the authorization that the event names, and whether it replaces the
-- agent's local one.
pub mod Claims
pub mod Facts
use go_m_layer.Prelude.{
  ℕ, Bool, true, false, not, ◌&&◌, ◌||◌, Option, none, some, List, [], ◌∷◌, ◌++◌, Str, str, str_eq,
  is_empty, ltb, leb, if◌then◌else◌, Error, record_not_found, text, Outcome, ok, fail, panic,
  is_not_found,
}
use go_m_layer.External.{External, Bytes}
use go_m_layer.Entities.Ids.{EntityModel, auth_model, EventPath}
use go_m_layer.Entities.Constants.{member_priviledge}
use go_m_layer.Entities.Records.{
  Authorization, State, authorization_state, ClientPayload, Event, zero_authorization,
}
use go_m_layer.Entities.Wire.{payload_hash}
use go_m_layer.Order.{int_of_uint64, is_more_recent_event}
use go_m_layer.DataStates.{
  DataStates, add_event, add_current_state, add_historic_state, Stored, by_pointer,
}
use go_m_layer.Service.Env.{Env, P2pResponse}
use go_m_layer.Service.Signature.{verify_auth_data_signature}
use go_m_layer.Service.Process.Phase.{
  Phase, next, stop, crash, ◌>>=◌, ◌>>◌, stop_if, call, read, change, Verdict, refuse,
}
use go_m_layer.Service.Process.Previous.{event_from_p2p, is_synced}

-- What the phase leaves: the collected states, the event of the authorization, the authorization that
-- the function returns, and whether the authorization is up to date.
pub record AuthResult : Type 0 where
  pub states : DataStates
  pub auth_event : Option Event
  pub event_auth_state : Authorization
  pub up_to_date : Bool

-- The authorization to check, with its event.
pub record Claimed : Type 0 where
  pub event : Event
  pub auth : Authorization
  -- what is to be returned, which is the zero value where the event came from a peer
  pub returned : Authorization

unfoldable pub needs_auth_event : Event → Bool → Authorization → Bool
needs_auth_event e required current =
    (required || not (is_empty e.auth_event.id))
    && (not (is_empty current.id) || not (str_eq current.event.id e.auth_event.id))

module _ (v : Env) where
  -- The loop keeps the last authorization that can be unpacked.
  unfoldable pub last_unpacked : Authorization → List Bytes → Outcome Authorization
  last_unpacked a [] = ok a
  last_unpacked a (b ∷ more) = elim (v.unpack_authorization b) [
    | ok new ↦ last_unpacked new more
    | fail e ↦ last_unpacked a more
    | panic ↦ panic
  ]

  with_last : Event → Outcome Authorization → Phase Claimed
  with_last auth_event (ok a) =
      next (record { event = auth_event; auth = a; returned = zero_authorization })
  with_last auth_event _ = crash

  unpacked_claim : DataStates → Bool → List Bytes → Outcome Event → Phase Claimed
  unfolding last_unpacked with_last
  unpacked_claim ds previous states (ok auth_event) =
      with_last auth_event (last_unpacked zero_authorization states)
  unpacked_claim ds previous states (fail err) = stop ds (refuse previous false true err)
  unpacked_claim ds previous states panic = crash

  claim_of_states : DataStates → Bool → Bytes → List Bytes → Phase Claimed
  unfolding unpacked_claim
  claim_of_states ds previous event [] =
      stop ds (refuse previous false true (text (str "authstate not found")))
  claim_of_states ds previous event (s ∷ more) =
      unpacked_claim ds previous (s ∷ more) (v.unpack_event event auth_model)

  fetched_claim : DataStates → Bool → Bool → Outcome (Event × P2pResponse) → Phase Claimed
  unfolding claim_of_states
  fetched_claim ds previous up_to_date (ok (e, payload)) =
      claim_of_states ds previous payload.event payload.states
  fetched_claim ds previous up_to_date (fail e) =
      stop ds (refuse previous up_to_date true (text (str "auth event not found")))
  fetched_claim ds previous up_to_date panic = crash

  -- Errors but a missing record are met by the read of the nil authorization.
  stored_auth : DataStates → Bool → Event → Outcome Authorization → Phase Claimed
  stored_auth ds previous auth_event (ok a) =
      next (record { event = auth_event; auth = a; returned = a })
  stored_auth ds previous auth_event (fail e) =
      if is_not_found (some e)
      then stop ds (refuse previous false true (text (str "event auth state not found")))
      else crash
  stored_auth ds previous auth_event panic = crash

  pub claim : DataStates → Event → Bool → Bool → Outcome Event → Phase Claimed
  unfolding fetched_claim stored_auth event_from_p2p
  claim ds e previous up_to_date (ok auth_event) =
      if is_synced auth_event
      then stored_auth ds previous auth_event (v.authorization_by_event e.auth_event)
      else stop ds (refuse previous false true (text (str "authEvent not synced")))
  claim ds e previous up_to_date (fail err) =
      if is_not_found (some err)
      then fetched_claim ds previous up_to_date (event_from_p2p v e.auth_event (some e.validator))
      else stop ds (refuse previous false true err)
  claim ds e previous up_to_date panic = crash

-- The test that lets an authorization replace the local one.
unfoldable pub replaces : Authorization → Authorization → Phase Bool
replaces current a = if is_empty current.id then next true else (do
  old ← read current.timestamp
  new ← read a.timestamp
  next (is_more_recent_event current.event.id (int_of_uint64 old) a.event.id (int_of_uint64 new)))

-- event.Payload.Timestamp > *timestamp || event.Timestamp > *timestamp
later_than : Event → Option ℕ → Phase Bool
later_than e none = crash
later_than e (some t) = next (ltb t e.payload.timestamp || ltb t e.timestamp)

module _ ⦃x : External⦄ (v : Env) where
  signed_claim : DataStates → Event → Claimed → Phase (Unit {0})
  signed_claim ds e c = do
    hash ←
        call ds (payload_hash c.event.payload)
          (λ err. refuse false false true (text (str "invalid event auth state")))
    call ds (verify_auth_data_signature v c.auth hash e.payload.chain_id)
        (λ err. refuse false false true (text (str "invalid auth signature")))

  -- The newer of the two authorizations becomes the current one, the other goes to the history.
  keep_claim : DataStates → Event → Authorization → Claimed → Phase DataStates
  unfolding replaces later_than
  keep_claim ds e current c = do
    newer ← replaces current c.auth
    if newer
        then (do
          with_state ←
              change ds (
                add_current_state auth_model c.auth.id (by_pointer (authorization_state c.auth)) ds)
          change with_state (add_event c.event with_state))
        else (do
          late ← later_than e current.timestamp
          stop_if late ds (refuse false false true (text (str "auth event lag")))
          with_event ← change ds (add_event c.event ds)
          next (
              add_historic_state auth_model c.auth.id (v.pack (authorization_state c.auth))
                with_event))

  check_claim : DataStates → Event → Authorization → Bool → Claimed → Phase AuthResult
  unfolding signed_claim keep_claim
  check_claim ds e current previous c = do
    stop_if (str_eq current.id c.auth.id) ds (record {
      previous_up_to_date = previous;
      auth_up_to_date = false;
      auth_state = none;
      is_recent = true;
      error = none;
    })
    stop_if (leb e.timestamp c.event.timestamp) ds
        (refuse false false true (text (str "invalid auth signature")))
    p ← read c.auth.priviledge
    stop_if (ltb p member_priviledge) ds
        (refuse false false true (text (str "invalid event auth state")))
    signed_claim ds e c
    kept ← keep_claim ds e current c
    next (record {
      states = kept;
      auth_event = some c.event;
      event_auth_state = c.returned;
      up_to_date = true;
    })

  checked_auth_event : DataStates → Event → Bool → Authorization → Bool → Phase AuthResult
  unfolding claim check_claim
  checked_auth_event ds e required current previous = do
    stop_if (is_empty e.auth_event.id) ds
        (refuse previous (not required) true (text (str "auth event not provided")))
    c ← claim v ds e previous (not required) (v.event_by_id e.auth_event.id e.auth_event.model)
    check_claim ds e current previous c

  unfoldable pub auth_event_of : DataStates → Event → Bool → Authorization → Bool → Phase AuthResult
  unfolding needs_auth_event checked_auth_event
  auth_event_of ds e required current previous =
      if needs_auth_event e required current
      then checked_auth_event ds e required current previous
      else next (record {
        states = ds;
        auth_event = none;
        event_auth_state = zero_authorization;
        up_to_date = not required;
      })
