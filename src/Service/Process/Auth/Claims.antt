-- ===== src/Service/Process/Auth/Claims.antt =====
-- Where the authorization event of an event and its authorization come from.
use go_m_layer.Prelude.{
  ◌≡◌, refl, ◌⊎◌, inl, inr, Error, Bool, true, some, List, [], ◌∷◌, str_has_eq, Outcome, ok, fail,
  panic, is_not_found,
}
use go_m_layer.External.{Bytes}
use go_m_layer.Entities.Ids.{auth_model}
use go_m_layer.Entities.Records.{Authorization, Event, zero_authorization}
use go_m_layer.DataStates.{DataStates}
use go_m_layer.DataStates.Keep.{Keeps}
use go_m_layer.Service.Env.{Env, P2pResponse}
use go_m_layer.Service.Process.Logic.{
  Holds, Holds-weaken, Ends, Ends-refuse, Holds-if, Holds-next, Holds-stop, Holds-crash,
}
use go_m_layer.Service.Process.Previous.{event_from_p2p, is_synced}
use go_m_layer.Service.Process.Auth.{
  Claimed, last_unpacked, with_last, unpacked_claim, claim_of_states, fetched_claim, stored_auth,
  claim,
}

-- The event and the authorization that an event names as its authorization event.
unfoldable pub Stored : Env → Event → Event → Authorization → Type 0
Stored v e auth_event a =
    (v.event_by_id e.auth_event.id e.auth_event.model ≡ ok auth_event)
    × (is_synced auth_event ≡ true)
    × (v.authorization_by_event e.auth_event ≡ ok a)

Unpacked : Env → Bytes → List Bytes → Event → Authorization → Type 0
Unpacked v event states auth_event a =
    (v.unpack_event event auth_model ≡ ok auth_event)
    × (last_unpacked v zero_authorization states ≡ ok a)

unfoldable pub FromPeer : Env → Event → Event → Authorization → Type 0
unfolding Unpacked
FromPeer v e auth_event a =
    (missing : Error) × (v.event_by_id e.auth_event.id e.auth_event.model ≡ fail missing)
    × (is_not_found (some missing) ≡ true)
    × (answer : Event × P2pResponse) × (event_from_p2p v e.auth_event (some e.validator)
        ≡ ok answer)
    × Unpacked v answer.1.event answer.1.states auth_event a

module _ (v : Env) (start ds : DataStates) (previous : Bool) (h : Keeps start ds) where
  UnpackedClaim : Bytes → List Bytes → Claimed → Type 0
  unfolding Unpacked
  UnpackedClaim event states c = Unpacked v event states c.event c.auth

  with_last-Holds :
      (event : Bytes) (states : List Bytes) (auth_event : Event) (o : Outcome Authorization)
      → v.unpack_event event auth_model ≡ ok auth_event
      → last_unpacked v zero_authorization states ≡ o
      → Holds (UnpackedClaim event states) (Ends start) (with_last v auth_event o)
  unfolding with_last UnpackedClaim
  with_last-Holds event states auth_event (ok a) named last =
      Holds-next (Ends start) (UnpackedClaim event states) _ (named, last)
  with_last-Holds event states auth_event (fail err) named last =
      Holds-crash (Ends start) (UnpackedClaim event states)
  with_last-Holds event states auth_event panic named last =
      Holds-crash (Ends start) (UnpackedClaim event states)

  unpacked_claim-Ends :
      (event : Bytes) (states : List Bytes) (o : Outcome Event)
      → v.unpack_event event auth_model ≡ o
      → Holds (UnpackedClaim event states) (Ends start) (unpacked_claim v ds previous states o)
  unfolding unpacked_claim
  unpacked_claim-Ends event states (ok auth_event) named =
      with_last-Holds event states auth_event (last_unpacked v zero_authorization states) named refl
  unpacked_claim-Ends event states (fail err) named =
      Holds-stop (Ends start) (UnpackedClaim event states) ds _ (Ends-refuse start ds _ _ _ _ h)
  unpacked_claim-Ends event states panic named =
      Holds-crash (Ends start) (UnpackedClaim event states)

  claim_of_states-Ends :
      (event : Bytes) (l : List Bytes)
      → Holds (UnpackedClaim event l) (Ends start) (claim_of_states v ds previous event l)
  unfolding claim_of_states
  claim_of_states-Ends event [] =
      Holds-stop (Ends start) (UnpackedClaim event []) ds _ (Ends-refuse start ds _ _ _ _ h)
  claim_of_states-Ends event (s ∷ more) =
      unpacked_claim-Ends event (s ∷ more) (v.unpack_event event auth_model) refl

module _ (v : Env) (start ds : DataStates) (previous : Bool) (h : Keeps start ds) (e : Event) where
  unfoldable pub NamedClaim : Claimed → Type 0
  NamedClaim c = Stored v e c.event c.auth ⊎ FromPeer v e c.event c.auth

  fetched_claim-Ends :
      (missing : Error) (up_to_date : Bool) (o : Outcome (Event × P2pResponse))
      → v.event_by_id e.auth_event.id e.auth_event.model ≡ fail missing
      → is_not_found (some missing) ≡ true
      → event_from_p2p v e.auth_event (some e.validator) ≡ o
      → Holds NamedClaim (Ends start) (fetched_claim v ds previous up_to_date o)
  unfolding fetched_claim NamedClaim FromPeer UnpackedClaim
  fetched_claim-Ends missing up_to_date (ok answer) absent not_here given =
      Holds-weaken (Ends start) (UnpackedClaim v start ds previous h answer.1.event answer.1.states)
        NamedClaim _ (claim_of_states-Ends v start ds previous h answer.1.event answer.1.states)
        λ c unpacked. inr (missing, absent, not_here, answer, given, unpacked)
  fetched_claim-Ends missing up_to_date (fail err) absent not_here given =
      Holds-stop (Ends start) NamedClaim ds _ (Ends-refuse start ds _ _ _ _ h)
  fetched_claim-Ends missing up_to_date panic absent not_here given =
      Holds-crash (Ends start) NamedClaim

  stored_auth-Ends :
      (auth_event : Event) (o : Outcome Authorization)
      → v.event_by_id e.auth_event.id e.auth_event.model ≡ ok auth_event
      → is_synced auth_event ≡ true
      → v.authorization_by_event e.auth_event ≡ o
      → Holds NamedClaim (Ends start) (stored_auth v ds previous auth_event o)
  unfolding stored_auth NamedClaim Stored
  stored_auth-Ends auth_event (ok a) here synced stored =
      Holds-next (Ends start) NamedClaim _ (inl (here, synced, stored))
  stored_auth-Ends auth_event (fail err) here synced stored =
      Holds-if (Ends start) NamedClaim (is_not_found (some err)) _ _
        (λ _. Holds-stop (Ends start) NamedClaim ds _ (Ends-refuse start ds _ _ _ _ h))
        λ _. Holds-crash (Ends start) NamedClaim
  stored_auth-Ends auth_event panic here synced stored = Holds-crash (Ends start) NamedClaim

  pub claim-Ends :
      (up_to_date : Bool) (o : Outcome Event)
      → v.event_by_id e.auth_event.id e.auth_event.model ≡ o
      → Holds NamedClaim (Ends start) (claim v ds e previous up_to_date o)
  unfolding claim
  claim-Ends up_to_date (ok auth_event) here =
      Holds-if (Ends start) NamedClaim (is_synced auth_event) _ _
        (λ synced.
          stored_auth-Ends auth_event (v.authorization_by_event e.auth_event) here synced refl)
        λ _. Holds-stop (Ends start) NamedClaim ds _ (Ends-refuse start ds _ _ _ _ h)
  claim-Ends up_to_date (fail err) here =
      Holds-if (Ends start) NamedClaim (is_not_found (some err)) _ _
        (λ missing.
          fetched_claim-Ends err up_to_date (event_from_p2p v e.auth_event (some e.validator)) here
            missing refl)
        λ _. Holds-stop (Ends start) NamedClaim ds _ (Ends-refuse start ds _ _ _ _ h)
  claim-Ends up_to_date panic here = Holds-crash (Ends start) NamedClaim
