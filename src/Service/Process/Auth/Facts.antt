-- ===== src/Service/Process/Auth/Facts.antt =====
-- The authorization that an accepted event rests on.
use go_m_layer.Prelude.{
  ◌≡◌, refl, ◌⊎◌, arith, ℕ, ◌<◌, ◌≤◌, ltb, leb, Bool, true, false, not, Option, none, some, str_eq,
  is_empty, str_has_eq, ok,
}
use go_m_layer.External.{External, Bytes}
use go_m_layer.Entities.Constants.{member_priviledge}
use go_m_layer.Entities.Ids.{auth_model}
use go_m_layer.Entities.Records.{Authorization, authorization_state, Event, zero_authorization}
use go_m_layer.Entities.Wire.{payload_hash}
use go_m_layer.DataStates.{DataStates, add_event, by_pointer}
use go_m_layer.DataStates.Keep.{
  Keeps, Keeps-trans, add_event-Keeps, add_current_state-Keeps, add_historic_state-Keeps,
}
use go_m_layer.Service.Env.{Env}
use go_m_layer.Service.Signature.{verify_auth_data_signature}
use go_m_layer.Service.Process.Logic.{
  Holds, Holds->>=, Holds-call, Holds-read, Holds-stop_if, Holds-change, Ends, Ends-refuse,
  Ends-outdated, Holds-call_last, Holds-if, Holds-next, Holds-crash,
}
use go_m_layer.Service.Process.Auth.{
  AuthResult, Claimed, needs_auth_event, claim, replaces, later_than, signed_claim, keep_claim,
  check_claim, checked_auth_event, auth_event_of,
}
use go_m_layer.Service.Process.Auth.Claims.{Stored, FromPeer, NamedClaim, claim-Ends}

module _ ⦃x : External⦄ where
  -- The authorization that an event names: signed, with the privilege of a member, by an earlier event.
  unfoldable pub Authorized : Env → Event → Type 0
  Authorized v e =
      (a : Authorization) × (auth_event : Event) × (Stored v e auth_event a
        ⊎ FromPeer v e auth_event a)
      × (hash : Bytes) × (payload_hash auth_event.payload ≡ ok hash)
      × (verify_auth_data_signature v a hash e.payload.chain_id ≡ ok tt)
      × (auth_event.timestamp < e.timestamp)
      × (p : ℕ) × (a.priviledge ≡ some p)
      × (member_priviledge ≤ p)

  unfoldable pub GoodResult : Env → Event → Bool → DataStates → AuthResult → Type 0
  GoodResult v e required start r =
      Keeps start r.states × (r.up_to_date ≡ true → required ≡ true → Authorized v e)

module _ ⦃x : External⦄ (v : Env) (start ds : DataStates) (e : Event) (h : Keeps start ds) where
  replaces-Holds : (a b : Authorization) → Holds (λ _. Unit {0}) (Ends start) (replaces a b)
  unfolding replaces
  replaces-Holds a b =
      Holds-if (Ends start) (λ _. Unit {0}) (is_empty a.id) _ _
        (λ _. Holds-next (Ends start) _ true tt)
        λ _.
          Holds-read (Ends start) _ a.timestamp _
            λ old _. Holds-read (Ends start) _ b.timestamp _ λ new _. Holds-next (Ends start) _ _ tt

  later_than-Holds : (t : Option ℕ) → Holds (λ _. Unit {0}) (Ends start) (later_than e t)
  unfolding later_than
  later_than-Holds none = Holds-crash (Ends start) _
  later_than-Holds (some t) = Holds-next (Ends start) _ _ tt

  keep_claim-Keeps :
      (current : Authorization) (c : Claimed)
      → Holds (Keeps start) (Ends start) (keep_claim v ds e current c)
  unfolding keep_claim
  keep_claim-Keeps current c =
      Holds->>= (Ends start) (λ _. Unit {0}) (Keeps start) (replaces current c.auth) _
        (replaces-Holds current c.auth)
        λ newer _.
          Holds-if (Ends start) (Keeps start) newer _ _
            (λ _.
              Holds->>= (Ends start) (Keeps start) (Keeps start) _ _
                (Holds-change (Ends start) (Keeps start) ds _ h λ new q.
                  Keeps-trans start ds new h (
                    add_current_state-Keeps auth_model c.auth.id
                      (by_pointer (authorization_state c.auth)) ds new q))
                λ with_state k. Holds-change (Ends start) (Keeps start) with_state _ k λ new q.
                  Keeps-trans start with_state new k (add_event-Keeps c.event with_state new q))
            λ _.
              Holds->>= (Ends start) (λ _. Unit {0}) (Keeps start) (later_than e current.timestamp)
                _ (later_than-Holds current.timestamp)
                λ late _.
                  Holds-stop_if (Ends start) (Keeps start) late ds _ _
                    (Ends-refuse start ds _ _ _ _ h)
                    λ _.
                      Holds->>= (Ends start) (Keeps start) (Keeps start) _ _
                        (Holds-change (Ends start) (Keeps start) ds (add_event c.event ds) h
                          λ new q. Keeps-trans start ds new h (add_event-Keeps c.event ds new q))
                        λ with_event k. Holds-next (Ends start) (Keeps start) _ (
                          Keeps-trans start with_event _ k
                            (add_historic_state-Keeps auth_model c.auth.id _ with_event))

  SignedClaim : Claimed → Type 0
  SignedClaim c =
      (hash : Bytes) × (payload_hash c.event.payload ≡ ok hash)
      × (verify_auth_data_signature v c.auth hash e.payload.chain_id ≡ ok tt)

  signed_claim-Holds :
      (c : Claimed) → Holds (λ _. SignedClaim c) (Ends start) (signed_claim v ds e c)
  unfolding signed_claim SignedClaim
  signed_claim-Holds c =
      Holds-call (Ends start) _ ds (payload_hash c.event.payload) _ _
        (λ err. Ends-refuse start ds _ _ _ _ h)
        λ hash q.
          Holds-call_last (Ends start) _ ds
            (verify_auth_data_signature v c.auth hash e.payload.chain_id) _
            (λ err. Ends-refuse start ds _ _ _ _ h) λ _ signed. (hash, q, signed)

  authorized-GoodResult :
      (c : Claimed) (required previous : Bool) (kept : DataStates) (p : ℕ)
      → Keeps start kept
      → NamedClaim v start ds previous h e c
      → SignedClaim c
      → c.auth.priviledge ≡ some p
      → member_priviledge ≤ p
      → c.event.timestamp < e.timestamp
      → GoodResult v e required start (record {
        states = kept;
        auth_event = some c.event;
        event_auth_state = c.returned;
        up_to_date = true;
      })
  unfolding GoodResult Authorized SignedClaim NamedClaim
  authorized-GoodResult c required previous kept p k named (hash, q, signed) has enough earlier =
      (k, λ _ _. (c.auth, c.event, named, hash, q, signed, earlier, p, has, enough))

  check_claim-Holds :
      (required : Bool) (current : Authorization) (previous : Bool) (c : Claimed)
      → NamedClaim v start ds previous h e c
      → Holds (GoodResult v e required start) (Ends start) (check_claim v ds e current previous c)
  unfolding check_claim
  check_claim-Holds required current previous c named =
      Holds-stop_if (Ends start) _ (str_eq current.id c.auth.id) ds _ _
        (Ends-outdated start ds previous true h)
        λ _.
          Holds-stop_if (Ends start) _ (leb e.timestamp c.event.timestamp) ds _ _
            (Ends-refuse start ds _ _ _ _ h)
            λ earlier. Holds-read (Ends start) _ c.auth.priviledge _ λ p has.
              Holds-stop_if (Ends start) _ (ltb p member_priviledge) ds _ _
                (Ends-refuse start ds _ _ _ _ h)
                λ enough.
                  Holds->>= (Ends start) (λ _. SignedClaim c) _ (signed_claim v ds e c) _
                    (signed_claim-Holds c)
                    λ _ signed.
                      Holds->>= (Ends start) (Keeps start) _ (keep_claim v ds e current c) _
                        (keep_claim-Keeps current c)
                        λ kept k. Holds-next (Ends start) _ _ (
                          authorized-GoodResult c required previous kept p k named signed has
                            (ground arith) (ground arith))

  skipped-GoodResult :
      (required : Bool)
      → GoodResult v e required start (record {
        states = ds;
        auth_event = none;
        event_auth_state = zero_authorization;
        up_to_date = not required;
      })
  unfolding GoodResult
  skipped-GoodResult true = (h, λ q r. cc)
  skipped-GoodResult false = (h, λ q r. cc)

  pub auth_event_of-Holds :
      (required : Bool) (current : Authorization) (previous : Bool)
      → Holds
          (GoodResult v e required start)
          (Ends start)
          (auth_event_of v ds e required current previous)
  unfolding auth_event_of checked_auth_event
  auth_event_of-Holds required current previous =
      Holds-if (Ends start) _ (needs_auth_event e required current) _ _
        (λ _.
          Holds-stop_if (Ends start) _ (is_empty e.auth_event.id) ds _ _
            (Ends-refuse start ds _ _ _ _ h)
            λ _.
              Holds->>= (Ends start) (NamedClaim v start ds previous h e) _
                (claim v ds e previous (not required)
                  (v.event_by_id e.auth_event.id e.auth_event.model))
                _ (claim-Ends v start ds previous h e (not required) _ refl)
                λ c named. check_claim-Holds required current previous c named)
        λ _. Holds-next (Ends start) _ _ (skipped-GoodResult required)
