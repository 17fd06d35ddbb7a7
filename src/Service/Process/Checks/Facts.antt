-- ===== src/Service/Process/Checks/Facts.antt =====
-- What the checks before an event is kept establish.
use go_m_layer.Prelude.{
  ◌≡◌, refl, ap, arith, ◌<◌, ltb, length, Bool, true, false, not, ◌&&◌, ◌||◌, some, List, [], ◌∷◌,
  Str, str_eq, str_eq_iff, is_empty, if◌then◌else◌, record_not_found, Outcome, ok, fail, panic,
  is_not_found, not-false,
}
use go_m_layer.External.{External, Bytes}
use go_m_layer.Entities.Ids.{subnet_model, new_event_path}
use go_m_layer.Entities.Did.{addr_of}
use go_m_layer.Entities.Records.{
  Authorization, Subnet, State, subnet_state, Event, zero_authorization,
}
use go_m_layer.Entities.Wire.{payload_bytes}
use go_m_layer.DataStates.{DataStates, add_event, by_pointer}
use go_m_layer.DataStates.Keep.{
  Keeps, Keeps-refl, Keeps-trans, add_event-Keeps, add_current_state-Keeps,
}
use go_m_layer.Service.Env.{Env, P2pResponse}
use go_m_layer.Service.Signature.{validate_event}
use go_m_layer.Service.Process.Phase.{next, PayloadData}
use go_m_layer.Service.Process.Logic.{
  Holds, Holds->>=, Holds-weaken, Holds-call, Holds-stop_if, Holds-change, Ends, Ends-refuse,
  Ends-outdated, Holds-if, Holds-next, Holds-stop, Holds-crash, Holds-stop_if_last,
}
use go_m_layer.Service.Process.Checks.{
  check_event, payload_of_event, subnet_of_event, known_subnet, fetch_subnet, keep_states,
  agent_signature, signer_matches, keep_state, found_authorizations, last_authorization,
  below_member, agent_authorization, out_of_time,
}

module _ (v : Env) where
  keep_state-Keeps :
      (start ds : DataStates) (p : Subnet) (o : Outcome Subnet)
      → Keeps start ds
      → Holds (Keeps start) (Ends start) (keep_state v ds p o)
  unfolding keep_state
  keep_state-Keeps start ds p (ok good) h = Holds-next (Ends start) (Keeps start) ds h
  keep_state-Keeps start ds p (fail e) h = Holds-change (Ends start) (Keeps start) ds _ h λ new q.
      Keeps-trans start ds new h
        (add_current_state-Keeps subnet_model p.id (by_pointer (subnet_state p)) ds new q)
  keep_state-Keeps start ds p panic h = Holds-crash (Ends start) (Keeps start)

  keep_states-Keeps :
      (start ds : DataStates) (l : List Bytes)
      → Keeps start ds
      → Holds (Keeps start) (Ends start) (keep_states v ds l)
  unfolding keep_states
  keep_states-Keeps start ds [] h = Holds-next (Ends start) (Keeps start) ds h
  keep_states-Keeps start ds (s ∷ more) h =
      Holds->>= (Ends start) (Keeps start) (Keeps start) _ _
        (keep_state-Keeps start ds (v.partial_subnet s) (v.unpack_subnet s) h)
        λ new k. keep_states-Keeps start new more k

module _ ⦃x : External⦄ (v : Env) where
  fetch_subnet-Keeps :
      (ds : DataStates) (e : Event) (id : Str) → Holds (Keeps ds) (Ends ds) (fetch_subnet v ds e id)
  unfolding fetch_subnet
  fetch_subnet-Keeps ds e id =
      Holds-call (Ends ds) (Keeps ds) ds
        (v.p2p_state (new_event_path e.validator subnet_model id) (some e.validator)) _ _
        (λ err. Ends-refuse ds ds _ _ _ _ (Keeps-refl ds))
        λ (r : P2pResponse × State) _.
          Holds-stop_if (Ends ds) (Keeps ds) (ltb (length r.0.event) 2) ds _ _
            (Ends-refuse ds ds _ _ _ _ (Keeps-refl ds))
            λ _.
              Holds-call (Ends ds) (Keeps ds) ds (v.unpack_event r.0.event subnet_model) _ _
                (λ err. Ends-refuse ds ds _ _ _ _ (Keeps-refl ds))
                λ subnet_event _.
                  Holds->>= (Ends ds) (Keeps ds) (Keeps ds) _ _
                    (Holds-change (Ends ds) (Keeps ds) ds (add_event subnet_event ds)
                      (Keeps-refl ds) (add_event-Keeps subnet_event ds))
                    λ new k. keep_states-Keeps v ds new r.0.states k

  known_subnet-Keeps :
      (ds : DataStates) (e : Event) (id : Str) (o : Outcome Subnet)
      → Holds (Keeps ds) (Ends ds) (known_subnet v ds e id o)
  unfolding known_subnet
  known_subnet-Keeps ds e id (ok s) = Holds-next (Ends ds) (Keeps ds) ds (Keeps-refl ds)
  known_subnet-Keeps ds e id (fail record_not_found) = fetch_subnet-Keeps ds e id
  known_subnet-Keeps ds e id (fail err) =
      Holds-if (Ends ds) (Keeps ds) _ _ _ (λ _. fetch_subnet-Keeps ds e id)
        λ _. Holds-stop (Ends ds) (Keeps ds) ds _ (Ends-outdated ds ds false false (Keeps-refl ds))
  known_subnet-Keeps ds e id panic = Holds-crash (Ends ds) (Keeps ds)

  subnet_of_event-Keeps :
      (ds : DataStates) (e : Event) (id : Str)
      → Holds (Keeps ds) (Ends ds) (subnet_of_event v ds e id)
  unfolding subnet_of_event
  subnet_of_event-Keeps ds e id =
      Holds-if (Ends ds) (Keeps ds) _ _ _ (λ _. Holds-next (Ends ds) (Keeps ds) ds (Keeps-refl ds))
        λ _. known_subnet-Keeps ds e id (v.subnet_by_id id)

  payload_of_event-Holds :
      (ds : DataStates) (o : Outcome Bytes)
      → Holds (λ d. o ≡ ok d) (Ends ds) (payload_of_event v ds o)
  unfolding payload_of_event Holds
  payload_of_event-Holds ds (ok []) = Ends-refuse ds ds _ _ _ _ (Keeps-refl ds)
  payload_of_event-Holds ds (ok (b ∷ rest)) = refl
  payload_of_event-Holds ds (fail e) = Ends-refuse ds ds _ _ _ _ (Keeps-refl ds)
  payload_of_event-Holds ds panic = tt

found_authorizations-Ends :
    (v : Env) (start ds : DataStates) (o : Outcome (List Authorization))
    → Keeps start ds
    → Holds (λ _. Unit {0}) (Ends start) (found_authorizations v ds o)
unfolding found_authorizations
found_authorizations-Ends v start ds (ok found) h = Holds-next (Ends start) _ found tt
found_authorizations-Ends v start ds (fail err) h =
    Holds-if (Ends start) _ (is_not_found (some err)) _ _ (λ _. Holds-next (Ends start) _ [] tt)
      λ _. Holds-stop (Ends start) _ ds _ (Ends-refuse start ds _ _ _ _ h)
found_authorizations-Ends v start ds panic h = Holds-crash (Ends start) _

module _ (v : Env) where
  -- The signer of the payload is the agent, where the signature is required.
  signer_matches-Holds :
      (start ds : DataStates) (agent : Str) (o : Outcome Str)
      → Keeps start ds
      → Holds (λ _. o ≡ ok agent) (Ends start) (signer_matches v ds agent o)
  unfolding signer_matches
  signer_matches-Holds start ds agent (ok signer) h =
      Holds-stop_if_last (Ends start) _ (not (str_eq signer agent)) ds _
        (Ends-refuse start ds _ _ _ _ h)
        λ q. ap (λ a. ok a) ((str_eq_iff signer agent).0 (not-false (str_eq signer agent) q))
  signer_matches-Holds start ds agent (fail e) h =
      Holds-stop (Ends start) _ ds _ (Ends-refuse start ds _ _ _ _ h)
  signer_matches-Holds start ds agent panic h = Holds-crash (Ends start) _

  agent_signature-Holds :
      (start ds : DataStates) (e : Event) (d : Bytes) (required : Bool)
      → Keeps start ds
      → Holds
          (λ _. required ≡ true → v.signer_ecc d e.payload.signature ≡ ok (addr_of e.payload.agent))
          (Ends start)
          (agent_signature v ds e d required)
  unfolding agent_signature
  agent_signature-Holds start ds e d required h =
      Holds-if (Ends start) _ (required || not (is_empty (addr_of e.payload.agent))) _ _
        (λ _.
          Holds-weaken (Ends start) _ _ _
            (signer_matches-Holds start ds (addr_of e.payload.agent)
              (v.signer_ecc d e.payload.signature) h)
            λ _ signed _. signed)
        λ q. Holds-next (Ends start) _ tt λ r. ground (arith, q, r)

module _ ⦃x : External⦄ where
  -- The agent that the payload names signed the payload's bytes.
  unfoldable pub AgentSigned : Env → Event → Type 0
  AgentSigned v e =
      (d : Bytes) × (payload_bytes e.payload ≡ ok d)
      × (v.signer_ecc d e.payload.signature ≡ ok (addr_of e.payload.agent))

  -- What is known of an event once it is kept: its validator signed it and, where an agent is required,
  -- the agent signed the payload at a time near that of the event.
  unfoldable pub Checked : Env → Event → Bool → Type 0
  Checked v e required =
      (validate_event v e ≡ ok tt)
      × (required ≡ true → AgentSigned v e)
      × (required ≡ true → 0 < e.payload.timestamp → out_of_time e ≡ false)

  pub check_event-Holds :
      (v : Env) (ds : DataStates) (e : Event) (data_ : PayloadData) (required : Bool)
      → Holds
          (λ new. Keeps ds new × Checked v e required)
          (Ends ds)
          (check_event v ds e data_ required)
  unfolding check_event
  check_event-Holds v ds e data_ required =
      Holds-stop_if (Ends ds) _ (required && ltb 0 e.payload.timestamp && out_of_time e) ds _ _
        (Ends-refuse ds ds _ _ _ _ (Keeps-refl ds))
        λ timely.
          Holds-call (Ends ds) _ ds (validate_event v e) _ _
            (λ err. Ends-refuse ds ds _ _ _ _ (Keeps-refl ds))
            λ _ valid.
              Holds->>= (Ends ds) (λ d. payload_bytes e.payload ≡ ok d) _ _ _
                (payload_of_event-Holds v ds (payload_bytes e.payload))
                λ d bytes.
                  Holds->>= (Ends ds) (Keeps ds) _ _ _ (subnet_of_event-Keeps v ds e data_.subnet)
                    λ with_subnet k.
                      Holds->>= (Ends ds) _ _ _ _
                        (agent_signature-Holds v ds with_subnet e d required k)
                        λ _ signed.
                          let known : Checked v e required =
                            unfold Checked AgentSigned in
                            (valid, λ r. (d, bytes, signed r), λ r p. ground arith) in
                          Holds-change (Ends ds) (λ new. Keeps ds new × Checked v e required)
                            with_subnet (add_event e with_subnet) (k, known)
                            λ new q. (
                              Keeps-trans ds with_subnet new k
                                  (add_event-Keeps e with_subnet new q),
                              known,
                            )

  pub agent_authorization-Ends :
      (v : Env) (start ds : DataStates) (e : Event) (required : Bool)
      → Keeps start ds
      → Holds (λ _. Unit {0}) (Ends start) (agent_authorization v ds e required)
  unfolding agent_authorization
  agent_authorization-Ends v start ds e required h =
      Holds->>= (Ends start) (λ _. Unit {0}) _ (if required then _ else next []) _
        (Holds-if (Ends start) _ required _ _ (λ _. found_authorizations-Ends v start ds _ h)
          λ _. Holds-next (Ends start) _ [] tt)
        λ found _.
          let current = last_authorization zero_authorization found in
          Holds-stop_if (Ends start) _
            (required && below_member current && str_eq current.id e.auth_event.id) ds _ _
            (Ends-refuse start ds _ _ _ _ h) λ _. Holds-next (Ends start) _ current tt
