-- ===== src/Service/Process/Facts.antt =====
-- What ProcessEvent guarantees of an event of another node that it accepts.
use mathlib.Core.Path.{subst}
use go_m_layer.Prelude.{
  ◌≡◌, refl, ◌⊎◌, inl, inr, arith, ℕ, zero, suc, ◌<◌, str_has_eq, Bool, true, false, Option,
  Outcome, ok, fail, panic, ok_inj, Bool-cases,
}
use go_m_layer.External.{External}
use go_m_layer.Entities.Records.{Event}
use go_m_layer.DataStates.{DataStates}
use go_m_layer.DataStates.Keep.{Keeps, Keeps-refl}
use go_m_layer.Service.Env.{Env}
use go_m_layer.Service.Signature.{validate_event}
use go_m_layer.Service.Process.Phase.{Verdict, accepts, PayloadData}
use go_m_layer.Service.Process.Logic.{Holds, Holds->>=, Holds-weaken, Holds-finish, Ends}
use go_m_layer.Service.Process.Checks.{is_local, out_of_time, process_local}
use go_m_layer.Service.Process.Checks.Facts.{
  Checked, AgentSigned, check_event-Holds, agent_authorization-Ends,
}
use go_m_layer.Service.Process.Previous.Facts.{previous_event_of-Keeps}
use go_m_layer.Service.Process.Auth.{AuthResult}
use go_m_layer.Service.Process.Auth.Facts.{Authorized, GoodResult, auth_event_of-Holds}
use go_m_layer.Service.Process.Recency.Facts.{Settled, check_recency-Holds}
use go_m_layer.Service.Process.Run.{process_remote, process_event, with_states}

zero_or : {P : Type 0} (t : ℕ) → (0 < t → P) → (t ≡ 0) ⊎ P
zero_or zero h = inl refl
zero_or (suc n) h = inr (h (omega arith))

module _ ⦃x : External⦄ (v : Env) (e : Event) (data_ : PayloadData) (required : Bool)
    (ds : DataStates) where
  -- What every end of the function establishes.
  Established : DataStates × Verdict → Type 0
  Established d =
      Keeps ds d.0
      × (accepts d.1 ≡ true → Checked v e required × (required ≡ true → Authorized v e))

  Settled-Established :
      (r : AuthResult) (d : DataStates × Verdict)
      → Checked v e required
      → GoodResult v e required ds r
      → Settled ds r d
      → Established d
  unfolding Established GoodResult Settled
  Settled-Established r d checked good settled = (settled.0, λ q. (checked, good.1 (settled.1 q)))

  process_remote-Holds : Holds Established (Ends ds) (process_remote v e data_ required ds)
  unfolding process_remote
  process_remote-Holds =
      Holds->>= (Ends ds) (λ new. Keeps ds new × Checked v e required) Established _ _
        (check_event-Holds v ds e data_ required)
        λ kept known.
          Holds->>= (Ends ds) (λ _. Unit {0}) Established _ _
            (agent_authorization-Ends v ds kept e required known.0)
            λ current _.
              Holds->>= (Ends ds) (λ (q : DataStates × Option Event × Bool). Keeps ds q.0)
                Established _ _ (previous_event_of-Keeps v ds kept e known.0)
                λ (q : DataStates × Option Event × Bool) k.
                  Holds->>= (Ends ds) (GoodResult v e required ds) Established _ _
                    (auth_event_of-Holds v ds q.0 e k required current q.2)
                    λ r good.
                      Holds-weaken (Ends ds) (Settled ds r) Established _
                        (check_recency-Holds v ds q.2 r (unfold GoodResult in good.0) e data_
                          required current q.1)
                        λ d settled. Settled-Established r d known.1 good settled

  ended-Established : (d : DataStates × Verdict) → Ends ds d.0 d.1 → Established d
  unfolding Established Ends
  ended-Established d (refused, k) = (k, λ q. cc)

  process_event-Established :
      (new : DataStates) (verdict : Verdict)
      → is_local v e ≡ false
      → process_event v e data_ required ds ≡ ok (new, verdict)
      → Established (new, verdict)
  unfolding process_event
  process_event-Established new verdict away h =
      elim (Holds-finish (Ends ds) Established (process_remote v e data_ required ds) (new, verdict)
        process_remote-Holds (rw away at h)) [
          | inl established ↦ established
          | inr ended ↦ ended-Established (new, verdict) ended
        ]

  local-Established :
      (o : Outcome Verdict) (new : DataStates) (verdict : Verdict)
      → with_states ds o ≡ ok (new, verdict)
      → Keeps ds new
  unfolding with_states
  local-Established (ok d) new verdict h =
      subst (λ (t : DataStates × Verdict). Keeps ds t.0) (ok_inj h) (Keeps-refl ds)
  local-Established (fail err) new verdict h = cc
  local-Established panic new verdict h = cc

  -- ProcessEvent loses no collected event.
  pub process_event-Keeps :
      (new : DataStates) (verdict : Verdict)
      → process_event v e data_ required ds ≡ ok (new, verdict)
      → Keeps ds new
  unfolding process_event
  process_event-Keeps new verdict h = elim (Bool-cases (is_local v e)) [
    | inl here ↦ local-Established (process_local v e) new verdict (rw here at h)
    | inr away ↦ unfold Established in (process_event-Established new verdict away h).0
  ]

  process_event-Checked :
      (new : DataStates) (verdict : Verdict)
      → is_local v e ≡ false
      → process_event v e data_ required ds ≡ ok (new, verdict)
      → accepts verdict ≡ true
      → Checked v e required
  process_event-Checked new verdict away h accepted =
      unfold Established in ((process_event-Established new verdict away h).1 accepted).0

  -- An event of another node that ProcessEvent accepts carries a valid signature of the validator that it
  -- names, and the payload one of the agent that it names, where the caller requires an agent.
  pub process_event-AgentSigned :
      (new : DataStates) (verdict : Verdict)
      → is_local v e ≡ false
      → required ≡ true
      → process_event v e data_ required ds ≡ ok (new, verdict)
      → accepts verdict ≡ true
      → (validate_event v e ≡ ok tt) × AgentSigned v e
  process_event-AgentSigned new verdict away needed h accepted =
      let known = process_event-Checked new verdict away h accepted in
      unfold Checked in (known.0, known.1 needed)

  -- Where the caller requires an agent, an event of another node that ProcessEvent accepts has a payload
  -- without a timestamp or one whose timestamp passes the test against the event's.
  pub process_event-timely :
      (new : DataStates) (verdict : Verdict)
      → is_local v e ≡ false
      → required ≡ true
      → process_event v e data_ required ds ≡ ok (new, verdict)
      → accepts verdict ≡ true
      → (e.payload.timestamp ≡ 0) ⊎ (out_of_time e ≡ false)
  process_event-timely new verdict away needed h accepted =
      let known = process_event-Checked new verdict away h accepted in
      unfold Checked in zero_or e.payload.timestamp (known.2 needed)

  -- Where the caller requires an agent, an event of another node that ProcessEvent accepts rests on the
  -- authorization event that it names, of an earlier time, and on its authorization: both are stored here
  -- and the event is synced, or the event is not found here and both are unpacked from a peer's answer for
  -- it. The authorization has at least the privilege of a member, and its signature is valid for the
  -- payload of the authorization event.
  pub process_event-Authorized :
      (new : DataStates) (verdict : Verdict)
      → is_local v e ≡ false
      → required ≡ true
      → process_event v e data_ required ds ≡ ok (new, verdict)
      → accepts verdict ≡ true
      → Authorized v e
  process_event-Authorized new verdict away needed h accepted =
      unfold Established in ((process_event-Established new verdict away h).1 accepted).1 needed
