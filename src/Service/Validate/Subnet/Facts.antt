-- ===== src/Service/Validate/Subnet/Facts.antt =====
-- What a subnet satisfies that its check accepts.
use go_m_layer.Prelude.{
  ◌≡◌, refl, ap, ◌∙◌, arith, ◌⊎◌, inl, inr, ◌≤◌, ltb, Bool, true, false, not, ◌&&◌, ◌||◌, Option,
  some, List, [], ◌∷◌, Str, str, is_empty, length, if◌then◌else◌, Error, Outcome, ok, fail, panic,
  is_not_found, ◌==◌, ==_iff, Ensures, Ensures-result, Ensures-ok, Ensures-fail, Ensures->>=,
  Ensures-reject_if, Ensures-deref, Ensures-if, Ensures-last, Bool-cases, not-false, attempt,
  reject_if,
}
use go_m_layer.External.{External, Bytes}
use go_m_layer.Entities.Constants.{admin_priviledge}
use go_m_layer.Entities.Did.{addr_of, did_to_string, address_from_string, device_string}
use go_m_layer.Entities.Records.{Authorization, Subnet, State, subnet_state, ClientPayload}
use go_m_layer.Entities.Wire.{payload_hash}
use go_m_layer.Service.Env.{Env}
use go_m_layer.Service.Signature.{verify_signature_data}
use go_m_layer.Service.Validate.Authorization.{authorization_filter}
use go_m_layer.Service.Validate.Topic.{is_alpha_numeric_dot}
use go_m_layer.Service.Validate.Subnet.{
  validate_subnet_data, subnet_of, some_admin, subnet_admin, current_subnet,
}

-- One of the authorizations has the administrator's privilege.
unfoldable pub HasAdmin : List Authorization → Type 0
HasAdmin [] = ⊥
HasAdmin (a ∷ more) = (a.priviledge ≡ some admin_priviledge) ⊎ HasAdmin more

some_admin-Ensures : (l : List Authorization) → Ensures (λ b. b ≡ true → HasAdmin l) (some_admin l)
unfolding some_admin HasAdmin
some_admin-Ensures [] = Ensures-ok _ false λ q. cc
some_admin-Ensures (a ∷ more) = Ensures-deref _ a.priviledge _ λ p has.
    Ensures->>= _ (some_admin more) _ λ rest found.
      Ensures-ok _ (p == admin_priviledge || rest) λ q. elim (Bool-cases (p == admin_priviledge)) [
        | inl same ↦ inl (has ∙ ap (λ n. some n) ((==_iff p admin_priviledge).0 same))
        | inr other ↦
            inr (
              Ensures-result _ (some_admin more) rest (some_admin-Ensures more) found
                (ground arith))
      ]

subnet_of-Ensures : (o : Option State) → Ensures (λ s. o ≡ some (subnet_state s)) (subnet_of o)
unfolding subnet_of Ensures
subnet_of-Ensures (some (subnet_state a)) = refl
subnet_of-Ensures _ = tt

module _ (v : Env) where
  abbrev pub AdminOf : Subnet → Type 0
  AdminOf s =
      (l : List Authorization) × (v.account_authorizations (
          authorization_filter (did_to_string (address_from_string s.account)) s.id
            (device_string s.agent))
        ≡ ok l)
      × HasAdmin l

  asked :
      (o : Outcome (List Authorization)) (g : Error → Outcome (List Authorization))
      (l : List Authorization)
      → ((e : Error) → Ensures (λ (_ : List Authorization). ⊥) (g e))
      → attempt o (λ k. ok k) g ≡ ok l
      → o ≡ ok l
  asked (ok k) g l never h = h
  asked (fail e) g l never h = absurd (Ensures-result _ (g e) l (never e) h)
  asked panic g l never h = cc

  subnet_admin-Ensures : (s : Subnet) → Ensures (λ _. AdminOf s) (subnet_admin v s)
  unfolding subnet_admin
  subnet_admin-Ensures s =
      Ensures->>= _
        (attempt
          (v.account_authorizations (
            authorization_filter (did_to_string (address_from_string s.account)) s.id
              (device_string s.agent)))
          (λ l. ok l) _)
        _
        λ l found. Ensures->>= _ (some_admin l) _ λ admin has.
          Ensures-last _ (reject_if (not admin) _) λ _ q. (
            l,
            asked _ _ l
                (λ e.
                  Ensures-if _ (is_not_found (some e)) _ _ (λ _. Ensures-fail _ _)
                    λ _. Ensures-fail _ _)
                found,
            Ensures-result _ (some_admin l) admin (some_admin-Ensures l) has (ground arith),
          )

module _ ⦃x : External⦄ (v : Env) (payload : ClientPayload) (chain : Str) where
  SignedSubnet : Subnet → Type 0
  SignedSubnet s =
      (msg : Bytes) × (payload_hash payload ≡ ok msg)
      × (verify_signature_data v s.signature_data (str "write_subnet") s.ref chain
            (addr_of s.account) (addr_of s.account) msg
          ≡ ok true)

  -- The payload holds a subnet that its account signed, with a reference of at most sixty-four
  -- characters.
  unfoldable pub GoodSubnet : Type 0
  unfolding SignedSubnet
  GoodSubnet =
      (s : Subnet) × (payload.content ≡ some (subnet_state s))
      × (length s.ref ≤ 64)
      × SignedSubnet s

  good_subnet :
      (s : Subnet) (valid : Bool) (msg : Bytes)
      → subnet_of payload.content ≡ ok s
      → ltb 64 (length s.ref) ≡ false
      → payload_hash payload ≡ ok msg
      → verify_signature_data v s.signature_data
          (str "write_subnet")
          s.ref
          chain
          (addr_of s.account)
          (addr_of s.account)
          msg
        ≡ ok valid
      → not valid ≡ false
      → GoodSubnet
  unfolding GoodSubnet SignedSubnet
  good_subnet s valid msg held short hashed verified sure = (
    s,
    Ensures-result _ (subnet_of payload.content) s (subnet_of-Ensures payload.content) held,
    ground arith,
    (msg, hashed, verified ∙ ap (λ b. ok b) (not-false valid sure)),
  )

  validate_subnet_data-Ensures :
      Ensures (λ (_ : Option Subnet). GoodSubnet) (validate_subnet_data v payload chain)
  unfolding validate_subnet_data
  validate_subnet_data-Ensures = Ensures->>= _ (subnet_of payload.content) _ λ s held.
      Ensures->>= _
        (if not (is_empty s.agent) && not (is_empty s.id) then subnet_admin v s else ok tt) _
        λ _ _. Ensures-reject_if _ (ltb 64 (length s.ref)) _ _ λ short.
          Ensures-reject_if _ (not (is_empty s.ref) && not (is_alpha_numeric_dot s.ref)) _ _ λ _.
            Ensures->>= _ (payload_hash payload) _ λ msg hashed.
              Ensures->>= _
                (verify_signature_data v s.signature_data (str "write_subnet") s.ref chain
                  (addr_of s.account) (addr_of s.account) msg)
                _
                λ valid verified. Ensures-reject_if _ (not valid) _ _ λ sure.
                  Ensures-last _ (current_subnet v s.id)
                    λ current _. good_subnet s valid msg held short hashed verified sure

  -- A payload that ValidateSubnetData accepts holds a subnet with a valid signature of its account over
  -- the payload's hash and a reference of at most sixty-four characters.
  pub validate_subnet_data-GoodSubnet :
      (current : Option Subnet) → validate_subnet_data v payload chain ≡ ok current → GoodSubnet
  validate_subnet_data-GoodSubnet current h =
      Ensures-result _ (validate_subnet_data v payload chain) current validate_subnet_data-Ensures h

  validate_subnet_data-administered :
      (s : Subnet)
      → payload.content ≡ some (subnet_state s)
      → is_empty s.agent ≡ false
      → is_empty s.id ≡ false
      → Ensures (λ (_ : Option Subnet). AdminOf v s) (validate_subnet_data v payload chain)
  unfolding validate_subnet_data subnet_of
  validate_subnet_data-administered s held agent named =
      rw (held, agent, named)
        (Ensures->>= _ (subnet_admin v s) _ λ _ admin.
          Ensures-last _ _
            λ _ _. Ensures-result _ (subnet_admin v s) tt (subnet_admin-Ensures v s) admin)

  -- If the subnet of an accepted payload names an agent and an id, one of the authorizations that its
  -- account has given that agent in it has the administrator's privilege.
  pub validate_subnet_data-AdminOf :
      (s : Subnet) (current : Option Subnet)
      → payload.content ≡ some (subnet_state s)
      → is_empty s.agent ≡ false
      → is_empty s.id ≡ false
      → validate_subnet_data v payload chain ≡ ok current
      → AdminOf v s
  validate_subnet_data-AdminOf s current held agent named h =
      Ensures-result _ (validate_subnet_data v payload chain) current
        (validate_subnet_data-administered s held agent named) h
