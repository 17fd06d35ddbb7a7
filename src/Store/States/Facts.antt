-- ===== src/Store/States/Facts.antt =====
-- CreateState: what is read under each key afterwards, and that a taken reference is refused.
use go_m_layer.Prelude.{
  ◌≡◌, ◌≢◌, refl, sym, ap, ◌∙◌, Bool, true, false, not, ◌&&◌, Option, none, some, List, [], ◌∷◌,
  ◌++◌, Str, str_eq, str_eq_iff, is_empty, equal_fold, if◌then◌else◌, Bool-cases, inl, inr, Outcome,
  ok, ◌>>◌, reject_if, >>=-ok, All, ok_inj, equal_fold_refl, str_eq_refl, subst,
}
use go_m_layer.External.{Bytes}
use go_m_layer.Store.KeyValue.{KeyValue, KeyValueLaws, read, write}
use go_m_layer.Store.KeyValue.Facts.{read-write_same, read-write_other}
use go_m_layer.Store.States.{
  CreateStateParam, create_state, create_keys, create_key, create_other, put_ref, rest_value,
  is_taken,
}

-- Where one key of CreateState is written, and what is written there.
ref_target : CreateStateParam → Option Str → Str → Str × Bytes
ref_target p none key = (key, rest_value p)
ref_target p (some ref) key =
    if not (is_empty ref) && equal_fold key ref then (ref, p.id) else (key, rest_value p)

unfoldable pub target : CreateStateParam → Str → Str × Bytes
unfolding ref_target
target p key =
    if equal_fold key p.data_key
    then (key, p.content)
    else if equal_fold key p.id_key
    then (key, p.event_hash)
    else ref_target p p.ref_key key

pub target-data_key : (p : CreateStateParam) → target p p.data_key ≡ (p.data_key, p.content)
unfolding target
target-data_key p = rw (equal_fold_refl p.data_key) refl

pub target-id_key :
    (p : CreateStateParam)
    → equal_fold p.id_key p.data_key ≡ false
    → target p p.id_key ≡ (p.id_key, p.event_hash)
unfolding target
target-id_key p apart = rw (apart, equal_fold_refl p.id_key) refl

pub target-ref_key :
    (p : CreateStateParam) (ref : Str)
    → p.ref_key ≡ some ref
    → is_empty ref ≡ false
    → equal_fold ref p.data_key ≡ false
    → equal_fold ref p.id_key ≡ false
    → target p ref ≡ (ref, p.id)
unfolding target ref_target
target-ref_key p ref is_ref filled no_data no_id =
    rw (no_data, no_id, is_ref, filled, equal_fold_refl ref) refl

-- The reference is written under itself, whatever is written.
pub target-ref_key_place :
    (p : CreateStateParam) (ref : Str) → p.ref_key ≡ some ref → (target p ref).0 ≡ ref
unfolding target ref_target
target-ref_key_place p ref is_ref = elim (Bool-cases (equal_fold ref p.data_key)) [
  | inl e ↦ rw e refl
  | inr e ↦ (elim (Bool-cases (equal_fold ref p.id_key)) [
    | inl f ↦ rw (e, f) refl
    | inr f ↦ (elim (Bool-cases (is_empty ref)) [
      | inl g ↦ rw (e, f, is_ref, g) refl
      | inr g ↦ rw (e, f, is_ref, g, equal_fold_refl ref) refl
    ])
  ])
]

-- A key that is not the reference is written under itself.
pub target-other_key :
    (p : CreateStateParam) (ref key : Str)
    → p.ref_key ≡ some ref
    → equal_fold key ref ≡ false
    → (target p key).0 ≡ key
unfolding target ref_target
target-other_key p ref key is_ref no_ref = elim (Bool-cases (equal_fold key p.data_key)) [
  | inl e ↦ rw e refl
  | inr e ↦ (elim (Bool-cases (equal_fold key p.id_key)) [
    | inl f ↦ rw (e, f) refl
    | inr f ↦ (elim (Bool-cases (is_empty ref)) [
      | inl g ↦ rw (e, f, is_ref, no_ref, g) refl
      | inr g ↦ rw (e, f, is_ref, no_ref, g) refl
    ])
  ])
]

reject_if-ok {ℓ} :
    {A : Type ℓ} (b : Bool) (e : _) (m : Outcome A) (a : A)
    → (reject_if b e >> m) ≡ ok a
    → (b ≡ false) × (m ≡ ok a)
reject_if-ok true e m a h = cc
reject_if-ok false e m a h = (refl, h)

module _ ⦃kv : KeyValue⦄ where
  -- What a key reads once the others of a list are written over it: the last that is stored there wins.
  unfoldable pub final_value :
      CreateStateParam → Str → List Str → Outcome (Option Bytes) → Outcome (Option Bytes)
  final_value p key [] old = old
  final_value p key (k ∷ ks) old = final_value p key ks (
      if str_eq (kv.new_key (target p k).0) (kv.new_key key) then ok (some (target p k).1) else old)

  put_ref-write :
      (p : CreateStateParam) (ref : Str) (t u : kv.Txn)
      → put_ref p ref t ≡ ok u
      → write ref p.id t ≡ ok u
  unfolding put_ref
  put_ref-write p ref t u h =
      let (old, reads, rest) = >>=-ok (read ref t) _ u h in
      (reject_if-ok (is_taken old) _ (write ref p.id t) u rest).1

  create_other-write :
      (p : CreateStateParam) (o : Option Str) (key : Str) (t u : kv.Txn)
      → create_other p o key t ≡ ok u
      → write (ref_target p o key).0 (ref_target p o key).1 t ≡ ok u
  unfolding create_other ref_target
  create_other-write p none key t u h = h
  create_other-write p (some ref) key t u h =
      elim (Bool-cases (not (is_empty ref) && equal_fold key ref)) [
        | inl e ↦ rw e (put_ref-write p ref t u (sym (rw e refl) ∙ h))
        | inr e ↦ rw e (sym (rw e refl) ∙ h)
      ]

  create_key-write :
      (p : CreateStateParam) (key : Str) (t u : kv.Txn)
      → create_key p key t ≡ ok u
      → write (target p key).0 (target p key).1 t ≡ ok u
  unfolding create_key target
  create_key-write p key t u h = elim (Bool-cases (equal_fold key p.data_key)) [
    | inl e ↦ rw e (sym (rw e refl) ∙ h)
    | inr e ↦ (elim (Bool-cases (equal_fold key p.id_key)) [
      | inl f ↦ rw (e, f) (sym (rw (e, f) refl) ∙ h)
      | inr f ↦ rw (e, f) (create_other-write p p.ref_key key t u (sym (rw (e, f) refl) ∙ h))
    ])
  ]

module _ ⦃kv : KeyValue⦄ ⦃laws : KeyValueLaws⦄ where
  read-target :
      (written value key : Str) (t u : kv.Txn)
      → write written value t ≡ ok u
      → read key u
        ≡ (if str_eq (kv.new_key written) (kv.new_key key) then ok (some value) else read key t)
  read-target written value key t u h =
      elim (Bool-cases (str_eq (kv.new_key written) (kv.new_key key))) [
        | inl e ↦
            let same = (str_eq_iff (kv.new_key written) (kv.new_key key)).0 e in
            rw e (read-write_same written key value t u (sym same) h)
        | inr e ↦ rw e (
            read-write_other written key value t u
              (λ same. cc ((str_eq_iff (kv.new_key written) (kv.new_key key)).1 (sym same))) h)
      ]

  create_keys-final_value :
      (p : CreateStateParam) (key : Str) (keys : List Str) (t u : kv.Txn)
      → create_keys p keys t ≡ ok u
      → read key u ≡ final_value p key keys (read key t)
  unfolding create_keys final_value
  create_keys-final_value p key [] t u h = ap (read key) (sym (ok_inj h))
  create_keys-final_value p key (k ∷ ks) t u h =
      let (v, first, rest) = >>=-ok (create_key p k t) (create_keys p ks) u h in
      create_keys-final_value p key ks v u rest
      ∙ ap (final_value p key ks)
          (read-target (target p k).0 (target p k).1 key t v (create_key-write p k t v first))

  -- Where CreateState returns in a transaction, every key reads there what the last of the state's keys
  -- that is stored at it holds, and a key where none is stored reads what it read before.
  pub read-create_state :
      (p : CreateStateParam) (key : Str) (t u : kv.Txn)
      → create_state p t ≡ ok u
      → read key u ≡ final_value p key p.keys (read key t)
  unfolding create_state
  read-create_state p key t u h =
      create_keys-final_value p key p.keys t u
        (reject_if-ok (is_empty p.id) _ (create_keys p p.keys t) u h).1

  final_value-Apart :
      (p : CreateStateParam) (key : Str) (keys : List Str) (old : Outcome (Option Bytes))
      → All (λ k. kv.new_key (target p k).0 ≢ kv.new_key key) keys
      → final_value p key keys old ≡ old
  unfolding final_value
  final_value-Apart p key [] old h = refl
  final_value-Apart p key (k ∷ ks) old (apart, rest) =
      elim (Bool-cases (str_eq (kv.new_key (target p k).0) (kv.new_key key))) [
        | inl e ↦ absurd (apart ((str_eq_iff (kv.new_key (target p k).0) (kv.new_key key)).0 e))
        | inr e ↦ rw e (final_value-Apart p key ks old rest)
      ]

  create_keys-append :
      (p : CreateStateParam) (before after : List Str) (t u : kv.Txn)
      → create_keys p (before ++ after) t ≡ ok u
      → (v : kv.Txn) × (create_keys p before t ≡ ok v) × (create_keys p after v ≡ ok u)
  unfolding create_keys
  create_keys-append p [] after t u h = (t, refl, h)
  create_keys-append p (k ∷ ks) after t u h =
      let (v, first, rest) = >>=-ok (create_key p k t) (create_keys p (ks ++ after)) u h in
      let (w, second, last) = create_keys-append p ks after v u rest in (w, rw first second, last)

  -- What is read under a reference that is then created.
  put_ref-free :
      (p : CreateStateParam) (ref : Str) (t u : kv.Txn)
      → put_ref p ref t ≡ ok u
      → (o : Option Bytes) × (read ref t ≡ ok o) × (is_taken o ≡ false)
  unfolding put_ref
  put_ref-free p ref t u h =
      let (old, reads, rest) = >>=-ok (read ref t) _ u h in
      (old, reads, (reject_if-ok (is_taken old) _ (write ref p.id t) u rest).0)

  -- Where CreateState returns, the reference was free before, if no key before it is stored there.
  pub create_state-free :
      (p : CreateStateParam) (ref : Str) (before after : List Str) (t u : kv.Txn)
      → p.ref_key ≡ some ref
      → p.keys ≡ before ++ (ref ∷ after)
      → is_empty ref ≡ false
      → equal_fold ref p.data_key ≡ false
      → equal_fold ref p.id_key ≡ false
      → All (λ k. kv.new_key (target p k).0 ≢ kv.new_key ref) before
      → create_state p t ≡ ok u
      → (o : Option Bytes) × (read ref t ≡ ok o) × (is_taken o ≡ false)
  unfolding create_state create_keys create_key create_other
  create_state-free p ref before after t u is_ref listed filled no_data no_id apart h =
      let rest = (reject_if-ok (is_empty p.id) _ (create_keys p p.keys t) u h).1 in
      let (v, first, last) =
        create_keys-append p before (ref ∷ after) t u
          (ap (λ ks. create_keys p ks t) (sym listed) ∙ rest) in
      let (w, put, more) = >>=-ok (create_key p ref v) (create_keys p after) u last in
      let (o, reads, free) =
        put_ref-free p ref v w
          (sym (rw (no_data, no_id, is_ref, filled, equal_fold_refl ref) refl) ∙ put) in
      (
        o,
        sym (
              create_keys-final_value p ref before t v first
              ∙ final_value-Apart p ref before (read ref t) apart)
            ∙ reads,
        free,
      )

  final_value-append :
      (p : CreateStateParam) (key : Str) (before after : List Str) (old : Outcome (Option Bytes))
      → final_value p key (before ++ after) old
        ≡ final_value p key after (final_value p key before old)
  unfolding final_value
  final_value-append p key [] after old = refl
  final_value-append p key (k ∷ ks) after old = final_value-append p key ks after _

  -- The last of the keys that is stored at one reads its value.
  pub read-create_state_last :
      (p : CreateStateParam) (key value : Str) (before after : List Str) (t u : kv.Txn)
      → p.keys ≡ before ++ (key ∷ after)
      → target p key ≡ (key, value)
      → All (λ k. kv.new_key (target p k).0 ≢ kv.new_key key) after
      → create_state p t ≡ ok u
      → read key u ≡ ok (some value)
  unfolding final_value
  read-create_state_last p key value before after t u listed is_target apart h =
      read-create_state p key t u h
      ∙ (ap (λ ks. final_value p key ks (read key t)) listed
          ∙ (final_value-append p key before (key ∷ after) (read key t)
              ∙ (final_value-Apart p key after _ apart
                  ∙ rw (is_target, str_eq_refl (kv.new_key key)) refl)))

  Of-create_keys :
      (p : CreateStateParam) (keys : List Str) (s : kv.Store) (t u : kv.Txn)
      → laws.Of s t
      → create_keys p keys t ≡ ok u
      → laws.Of s u
  unfolding create_keys
  Of-create_keys p [] s t u o h = subst (laws.Of s) (ok_inj h) o
  Of-create_keys p (k ∷ ks) s t u o h =
      let (v, first, rest) = >>=-ok (create_key p k t) (create_keys p ks) u h in
      Of-create_keys p ks s v u
        (laws.Of-put (kv.new_key (target p k).0) (target p k).1 s t v o
          (create_key-write p k t v first))
        rest

  pub Of-create_state :
      (p : CreateStateParam) (s : kv.Store) (t u : kv.Txn)
      → laws.Of s t
      → create_state p t ≡ ok u
      → laws.Of s u
  unfolding create_state
  Of-create_state p s t u o h =
      Of-create_keys p p.keys s t u o
        (reject_if-ok (is_empty p.id) _ (create_keys p p.keys t) u h).1

  -- A state without an id is refused.
  pub create_state-named :
      (p : CreateStateParam) (t u : kv.Txn) → create_state p t ≡ ok u → is_empty p.id ≡ false
  unfolding create_state
  create_state-named p t u h = (reject_if-ok (is_empty p.id) _ (create_keys p p.keys t) u h).0
