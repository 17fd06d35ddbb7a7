-- ===== src/Store/Topics/Facts.antt =====
-- A topic that was created is read back by its id, and its reference is not given again.
use go_m_layer.Prelude.{
  ◌≡◌, ◌≢◌, refl, sym, ap, ◌∙◌, true, false, Option, some, [], ◌∷◌, ◌++◌, Str, str, str_eq,
  is_empty, equal_fold, lower, ok, >>=-ok, ok_inj, All, take, not-false, true-not-false, subst,
  Bool-cases, inl, inr,
}
use go_m_layer.External.{External, Bytes}
use go_m_layer.Entities.Ids.{topic_model, model_text}
use go_m_layer.Entities.Records.{Topic, topic_state, get_id}
use go_m_layer.Entities.Keys.{
  Clock, id_key, data_key, topic_keys, topic_ref_key, account_topics_key, ◌⟋◌,
}
use go_m_layer.Store.KeyValue.{found, KeyValue, KeyValueLaws, read}
use go_m_layer.Store.KeyValue.Facts.{get-commit}
use go_m_layer.Store.Codec.{Codec}
use go_m_layer.Store.States.{
  Stores, state_store, create_state, get_state_by_id, is_taken, entity_data_key,
}
use go_m_layer.Store.States.Facts.{
  target, target-data_key, target-id_key, target-ref_key, target-other_key, target-ref_key_place,
  create_state-free, create_state-named, read-create_state_last, Of-create_state,
}
use go_m_layer.Store.Topics.{create_topic_state, topic_param, get_topic_by_id}

-- The keys of one topic begin differently.
ref_or_data : (r d : Str) → equal_fold (str "top|ref|" ++ r) (str "data/" ++ d) ≡ false
unfolding equal_fold lower str_eq
ref_or_data r d = refl

ref_or_id : (r i : Str) → equal_fold (str "top|ref|" ++ r) (str "top/id/" ++ i) ≡ false
unfolding equal_fold lower str_eq
ref_or_id r i = refl

id_or_data : (i d : Str) → equal_fold (str "top/id/" ++ i) (str "data/" ++ d) ≡ false
unfolding equal_fold lower str_eq
id_or_data i d = refl

filled_ref :
    (a : Topic)
    → is_empty a.ref ≡ false
    → topic_ref_key a ≡ str "top|ref|" ++ (a.subnet ++ (124 ∷ a.ref))
unfolding topic_ref_key
filled_ref a filled = rw filled refl

account_or_ref :
    (a : Topic) (k r : Str) → equal_fold (account_topics_key a ⟋ k) (str "top|ref|" ++ r) ≡ false
unfolding account_topics_key equal_fold lower str_eq
account_or_ref a k r = elim (Bool-cases (is_empty a.subnet)) [
  | inl e ↦ rw e refl
  | inr e ↦ (elim (Bool-cases (is_empty a.agent)) [
    | inl f ↦ rw (e, f) refl
    | inr f ↦ rw (e, f) refl
  ])
]

module _ ⦃x : External⦄ ⦃c : Clock⦄ ⦃kv : KeyValue⦄ (codec : Codec) where
  target-filled_ref :
      (a : Topic)
      → is_empty a.ref ≡ false
      → target (topic_param codec a) (topic_ref_key a) ≡ (topic_ref_key a, a.id)
  unfolding topic_param data_key id_key model_text is_empty
  target-filled_ref a filled =
      target-ref_key (topic_param codec a) (topic_ref_key a) refl (rw (filled_ref a filled) refl)
        (rw (filled_ref a filled) (ref_or_data _ _)) (rw (filled_ref a filled) (ref_or_id _ _))

  -- What CreateTopicState does: the topic gets its id, and is created under it.
  created :
      (a : Topic) (t u : kv.Txn) (a' : Topic)
      → create_topic_state codec a t ≡ ok (a', u)
      → (a' ≡ record a { id = a'.id }) × (create_state (topic_param codec a') t ≡ ok u)
  unfolding create_topic_state
  created a t u a' h =
      let (id, named, rest) = >>=-ok (get_id a.event_signature a.id) _ (a', u) h in
      let (v, stored, last) =
        >>=-ok (create_state (topic_param codec (record a { id = id })) t) _ (a', u) rest in
      let same = ap (λ (r : Topic × kv.Txn). r.0) (ok_inj last) in
      (
        sym same ∙ ap (λ i. record a { id = i }) (ap Topic.id same),
        ap (λ n. create_state (topic_param codec n) t) (sym same)
            ∙ (stored ∙ ap (λ (r : Topic × kv.Txn). ok r.1) (ok_inj last)),
      )

  other_target :
      (a : Topic) (key ref : Str)
      → topic_ref_key a ≡ ref
      → equal_fold key ref ≡ false
      → kv.new_key key ≢ kv.new_key (topic_ref_key a)
      → kv.new_key (target (topic_param codec a) key).0 ≢ kv.new_key (topic_ref_key a)
  unfolding topic_param
  other_target a key ref is_ref differs apart =
      subst (λ n. kv.new_key n ≢ kv.new_key (topic_ref_key a))
        (sym
          (target-other_key (topic_param codec a) (topic_ref_key a) key refl (rw is_ref differs)))
        apart

  -- The first three keys of a topic are written under themselves.
  targets-Apart :
      (a : Topic)
      → is_empty a.ref ≡ false
      → All (λ k. kv.new_key k ≢ kv.new_key (topic_ref_key a)) (take 3 (topic_keys a))
      → All
          (λ k. kv.new_key (target (topic_param codec a) k).0 ≢ kv.new_key (topic_ref_key a))
          (take 3 (topic_keys a))
  unfolding topic_keys id_key data_key model_text equal_fold lower str_eq
  targets-Apart a filled (account, (id, (content, end))) = (
    other_target a _ _ (filled_ref a filled) (account_or_ref a _ _) account,
    (
      other_target a _ _ (filled_ref a filled) refl id,
      (other_target a _ _ (filled_ref a filled) refl content, tt),
    ),
  )

module _ ⦃x : External⦄ ⦃c : Clock⦄ ⦃kv : KeyValue⦄ ⦃laws : KeyValueLaws⦄ (codec : Codec) where
  -- The reference of a topic that was created reads the topic's id.
  read-created_ref :
      (a a' : Topic) (t u : kv.Txn)
      → is_empty a'.ref ≡ false
      → create_topic_state codec a t ≡ ok (a', u)
      → read (topic_ref_key a') u ≡ ok (some a'.id)
  unfolding topic_param topic_keys
  read-created_ref a a' t u filled h =
      read-create_state_last (topic_param codec a') (topic_ref_key a') a'.id
        (take 3 (topic_keys a')) [] t u refl (target-filled_ref codec a' filled) tt
        (created codec a t u a' h).1

  free_ref :
      (b b' : Topic) (t u : kv.Txn)
      → is_empty b'.ref ≡ false
      → All (λ k. kv.new_key k ≢ kv.new_key (topic_ref_key b')) (take 3 (topic_keys b'))
      → create_topic_state codec b t ≡ ok (b', u)
      → (o : Option Bytes) × (read (topic_ref_key b') t ≡ ok o) × (is_taken o ≡ false)
  unfolding topic_param topic_keys data_key id_key model_text is_empty
  free_ref b b' t u filled apart h =
      create_state-free (topic_param codec b') (topic_ref_key b') (take 3 (topic_keys b')) [] t u
        refl refl (rw (filled_ref b' filled) refl) (rw (filled_ref b' filled) (ref_or_data _ _))
        (rw (filled_ref b' filled) (ref_or_id _ _)) (targets-Apart codec b' filled apart)
        (created codec b t u b' h).1

  same_ref_key :
      (a b : Topic)
      → is_empty a.ref ≡ false
      → b.ref ≡ a.ref
      → b.subnet ≡ a.subnet
      → topic_ref_key b ≡ topic_ref_key a
  unfolding topic_ref_key
  same_ref_key a b filled same_ref same_subnet = rw (same_ref, same_subnet) refl

  taken_not_free :
      (o : Option Bytes) (id : Str) → o ≡ some id → is_taken o ≡ false → is_empty id ≡ true
  unfolding is_taken
  taken_not_free o id e free = not-false (is_empty id) (sym (ap is_taken e) ∙ free)

  stored_ref :
      (a a' : Topic) (s r : kv.Store) (t u : kv.Txn)
      → is_empty a'.ref ≡ false
      → kv.begin s ≡ ok t
      → create_topic_state codec a t ≡ ok (a', u)
      → kv.commit u s ≡ ok r
      → kv.get (kv.new_key (topic_ref_key a')) r ≡ ok a'.id
  stored_ref a a' s r t u filled began h done =
      get-commit (topic_ref_key a') a'.id s r u
        (Of-create_state (topic_param codec a') s t u (laws.Of-begin s t began)
          (created codec a t u a' h).1)
        (read-created_ref a a' t u filled h) done

  -- Once a topic with a reference is created in a transaction and committed, CreateTopicState creates no
  -- topic with that reference in its subnet in a transaction on a later store, whatever else that store
  -- holds, if it holds the same under the key of the reference, and if none of the second topic's other
  -- keys is cleaned to that key.
  pub create_topic_state_taken :
      (a b a' b' : Topic) (s r later : kv.Store) (t u v w : kv.Txn)
      → is_empty a.ref ≡ false
      → b.ref ≡ a.ref
      → b.subnet ≡ a.subnet
      → All (λ k. kv.new_key k ≢ kv.new_key (topic_ref_key b')) (take 3 (topic_keys b'))
      → kv.begin s ≡ ok t
      → create_topic_state codec a t ≡ ok (a', u)
      → kv.commit u s ≡ ok r
      → kv.get (kv.new_key (topic_ref_key a')) later ≡ kv.get (kv.new_key (topic_ref_key a')) r
      → kv.begin later ≡ ok v
      → ¬ (create_topic_state codec b v ≡ ok (b', w))
  unfolding topic_param read found
  create_topic_state_taken a b a' b' s r later t u v w filled same_ref same_subnet apart began h
        done kept again k =
      let a_same = (created codec a t u a' h).0 in
      let b_same = (created codec b v w b' k).0 in
      let a_filled = ap is_empty (ap Topic.ref a_same) ∙ filled in
      let ref_eq = ap Topic.ref b_same ∙ (same_ref ∙ sym (ap Topic.ref a_same)) in
      let subnet_eq = ap Topic.subnet b_same ∙ (same_subnet ∙ sym (ap Topic.subnet a_same)) in
      let b_filled = ap is_empty ref_eq ∙ a_filled in
      let (o, reads, free) = free_ref b b' v w b_filled apart k in
      let held =
        laws.get-begin (kv.new_key (topic_ref_key a')) later v again
        ∙ (kept ∙ stored_ref a a' s r t u a_filled began h done) in
      let stored =
        ap (λ key. read key v) (same_ref_key a' b' a_filled ref_eq subnet_eq) ∙ ap found held in
      let named = create_state-named (topic_param codec a') t u (created codec a t u a' h).1 in
      true-not-false (sym (taken_not_free o a'.id (ok_inj (sym reads ∙ stored)) free) ∙ named)

  -- Where a key of the topic is written apart from another, so is what is written there.
  content_Apart :
      (a : Topic) (key : Str)
      → kv.new_key (data_key topic_model a.event) ≢ kv.new_key key
      → kv.new_key (target (topic_param codec a) (data_key topic_model a.event)).0 ≢ kv.new_key key
  unfolding topic_param
  content_Apart a key apart =
      subst (λ r. kv.new_key r ≢ kv.new_key key)
        (sym (ap (λ (r : Str × Bytes). r.0) (target-data_key (topic_param codec a)))) apart

  ref_Apart :
      (a : Topic) (key : Str)
      → kv.new_key (topic_ref_key a) ≢ kv.new_key key
      → kv.new_key (target (topic_param codec a) (topic_ref_key a)).0 ≢ kv.new_key key
  unfolding topic_param
  ref_Apart a key apart =
      subst (λ r. kv.new_key r ≢ kv.new_key key)
        (sym (target-ref_key_place (topic_param codec a) (topic_ref_key a) refl)) apart

  read-created_id :
      (a a' : Topic) (t u : kv.Txn)
      → kv.new_key (data_key topic_model a'.event) ≢ kv.new_key (id_key topic_model a'.id)
      → kv.new_key (topic_ref_key a') ≢ kv.new_key (id_key topic_model a'.id)
      → create_topic_state codec a t ≡ ok (a', u)
      → read (id_key topic_model a'.id) u ≡ ok (some a'.event.id)
  unfolding topic_param topic_keys id_key data_key model_text equal_fold lower str_eq
  read-created_id a a' t u apart_data apart_ref h =
      read-create_state_last (topic_param codec a') (id_key topic_model a'.id) a'.event.id
        (take 1 (topic_keys a')) (data_key topic_model a'.event ∷ topic_ref_key a' ∷ []) t u refl
        (target-id_key (topic_param codec a') refl)
        (content_Apart a' _ apart_data, (ref_Apart a' _ apart_ref, tt)) (created codec a t u a' h).1

  read-created_content :
      (a a' : Topic) (t u : kv.Txn)
      → kv.new_key (topic_ref_key a') ≢ kv.new_key (data_key topic_model a'.event)
      → create_topic_state codec a t ≡ ok (a', u)
      → read (data_key topic_model a'.event) u ≡ ok (some (codec.pack (topic_state a')))
  unfolding topic_param topic_keys
  read-created_content a a' t u apart_ref h =
      read-create_state_last (topic_param codec a') (data_key topic_model a'.event)
        (codec.pack (topic_state a')) (take 2 (topic_keys a')) (topic_ref_key a' ∷ []) t u refl
        (target-data_key (topic_param codec a')) (ref_Apart a' _ apart_ref, tt)
        (created codec a t u a' h).1

  Of-created :
      (a a' : Topic) (s : kv.Store) (t u : kv.Txn)
      → laws.Of s t
      → create_topic_state codec a t ≡ ok (a', u)
      → laws.Of s u
  Of-created a a' s t u o h =
      Of-create_state (topic_param codec a') s t u o (created codec a t u a' h).1

  -- A topic that is created in a transaction is read by its id once that is committed, if the three
  -- keys in question are cleaned apart, the topic has an event, and its bytes are not empty and unpack
  -- to it.
  pub get_topic_by_id-create_topic_state :
      (a a' : Topic) (stores : Stores) (t u : kv.Txn) (r : kv.Store)
      → kv.new_key (data_key topic_model a'.event) ≢ kv.new_key (id_key topic_model a'.id)
      → kv.new_key (topic_ref_key a') ≢ kv.new_key (id_key topic_model a'.id)
      → kv.new_key (topic_ref_key a') ≢ kv.new_key (data_key topic_model a'.event)
      → is_empty a'.event.id ≡ false
      → is_empty (codec.pack (topic_state a')) ≡ false
      → codec.unpack_topic (codec.pack (topic_state a')) ≡ ok a'
      → kv.begin stores.state ≡ ok t
      → create_topic_state codec a t ≡ ok (a', u)
      → kv.commit u stores.state ≡ ok r
      → get_topic_by_id codec a'.id (record stores { state = r }) ≡ ok a'
  unfolding get_topic_by_id get_state_by_id state_store entity_data_key data_key model_text
  get_topic_by_id-create_topic_state a a' stores t u r data_id ref_id ref_data has_event packed
        unpacks began h done =
      let o = Of-created a a' stores.state t u (laws.Of-begin stores.state t began) h in
      let by_id =
        get-commit (id_key topic_model a'.id) a'.event.id stores.state r u o
          (read-created_id a a' t u data_id ref_id h) done in
      let content =
        get-commit (data_key topic_model a'.event) (codec.pack (topic_state a')) stores.state r u o
          (read-created_content a a' t u ref_data h) done in
      rw (laws.view-get _ _ r by_id has_event, laws.view-get _ _ r content packed) unpacks
