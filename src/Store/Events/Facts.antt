-- ===== src/Store/Events/Facts.antt =====
-- An event that was stored is read back; the time in its block key.
use go_m_layer.Prelude.{
  ℕ, suc, ◌≡◌, ◌≢◌, refl, sym, ap, ◌∙◌, true, false, some, [], ◌∷◌, Str, str, equal_fold, Error, ok,
  fail, text, is_not_found, >>=-ok, ok_inj, Bool-cases, inl, inr,
}
use go_m_layer.External.{External}
use go_m_layer.Entities.Records.{Event, event_id, uuid_to_bytes}
use go_m_layer.Entities.Keys.{Clock, event_data_key, block_key, event_keys, subnet_cycle_key}
use go_m_layer.Store.KeyValue.{KeyValue, KeyValueLaws}
use go_m_layer.Store.Codec.{Codec}
use go_m_layer.Store.Events.{
  is_synced, create_event, create_event_key, create_event_keys, update_event, on_block_key_error,
}

module _ ⦃x : External⦄ ⦃c : Clock⦄ ⦃kv : KeyValue⦄ ⦃laws : KeyValueLaws⦄ (codec : Codec) where
  create_event_key-other :
      (e : Event) (reading : ℕ) (key other : Str) (t u : kv.Txn)
      → other ≢ kv.new_key key
      → create_event_key codec e reading key t ≡ ok u
      → kv.txn_get other u ≡ kv.txn_get other t
  unfolding create_event_key
  create_event_key-other e reading key other t u apart h =
      elim (Bool-cases (equal_fold key (block_key (c.now reading) e))) [
        | inl f ↦ (elim (Bool-cases (is_synced e)) [
          | inl g ↦
              laws.get-put_other (kv.new_key key) other [] t u apart (sym (rw (f, g) refl) ∙ h)
          | inr g ↦ ap (kv.txn_get other) (sym (ok_inj (sym (rw (f, g) refl) ∙ h)))
        ])
        | inr f ↦ (elim (Bool-cases (equal_fold key (event_data_key e.id))) [
          | inl g ↦
              laws.get-put_other (kv.new_key key) other (codec.pack_event e) t u apart
                (sym (rw (f, g) refl) ∙ h)
          | inr g ↦
              laws.get-put_other (kv.new_key key) other (uuid_to_bytes e.id) t u apart
                (sym (rw (f, g) refl) ∙ h)
        ])
      ]

  -- The three turns of createEvent's loop.
  turns :
      (e : Event) (id : Str) (reading : ℕ) (t u : kv.Txn)
      → event_id e ≡ ok id
      → create_event codec e reading t ≡ ok u
      → (v : kv.Txn) × (w : kv.Txn) × (create_event_key codec
            (record e { id = id })
            (suc reading)
            (subnet_cycle_key e)
            t
          ≡ ok v)
        × (create_event_key codec
              (record e { id = id })
              (suc (suc reading))
              (block_key (c.now reading) (record e { id = id }))
              v
            ≡ ok w)
        × (create_event_key codec
              (record e { id = id })
              (suc (suc (suc reading)))
              (event_data_key id)
              w
            ≡ ok u)
  unfolding create_event event_keys create_event_keys subnet_cycle_key
  turns e id reading t u named h =
      let e' = record e { id = id } in
      let (i, same, rest) =
        >>=-ok (event_id e)
          (λ i.
            create_event_keys codec (record e { id = i }) (suc reading)
              (event_keys (c.now reading) (record e { id = i })) t)
          u h in
      let run =
        ap
          (λ i.
            create_event_keys codec (record e { id = i }) (suc reading)
              (event_keys (c.now reading) (record e { id = i })) t)
          (ok_inj (sym named ∙ same))
        ∙ rest in
      let (v, first, more) =
        >>=-ok (create_event_key codec e' (suc reading) (subnet_cycle_key e') t)
          (create_event_keys codec e' (suc (suc reading))
            (block_key (c.now reading) e' ∷ event_data_key id ∷ []))
          u run in
      let (w, second, last) =
        >>=-ok (create_event_key codec e' (suc (suc reading)) (block_key (c.now reading) e') v)
          (create_event_keys codec e' (suc (suc (suc reading))) (event_data_key id ∷ [])) u more in
      let (y, third, end) =
        >>=-ok (create_event_key codec e' (suc (suc (suc reading))) (event_data_key id) w)
          (λ y. ok y) u last in
      (v, w, first, second, third ∙ end)

  -- Where an event is stored in one millisecond, UpdateEvent without `create` refuses it in another, as
  -- if it did not exist, if nothing else is stored under its block key of that other millisecond.
  pub update_event_late :
      (e : Event) (id : Str) (reading later : ℕ) (t u : kv.Txn) (err : Error)
      → event_id e ≡ ok id
      → kv.new_key (block_key (c.now later) (record e { id = id }))
        ≢ kv.new_key (subnet_cycle_key e)
      → kv.new_key (block_key (c.now later) (record e { id = id }))
        ≢ kv.new_key (block_key (c.now reading) (record e { id = id }))
      → kv.new_key (block_key (c.now later) (record e { id = id })) ≢ kv.new_key (event_data_key id)
      → kv.txn_get (kv.new_key (block_key (c.now later) (record e { id = id }))) t ≡ fail err
      → is_not_found (some err) ≡ true
      → create_event codec e reading t ≡ ok u
      → update_event codec (record e { id = id }) false later u
        ≡ fail (text (str "event does not exist"))
  unfolding update_event on_block_key_error
  update_event_late e id reading later t u err named no_subnet no_block no_data missing kind h =
      let (v, w, first, second, third) = turns e id reading t u named h in
      let e' = record e { id = id } in
      let still_missing =
        create_event_key-other e' (suc (suc (suc reading))) (event_data_key id) _ w u no_data third
        ∙ (create_event_key-other e' (suc (suc reading)) (block_key (c.now reading) e') _ v w
              no_block second
            ∙ (create_event_key-other e' (suc reading) (subnet_cycle_key e) _ t v no_subnet first
                ∙ missing)) in
      rw (still_missing, kind) refl
