-- ===== src/Store/States/Update.antt =====
-- UpdateState with a reference: what is read under each key afterwards.
use go_m_layer.Prelude.{◌≡◌, ◌≢◌, sym, ap, ◌∙◌, some, Str, ok, >>=-ok}
use go_m_layer.Store.KeyValue.{KeyValue, KeyValueLaws, found, read, write}
use go_m_layer.Store.KeyValue.Facts.{read-write, read-write_other}
use go_m_layer.Store.States.{NewStateParam, update_state, move_ref}

module _ ⦃kv : KeyValue⦄ ⦃laws : KeyValueLaws⦄ where
  read-delete_other :
      (key other : Str) (t u : kv.Txn)
      → kv.new_key other ≢ kv.new_key key
      → kv.txn_delete (kv.new_key key) t ≡ ok u
      → read other u ≡ read other t
  unfolding read
  read-delete_other key other t u apart h =
      ap found (laws.get-delete_other (kv.new_key key) (kv.new_key other) t u apart h)

  move_ref-other :
      (id ref old key : Str) (t u : kv.Txn)
      → kv.new_key key ≢ kv.new_key ref
      → kv.new_key key ≢ kv.new_key old
      → move_ref id (some ref) (some old) t ≡ ok u
      → read key u ≡ read key t
  unfolding move_ref
  move_ref-other id ref old key t u no_ref no_old h =
      let (v, deleted, written) = >>=-ok (kv.txn_delete (kv.new_key old) t) (write ref id) u h in
      read-write_other ref key id v u no_ref written ∙ read-delete_other old key t v no_old deleted

  -- The three parts of UpdateState.
  parts :
      (id : Str) (p : NewStateParam) (ref old : Str) (t u : kv.Txn)
      → p.ref_key ≡ some ref
      → p.old_ref_key ≡ some old
      → update_state id p t ≡ ok u
      → (v : kv.Txn) × (w : kv.Txn) × (write p.data_key p.content t ≡ ok v)
        × (write p.old_id_key p.event_hash v ≡ ok w)
        × (move_ref id (some ref) (some old) w ≡ ok u)
  unfolding update_state
  parts id p ref old t u is_ref is_old h =
      let (v, first, rest) = >>=-ok (write p.data_key p.content t) _ u h in
      let (w, second, last) =
        >>=-ok (write p.old_id_key p.event_hash v) (move_ref id p.ref_key p.old_ref_key) u rest in
      (
        v,
        w,
        first,
        second,
        ap (λ r. move_ref id r (some old) w) (sym is_ref)
            ∙ (ap (λ o. move_ref id p.ref_key o w) (sym is_old) ∙ last),
      )

  -- A key that is none of the four that UpdateState is given reads what it read before.
  pub read-update_state_other :
      (id : Str) (p : NewStateParam) (ref old key : Str) (t u : kv.Txn)
      → p.ref_key ≡ some ref
      → p.old_ref_key ≡ some old
      → kv.new_key key ≢ kv.new_key p.data_key
      → kv.new_key key ≢ kv.new_key p.old_id_key
      → kv.new_key key ≢ kv.new_key ref
      → kv.new_key key ≢ kv.new_key old
      → update_state id p t ≡ ok u
      → read key u ≡ read key t
  read-update_state_other id p ref old key t u is_ref is_old no_data no_id no_ref no_old h =
      let (v, w, first, second, moved) = parts id p ref old t u is_ref is_old h in
      move_ref-other id ref old key w u no_ref no_old moved
      ∙ (read-write_other p.old_id_key key p.event_hash v w no_id second
          ∙ read-write_other p.data_key key p.content t v no_data first)

  -- The id's key reads the event, and the event's key the state.
  pub read-update_state :
      (id : Str) (p : NewStateParam) (ref old : Str) (t u : kv.Txn)
      → p.ref_key ≡ some ref
      → p.old_ref_key ≡ some old
      → kv.new_key p.data_key ≢ kv.new_key p.old_id_key
      → kv.new_key p.data_key ≢ kv.new_key ref
      → kv.new_key p.data_key ≢ kv.new_key old
      → kv.new_key p.old_id_key ≢ kv.new_key ref
      → kv.new_key p.old_id_key ≢ kv.new_key old
      → update_state id p t ≡ ok u
      → (read p.old_id_key u ≡ ok (some p.event_hash)) × (read p.data_key u ≡ ok (some p.content))
  read-update_state id p ref old t u is_ref is_old data_id data_ref data_old id_ref id_old h =
      let (v, w, first, second, moved) = parts id p ref old t u is_ref is_old h in
      (
        move_ref-other id ref old p.old_id_key w u id_ref id_old moved
            ∙ read-write p.old_id_key p.event_hash v w second,
        move_ref-other id ref old p.data_key w u data_ref data_old moved
            ∙ (read-write_other p.old_id_key p.data_key p.event_hash v w data_id second
                ∙ read-write p.data_key p.content t v first),
      )
