-- ===== src/Store/KeyValue/Facts.antt =====
-- What a transaction reads after it has written or deleted.
use go_m_layer.Prelude.{
  ◌≡◌, ◌≢◌, ap, Option, none, some, Str, Outcome, ok, fail, panic, ok_inj, is_not_found, Error,
  Bool, true, false, if◌then◌else◌, ◌∙◌,
}
use go_m_layer.External.{Bytes}
use go_m_layer.Store.KeyValue.{KeyValue, KeyValueLaws, found, read, write}

some_value : Bytes → Option Bytes → Bytes
some_value d none = d
some_value d (some b) = b

some_inj : {a b : Bytes} → some a ≡ some b → a ≡ b
unfolding some_value
some_inj {a} e = ap (some_value a) e

missing_or_failed : Bool → Error → Outcome (Option Bytes)
missing_or_failed b e = if b then ok none else fail e

missing_or_failed-some :
    (b : Bool) (e : Error) (value : Bytes) → missing_or_failed b e ≡ ok (some value) → ⊥
unfolding missing_or_failed
missing_or_failed-some true e value h = cc
missing_or_failed-some false e value h = cc

found-some :
    (answer : Outcome Bytes) (value : Bytes) → found answer ≡ ok (some value) → answer ≡ ok value
unfolding found missing_or_failed
found-some (ok b) value h = ap ok (some_inj (ok_inj h))
found-some (fail e) value h = absurd (missing_or_failed-some (is_not_found (some e)) e value h)
found-some panic value h = cc

module _ ⦃kv : KeyValue⦄ ⦃laws : KeyValueLaws⦄ where
  pub read-write :
      (key : Str) (value : Bytes) (t u : kv.Txn)
      → write key value t ≡ ok u
      → read key u ≡ ok (some value)
  unfolding read found
  read-write key value t u h = ap found (laws.get-put (kv.new_key key) value t u h)

  pub read-write_other :
      (key other : Str) (value : Bytes) (t u : kv.Txn)
      → kv.new_key other ≢ kv.new_key key
      → write key value t ≡ ok u
      → read other u ≡ read other t
  unfolding read
  read-write_other key other value t u apart h =
      ap found (laws.get-put_other (kv.new_key key) (kv.new_key other) value t u apart h)

  -- A key that is cleaned to the written one reads what was written.
  pub read-write_same :
      (key other : Str) (value : Bytes) (t u : kv.Txn)
      → kv.new_key other ≡ kv.new_key key
      → write key value t ≡ ok u
      → read other u ≡ ok (some value)
  unfolding read found
  read-write_same key other value t u same h = rw (same, laws.get-put (kv.new_key key) value t u h)

  -- What a transaction reads is stored once it is committed to the store that it began on.
  pub get-commit :
      (key value : Str) (s r : kv.Store) (t : kv.Txn)
      → laws.Of s t
      → read key t ≡ ok (some value)
      → kv.commit t s ≡ ok r
      → kv.get (kv.new_key key) r ≡ ok value
  unfolding read
  get-commit key value s r t o h done =
      laws.get-commit_of (kv.new_key key) s r t o done
      ∙ found-some (kv.txn_get (kv.new_key key) t) value h
