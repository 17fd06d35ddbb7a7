-- ===== src/Store/Counters/Facts.antt =====
-- What the counters of a transaction are after IncrementCounters.
use go_m_layer.Prelude.{
  ℕ, ◌+◌, ◌≡◌, ◌≢◌, refl, sym, ap, ◌∙◌, arith, Option, none, some, List, [], ◌∷◌, Str, str_eq,
  str_eq_iff, if◌then◌else◌, Bool-cases, inl, inr, Outcome, ok, ◌>>=◌, ok_inj, >>=-ok,
}
use go_m_layer.Encoding.{big_bytes}
use go_m_layer.Encoding.BigNumber.{big_number-big_bytes}
use go_m_layer.External.{Bytes}
use go_m_layer.Store.KeyValue.Facts.{read-write_same, read-write_other}
use go_m_layer.Store.KeyValue.{KeyValue, KeyValueLaws, read, write}
use go_m_layer.Store.Counters.{
  raised, counter_keys, increment_counter_by_key, increment_each, increment_counters,
}

module _ ⦃kv : KeyValue⦄ where
  -- The count that a transaction holds under a key.
  unfoldable pub count_at : Str → kv.Txn → Outcome ℕ
  unfolding read raised
  count_at key t = do stored ← read key t; ok (raised 0 stored)

  -- How many of the keys are stored where this one is.
  unfoldable pub occurrences : Str → List Str → ℕ
  occurrences key [] = 0
  occurrences key (k ∷ ks) =
      let rest = occurrences key ks in
      if str_eq (kv.new_key k) (kv.new_key key) then 1 + rest else rest

raised_add : (n d : ℕ) (o : Option Bytes) → raised 0 o ≡ n → raised d o ≡ n + d
unfolding raised
raised_add n d none h = omega (arith, h)
raised_add n d (some b) h = omega (arith, h)

raised-big_bytes : (n : ℕ) → raised 0 (some (big_bytes n)) ≡ n
unfolding raised
raised-big_bytes n = omega (arith, big_number-big_bytes n)

module _ ⦃kv : KeyValue⦄ ⦃laws : KeyValueLaws⦄ where
  count_at-same :
      (key other : Str) (t : kv.Txn)
      → kv.new_key key ≡ kv.new_key other
      → count_at key t ≡ count_at other t
  unfolding count_at read
  count_at-same key other t same = rw same refl

  count_at-read :
      (key : Str) (n : ℕ) (o : Option Bytes) (t : kv.Txn)
      → count_at key t ≡ ok n
      → read key t ≡ ok o
      → raised 0 o ≡ n
  unfolding count_at
  count_at-read key n o t c r = ok_inj (sym (rw r refl) ∙ c)

  count_at-write :
      (key other : Str) (n : ℕ) (t u : kv.Txn)
      → kv.new_key other ≡ kv.new_key key
      → write key (big_bytes n) t ≡ ok u
      → count_at other u ≡ ok n
  unfolding count_at
  count_at-write key other n t u same h =
      rw (read-write_same key other (big_bytes n) t u same h) (ap ok (raised-big_bytes n))

  count_at-write_other :
      (key other : Str) (v : Bytes) (t u : kv.Txn)
      → kv.new_key other ≢ kv.new_key key
      → write key v t ≡ ok u
      → count_at other u ≡ count_at other t
  unfolding count_at
  count_at-write_other key other v t u apart h = rw (read-write_other key other v t u apart h) refl

  -- One increment, seen at any key.
  count_at-increment :
      (key other : Str) (d n : ℕ) (t u : kv.Txn)
      → increment_counter_by_key key d t ≡ ok u
      → count_at other t ≡ ok n
      → count_at other u ≡ ok (if str_eq (kv.new_key key) (kv.new_key other) then n + d else n)
  unfolding increment_counter_by_key
  count_at-increment key other d n t u h c =
      let (old, reads, written) = >>=-ok (read key t) _ u h in
      elim (Bool-cases (str_eq (kv.new_key key) (kv.new_key other))) [
        | inl e ↦
            let same = (str_eq_iff (kv.new_key key) (kv.new_key other)).0 e in
            let before = count_at-read key n old t (count_at-same key other t same ∙ c) reads in
            rw e (
              count_at-write key other (n + d) t u (sym same)
                (ap (λ m. write key (big_bytes m) t) (sym (raised_add n d old before)) ∙ written))
        | inr e ↦ rw e (
            count_at-write_other key other _ t u
              (λ same. cc ((str_eq_iff (kv.new_key key) (kv.new_key other)).1 (sym same))) written
            ∙ c)
      ]

  count_at-increment_each :
      (keys : List Str) (key : Str) (n : ℕ) (t u : kv.Txn)
      → increment_each keys t ≡ ok u
      → count_at key t ≡ ok n
      → count_at key u ≡ ok (n + occurrences key keys)
  unfolding increment_each occurrences
  count_at-increment_each [] key n t u h c =
      ap (count_at key) (sym (ok_inj h)) ∙ c ∙ ap ok (omega arith)
  count_at-increment_each (k ∷ keys) key n t u h c =
      let (v, first, rest) = >>=-ok (increment_counter_by_key k 1 t) _ u h in
      let step = count_at-increment k key 1 n t v first c in
      count_at-increment_each keys key _ v u rest step ∙ ap ok (ground arith)

  -- Where IncrementCounters returns in a transaction, the count under any key has grown by the number
  -- of the three counted keys that are stored where it is.
  pub count_at-increment_counters :
      (cycle : ℕ) (validator subnet key : Str) (keys : List Str) (n : ℕ) (t u : kv.Txn)
      → counter_keys cycle validator subnet ≡ ok keys
      → increment_counters cycle validator subnet t ≡ ok u
      → count_at key t ≡ ok n
      → count_at key u ≡ ok (n + occurrences key keys)
  unfolding increment_counters
  count_at-increment_counters cycle validator subnet key keys n t u collected h c =
      let (found_keys, same, rest) =
        >>=-ok (counter_keys cycle validator subnet) (λ ks. increment_each ks t) u h in
      count_at-increment_each keys key n t u
        (ap (λ ks. increment_each ks t) (ok_inj (sym collected ∙ same)) ∙ rest) c
