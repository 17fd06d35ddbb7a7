-- ===== src/Store/KeyValue.antt =====
-- What internal/ds/query takes from the datastore and from Badger: stores, transactions on them, and
-- keys. A call that is not found fails with one of the two errors that IsErrorNotFound tells apart.
pub mod Facts
use go_m_layer.Prelude.{
  ℕ, ◌≡◌, ◌≢◌, ◌∷◌, Bool, true, false, Option, none, some, List, Str, Outcome, ok, fail, panic,
  Error, not_found, is_not_found, is_empty, if◌then◌else◌, ◌>>=◌, attempt, ◌==◌, [],
}
use go_m_layer.External.{Bytes}

pub record KeyValue : Type 1 where
  pub Store : Type 0
  pub Txn : Type 0
  -- datastore.NewKey, which cleans a path
  pub new_key : Str → Str
  -- Get, Put, and Query with a prefix, a limit and an offset, on a store
  pub get : Str → Store → Outcome Bytes
  pub put : Str → Bytes → Store → Outcome Store
  pub prefixed : Str → ℕ → ℕ → Store → Outcome (List (Str × Bytes))
  -- Get and Value of a Badger transaction that only reads; a value that is read as nil is none
  pub view : Str → Store → Outcome (Option Bytes)
  -- NewTransaction, the operations of a transaction, and its Commit to a store
  pub begin : Store → Outcome Txn
  pub txn_get : Str → Txn → Outcome Bytes
  pub txn_put : Str → Bytes → Txn → Outcome Txn
  pub txn_delete : Str → Txn → Outcome Txn
  pub txn_prefixed : Str → ℕ → ℕ → Txn → Outcome (List (Str × Bytes))
  pub commit : Txn → Store → Outcome Store

-- What the documentation of both promises: a transaction reads its own writes, and a commit stores
-- what the transaction reads: under the keys that it has written, and under all where nothing else was
-- stored since it began.
pub record KeyValueLaws ⦃kv : KeyValue⦄ : Type 1 where
  -- the transactions that have been begun on a store
  pub Of : kv.Store → kv.Txn → Type 0
  pub Of-begin : (s : kv.Store) (t : kv.Txn) → kv.begin s ≡ ok t → Of s t
  pub Of-put :
      (key : Str) (value : Bytes) (s : kv.Store) (t u : kv.Txn)
      → Of s t
      → kv.txn_put key value t ≡ ok u
      → Of s u
  pub get-commit_of :
      (key : Str) (s r : kv.Store) (t : kv.Txn)
      → Of s t
      → kv.commit t s ≡ ok r
      → kv.get key r ≡ kv.txn_get key t
  pub view-get :
      (key : Str) (value : Bytes) (s : kv.Store)
      → kv.get key s ≡ ok value
      → is_empty value ≡ false
      → kv.view key s ≡ ok (some value)
  pub get-put :
      (key : Str) (value : Bytes) (t u : kv.Txn)
      → kv.txn_put key value t ≡ ok u
      → kv.txn_get key u ≡ ok value
  pub get-put_other :
      (key other : Str) (value : Bytes) (t u : kv.Txn)
      → other ≢ key
      → kv.txn_put key value t ≡ ok u
      → kv.txn_get other u ≡ kv.txn_get other t
  pub get-delete :
      (key : Str) (t u : kv.Txn) → kv.txn_delete key t ≡ ok u → kv.txn_get key u ≡ fail not_found
  pub get-delete_other :
      (key other : Str) (t u : kv.Txn)
      → other ≢ key
      → kv.txn_delete key t ≡ ok u
      → kv.txn_get other u ≡ kv.txn_get other t
  pub get-begin :
      (key : Str) (s : kv.Store) (t : kv.Txn) → kv.begin s ≡ ok t → kv.txn_get key t ≡ kv.get key s
  pub get-commit :
      (key : Str) (value : Bytes) (s r : kv.Store) (t u : kv.Txn)
      → kv.txn_put key value t ≡ ok u
      → kv.commit u s ≡ ok r
      → kv.get key r ≡ ok value
  pub store-get-put :
      (key : Str) (value : Bytes) (s r : kv.Store)
      → kv.put key value s ≡ ok r
      → kv.get key r ≡ ok value

-- The value that a Get answers, if the key is found; its other errors end the caller.
unfoldable pub found : Outcome Bytes → Outcome (Option Bytes)
found (ok b) = ok (some b)
found (fail e) = if is_not_found (some e) then ok none else fail e
found panic = panic

-- QueryLimit; a limit of zero is none.
pub record QueryLimit : Type 0 where
  pub limit : ℕ
  pub offset : ℕ

abbrev pub default_query_limit : QueryLimit
default_query_limit = record { limit = 100; offset = 0 }

unfoldable pub limits_or : QueryLimit → Option QueryLimit → QueryLimit
limits_or default none = default
limits_or default (some l) = l

-- The loops over the entries of a query leave out each entry whose state cannot be read.
unfoldable pub collect {ℓ} :
    {A : Type ℓ} → (Str × Bytes → Outcome A) → List (Str × Bytes) → Outcome (List A)
collect read_entry [] = ok []
collect read_entry (entry ∷ entries) =
    let rest = collect read_entry entries in
    attempt (read_entry entry) (λ a. rest >>= λ others. ok (a ∷ others)) (λ e. rest)

-- keyString[len(keyString)-1]; Split gives one part at least.
unfoldable pub last_part : List Str → Str
last_part [] = []
last_part (p ∷ []) = p
last_part (p ∷ q ∷ ps) = last_part (q ∷ ps)

-- The text after the last slash, if there is one.
unfoldable pub after_last_slash : Str → Option Str
after_last_slash [] = none
after_last_slash (c ∷ rest) = last_or c rest (after_last_slash rest)
  where
    last_or : ℕ → Str → Option Str → Option Str
    last_or c rest (some later) = some later
    last_or c rest none = if c == 47 then some rest else none

module _ ⦃kv : KeyValue⦄ where
  open kv use {Store, Txn, begin, commit, new_key, txn_get, txn_put, txn_delete, txn_prefixed}

  -- What a function does that is given no transaction: it begins one of its own and commits it.
  unfoldable pub own_txn : (Txn → Outcome Txn) → Store → Outcome Store
  own_txn body s = do t ← begin s; u ← body t; commit u s

  unfoldable pub read : Str → Txn → Outcome (Option Bytes)
  unfolding found
  read key t = found (txn_get (new_key key) t)

  -- A Query whose error the caller takes for an empty answer when nothing is found: it then reads a
  -- nil result.
  unfoldable pub txn_entries : Str → Txn → Outcome (List (Str × Bytes))
  txn_entries prefix t =
      attempt (txn_prefixed prefix 0 0 t) (λ entries. ok entries)
        λ e. if is_not_found (some e) then panic else fail e

  -- txn.Delete, whose error the caller drops
  unfoldable pub try_delete : Str → Txn → Outcome Txn
  try_delete key t = attempt (txn_delete (new_key key) t) (λ u. ok u) (λ e. ok t)

  unfoldable pub delete_entries : List (Str × Bytes) → Txn → Outcome Txn
  unfolding try_delete
  delete_entries [] t = ok t
  delete_entries (entry ∷ entries) t = do u ← try_delete entry.0 t; delete_entries entries u

  abbrev pub write : Str → Bytes → Txn → Outcome Txn
  write key value t = txn_put (new_key key) value t
