-- ===== src/Store/Counters.antt =====
-- The counters of internal/ds/query: event.go, stats.go and, for accounts, query.go.
pub mod Facts
pub mod Accounts
use go_m_layer.Prelude.{
  ℕ, zero, suc, ◌+◌, ◌*◌, ◌%◌, ◌^◌, Bool, true, false, not, Option, none, some, List, [], ◌∷◌, ◌++◌,
  Str, str, is_empty, str_eq, padded, length, ltb, if◌then◌else◌, Error, Outcome, ok, fail, panic,
  is_not_found, attempt, ◌>>=◌,
}
use go_m_layer.External.{Bytes}
use go_m_layer.Encoding.{big_bytes, big_number}
use go_m_layer.Entities.Ids.{EntityModel, model_text}
use go_m_layer.Entities.Records.{Event}
use go_m_layer.Entities.Keys.{
  ◌⟋◌, network_counter_key, cycle_counter_key, cycle_subnet_key, block_stats_keys, recent_event_key,
}
use go_m_layer.Store.KeyValue.{KeyValue, found, read, write}

unfoldable pub raised : ℕ → Option Bytes → ℕ
unfolding big_number
raised delta none = delta
raised delta (some old) = big_number old + delta

-- The answer of a Get of a count: zero where there is none; Uint64 keeps the low 64 bits.
unfoldable pub counted : Option Bytes → ℕ
unfolding big_number
counted none = 0
counted (some b) = big_number b % 2 ^ 64

-- BlockStatsQuery
pub record BlockStatsQuery : Type 0 where
  pub cycle : Option ℕ
  pub epoch : Option ℕ
  pub block : Option ℕ
  pub event_type : Option EntityModel

-- The key of GetStats. Where nothing is given it prints a nil block.
unfoldable pub stats_key : BlockStatsQuery → Outcome Str
unfolding model_text
stats_key q = elim q.block [
  | some b ↦ (elim q.event_type [
    | some m ↦ ok (str "b" ⟋ padded 15 b ⟋ model_text m)
    | none ↦ ok (str "b" ⟋ padded 15 b)
  ])
  | none ↦ (elim q.cycle [
    | some c ↦ ok (str "c" ⟋ padded 15 c)
    | none ↦ (elim q.epoch [
      | some e ↦ ok (str "e" ⟋ padded 15 e)
      | none ↦ (elim q.event_type [ some m ↦ ok (str "m") | none ↦ panic ])
    ])
  ])
]

-- The keys that IncrementCounters collects.
unfoldable pub counter_keys : ℕ → Str → Str → Outcome (List Str)
unfolding network_counter_key cycle_counter_key cycle_subnet_key
counter_keys cycle validator subnet = do
  validator_key ← cycle_counter_key cycle (some validator) (some false) none
  let last =
      if ltb 0 (length subnet)
      then network_counter_key (some subnet)
      else cycle_subnet_key cycle subnet
  ok (network_counter_key none ∷ validator_key ∷ last ∷ [])

module _ ⦃kv : KeyValue⦄ where
  open kv use {Store, Txn, new_key, get, put, begin, commit, txn_get, txn_put}

  -- IncrementCounterByKey, in a transaction that is given
  unfoldable pub increment_counter_by_key : Str → ℕ → Txn → Outcome Txn
  unfolding read raised big_bytes
  increment_counter_by_key key delta t = do
    old ← read key t
    write key (big_bytes (raised delta old)) t

  -- The loop of IncrementCounters and, less the key of the most recent event, of IncrementStats
  unfoldable pub increment_each : List Str → Txn → Outcome Txn
  unfolding increment_counter_by_key
  increment_each [] t = ok t
  increment_each (key ∷ keys) t = do u ← increment_counter_by_key key 1 t; increment_each keys u

  -- IncrementCounters, in a transaction that is given
  unfoldable pub increment_counters : ℕ → Str → Str → Txn → Outcome Txn
  unfolding increment_each counter_keys
  increment_counters cycle validator subnet t = do
    keys ← counter_keys cycle validator subnet
    increment_each keys t

  increment_stat : Event → Str → Txn → Outcome Txn
  unfolding increment_counter_by_key recent_event_key
  increment_stat e key t =
      if str_eq key (recent_event_key e.cycle)
      then write key e.id t
      else increment_counter_by_key key 1 t

  each_stat : Event → List Str → Txn → Outcome Txn
  unfolding increment_stat
  each_stat e [] t = ok t
  each_stat e (key ∷ keys) t = do u ← increment_stat e key t; each_stat e keys u

  -- IncrementStats, in a transaction that is given
  unfoldable pub increment_stats : Event → Txn → Outcome Txn
  unfolding each_stat block_stats_keys
  increment_stats e t = each_stat e (block_stats_keys e) t

  -- GetStats: the count that is stored, zero where there is none.
  unfoldable pub get_stats : BlockStatsQuery → Store → Outcome ℕ
  unfolding stats_key found counted
  get_stats q s = do key ← stats_key q; stored ← found (get (new_key key) s); ok (counted stored)

  -- GetCycleRecentEvent: the empty text on any error
  unfoldable pub get_cycle_recent_event : ℕ → Store → Outcome Str
  unfolding recent_event_key
  get_cycle_recent_event cycle s =
      attempt (get (new_key (recent_event_key cycle)) s) (λ b. ok b) (λ e. ok [])

  -- GetNumAccounts
  unfoldable pub get_num_accounts : Store → Outcome ℕ
  unfolding found counted
  get_num_accounts system = do
    stored ← found (get (new_key (str "numAcc")) system)
    ok (counted stored)

  -- What UpdateAccountCounter leaves in the two stores, and its results.
  pub record AccountCount : Type 0 where
    pub system : Store
    pub network_stats : Store
    pub count : ℕ
    pub error : Option Error

  count_unchanged : Store → Store → ℕ → Option Error → Outcome AccountCount
  count_unchanged system stats n e =
      ok (record { system = system; network_stats = stats; count = n; error = e })

  -- The mark of a new account is stored at once, its count with the commit.
  mark_account : Store → Store → Str → ℕ → Txn → Outcome AccountCount
  unfolding count_unchanged
  mark_account system stats account n t =
      attempt (put (new_key (str "acc" ⟋ account)) [] stats)
        (λ marked.
          attempt (commit t system)
            (λ counted_system. count_unchanged counted_system marked ((n + 1) % 2 ^ 64) none)
            (λ e. count_unchanged system marked n (some e)))
        (λ e. count_unchanged system stats 0 (some e))

  count_new : Store → Store → Str → ℕ → Txn → Outcome AccountCount
  unfolding count_unchanged mark_account big_bytes
  count_new system stats account n t =
      attempt (txn_put (new_key (str "numAcc")) (big_bytes ((n + 1) % 2 ^ 64)) t)
        (λ u. mark_account system stats account n u) (λ e. count_unchanged system stats n (some e))

  count_account : Store → Store → Str → ℕ → Txn → Outcome AccountCount
  unfolding count_unchanged count_new
  count_account system stats account n t =
      attempt (get (new_key (str "acc" ⟋ account)) stats) (λ b. count_unchanged system stats n none)
        λ missing.
          if is_not_found (some missing)
          then count_new system stats account n t
          else count_unchanged system stats n (some missing)

  -- UpdateAccountCounter
  unfoldable pub update_account_counter : Str → Store → Store → Outcome AccountCount
  unfolding count_account count_unchanged read counted found
  update_account_counter account system stats =
      attempt (begin system)
        (λ t.
          attempt (read (str "numAcc") t)
            (λ stored. count_account system stats account (counted stored) t)
            (λ e. count_unchanged system stats 0 (some e)))
        (λ e. count_unchanged system stats 0 (some e))
