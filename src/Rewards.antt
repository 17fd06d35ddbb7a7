-- ===== src/Rewards.antt =====
-- entities/reward.go: the batches of subnet counts for which a validator claims its reward, and the
-- two loops that fill them, in generateBatch of pkg/node/reward.go and, for a node that is asked to
-- confirm a batch, in pkg/core/p2p/processor.go.
pub mod Recount
pub mod Bound
pub mod Confirm
use go_m_layer.Prelude.{
  ℕ, suc, ◌+◌, ◌-◌, ◌*◌, ◌^◌, Bool, true, false, ◌||◌, List, [], ◌∷◌, ◌++◌, Str, str, decimal,
  length, take, replicate, if◌then◌else◌, ltb, leb, ◌==◌, Outcome, ok, fail, panic, ◌>>=◌, attempt,
}
use go_m_layer.External.{External, Bytes}
use go_m_layer.Encoding.{byte, string, int, encode_bytes, big_bytes, big_number}
use go_m_layer.Entities.Ids.{ℤ, pos, negsuc}
use go_m_layer.Entities.Records.{uuid_to_bytes}
use go_m_layer.Entities.Wire.{chain_id_bytes, print_int}

pub record SubnetCount : Type 0 where
  pub subnet : Str
  pub event_count : ℕ
  pub cost : Bytes

no_count : SubnetCount
no_count = record { subnet = []; event_count = 0; cost = [] }

-- `counts` is the field Data. The configuration, which only NewRewardBatch sets, is left out.
pub record RewardBatch : Type 0 where
  pub id : Str
  pub index : ℤ
  pub counts : List SubnetCount
  pub lower_boundary : SubnetCount
  pub upper_boundary : SubnetCount
  pub data_hash : Bytes
  pub chain_id : Str
  pub closed : Bool
  pub cycle : ℕ
  pub message_cost : Bytes
  pub total_value : Bytes
  pub timestamp : ℕ
  pub validator : Bytes
  pub cycle_size : ℕ

-- The fields that GetProofData gives and the hash reads.
pub record ProofData : Type 0 where
  pub data_hash : Bytes
  pub chain_id : Str
  pub cycle : ℕ
  pub index : ℤ
  pub validator : Bytes
  pub total_cost : Bytes

abbrev pub max_batch_size : ℕ
max_batch_size = 100

-- utils.ToUint256 of the absolute value: FillBytes panics on a number of more than 32 bytes.
unfoldable pub to_uint256 : ℕ → Outcome Bytes
to_uint256 n =
    let b = big_bytes n in
    if leb (length b) 32 then ok (replicate (32 - length b) 0 ++ b) else panic

-- |int64(count)| * cost; from 2^63 on, the count is read as a negative number.
subnet_total : ℕ → ℕ → ℕ
subnet_total count cost = if ltb count (2 ^ 63) then count * cost else (2 ^ 64 - count) * cost

-- |total + int64(count) * cost|
new_total : ℕ → ℕ → ℕ → ℕ
unfolding subnet_total
new_total count cost total =
    let t = subnet_total count cost in
    if ltb count (2 ^ 63) then total + t else (total - t) + (t - total)

unfoldable pub last_count : SubnetCount → List SubnetCount → SubnetCount
last_count c [] = c
last_count c (d ∷ ds) = last_count d ds

unfoldable pub first_count : SubnetCount → List SubnetCount → SubnetCount
first_count c [] = c
first_count c (d ∷ ds) = d

hash_before : List SubnetCount → Bytes → Bytes
hash_before [] h = []
hash_before (c ∷ cs) h = h

-- id, now: what utils.RandomHexString(32) and time.Now().UnixMilli() give
unfoldable pub new_reward_batch : Str → ℕ → Str → ℕ → ℤ → ℕ → ℕ → Bytes → RewardBatch
unfolding no_count
new_reward_batch id now chain cycle index cost cycle_size validator = record {
  id = id;
  index = index;
  counts = [];
  lower_boundary = no_count;
  upper_boundary = no_count;
  data_hash = [];
  chain_id = chain;
  closed = false;
  cycle = cycle;
  message_cost = big_bytes cost;
  total_value = [];
  timestamp = now;
  validator = validator;
  cycle_size = cycle_size;
}

-- RewardBatch.Clear
unfoldable pub clear : RewardBatch → RewardBatch
clear b = record b { counts = []; total_value = []; data_hash = [] }

-- RewardBatch.GetProofData
unfoldable pub get_proof_data : Str → RewardBatch → ProofData
get_proof_data chain b = record {
  data_hash = b.data_hash;
  chain_id = chain;
  cycle = b.cycle;
  index = b.index;
  validator = b.validator;
  total_cost = b.total_value;
}

lower_set : RewardBatch → RewardBatch
unfolding first_count
lower_set b =
    if length b.counts == 1
    then record b { lower_boundary = first_count b.lower_boundary b.counts }
    else b

-- The end of Append: the boundaries, and whether the batch is closed.
close_batch : RewardBatch → RewardBatch
unfolding last_count
close_batch b =
    if leb max_batch_size (length b.counts) || (length b.counts == b.cycle_size)
    then record b { closed = true; upper_boundary = last_count b.upper_boundary b.counts }
    else b

-- What Append changes of the data, the hash and the total.
record Tally : Type 0 where
  counts : List SubnetCount
  hash : Bytes
  total : Bytes

-- `beyond` is what the slice d[:6] gives on fewer than six bytes: Go reads on within the capacity of
-- the slice, or panics.
module _ ⦃x : External⦄ (beyond : Bytes → Outcome Bytes) where
  first_six : Bytes → Outcome Bytes
  first_six d = if leb 6 (length d) then ok (take 6 d) else beyond d

  -- SubnetCount.EncodeBytes
  unfoldable pub subnet_count_bytes : SubnetCount → Outcome Bytes
  unfolding first_six
  subnet_count_bytes c = do
    d ← first_six (uuid_to_bytes c.subnet)
    encode_bytes (byte d ∷ byte c.cost ∷ [])

  encoded_count : SubnetCount → Outcome Bytes
  encoded_count c = attempt (subnet_count_bytes c) (λ b. ok b) (λ e. panic)

  tally_of : SubnetCount → List SubnetCount → Bytes → Bytes → Bytes → Tally
  unfolding hash_before
  tally_of c counts hash encoded sum = record {
    counts = counts ++ (c ∷ []);
    hash = x.keccak256 (hash_before counts hash ++ encoded);
    total = sum;
  }

  with_cost : SubnetCount → ℕ → List SubnetCount → Bytes → Bytes → Bytes → Outcome Tally
  unfolding new_total
  with_cost c price counts hash total cost = do
    encoded ← encoded_count (record c { cost = cost })
    sum ← to_uint256 (new_total c.event_count price (big_number total))
    ok (tally_of (record c { cost = cost }) counts hash encoded sum)

  tally : SubnetCount → ℕ → List SubnetCount → Bytes → Bytes → Outcome Tally
  unfolding subnet_total
  tally c price counts hash total = do
    cost ← to_uint256 (subnet_total c.event_count price)
    with_cost c price counts hash total cost

  -- RewardBatch.Append
  unfoldable pub append : SubnetCount → RewardBatch → Outcome RewardBatch
  unfolding tally with_cost tally_of encoded_count close_batch lower_set
  append c b = do
    t ← tally c (big_number b.message_cost) b.counts b.data_hash b.total_value
    ok (
        close_batch
          (lower_set (record b { counts = t.counts; data_hash = t.hash; total_value = t.total })))

  -- The loop of generateBatch stops at a closed batch.
  unfoldable pub append_until_closed : List SubnetCount → RewardBatch → Outcome RewardBatch
  unfolding append
  append_until_closed [] b = ok b
  append_until_closed (c ∷ cs) b = do
    n ← append c b
    let rest = append_until_closed cs n in if n.closed then ok n else rest

  -- The loop of the node that confirms a batch appends all counts.
  unfoldable pub append_all : List SubnetCount → RewardBatch → Outcome RewardBatch
  append_all [] b = ok b
  append_all (c ∷ cs) b = do n ← append c b; append_all cs n

absolute : ℤ → ℕ
absolute (pos n) = n
absolute (negsuc n) = suc n

module _ ⦃x : External⦄ where
  -- RewardBatch.EncodeBytes
  unfoldable pub reward_batch_bytes : RewardBatch → Outcome Bytes
  reward_batch_bytes b = encode_bytes (
      byte (chain_id_bytes b.chain_id)
      ∷ int (decimal b.cycle)
      ∷ byte b.data_hash
      ∷ string b.id
      ∷ int (print_int b.index)
      ∷ int (decimal b.timestamp)
      ∷ byte b.total_value
      ∷ byte b.validator
      ∷ [])

  -- RewardBatch.GetHash, which also leaves the chain id in the batch
  unfoldable pub reward_batch_hash : Str → RewardBatch → Outcome Bytes
  unfolding reward_batch_bytes
  reward_batch_hash chain b = do
    bytes ← reward_batch_bytes (record b { chain_id = chain })
    ok (x.keccak256 bytes)

  -- ProofData.EncodeBytes
  unfoldable pub proof_data_bytes : ProofData → Outcome Bytes
  unfolding to_uint256 absolute
  proof_data_bytes p = do
    cycle ← to_uint256 p.cycle
    index ← to_uint256 (absolute p.index)
    encode_bytes (
        byte p.data_hash
        ∷ byte (chain_id_bytes p.chain_id)
        ∷ byte cycle
        ∷ byte index
        ∷ byte p.total_cost
        ∷ byte p.validator
        ∷ [])

  -- ProofData.GetHash
  unfoldable pub proof_data_hash : ProofData → Outcome Bytes
  unfolding proof_data_bytes
  proof_data_hash p = do bytes ← proof_data_bytes p; ok (x.keccak256 bytes)
