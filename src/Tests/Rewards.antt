-- ===== src/Tests/Rewards.antt =====
-- A batch of two subnets, and the node that confirms it from its own counts.
use go_m_layer.Prelude.{
  none, decimal, List, [], ◌∷◌, str, length, Outcome, ok, panic, ◌≡◌, ◌≤◌, refl, arith,
}
use go_m_layer.External.{Bytes}
use go_m_layer.Encoding.{big_bytes, big_number, encode_bytes, encode_param}
use go_m_layer.Entities.Ids.{pos}
use go_m_layer.Entities.Records.{uuid_to_bytes}
use go_m_layer.Rewards.{
  SubnetCount, RewardBatch, new_reward_batch, append_until_closed, to_uint256, subnet_count_bytes,
  max_batch_size, proof_data_hash, get_proof_data,
}
use go_m_layer.Rewards.Confirm.{confirm_batch, sent_batch}
use go_m_layer.Rewards.Confirm.Facts.{generated-confirm_batch}
use go_m_layer.Entities.Wire.{chain_id_bytes}
use go_m_layer.Rewards.Bound.{generated-size}
use go_m_layer.Tests.Data.{plain}

no_more : Bytes → Outcome Bytes
no_more b = panic

two_counts : List SubnetCount
two_counts =
    record { subnet = str "000102030405060708090a0b0c0d0e0f"; event_count = 3; cost = [] }
    ∷ record { subnet = str "101102030405060708090a0b0c0d0e0f"; event_count = 2; cost = [] }
    ∷ []

fresh_batch : RewardBatch
unfolding two_counts
fresh_batch = new_reward_batch (str "ab") 7 (str "1") 4 (pos 1) 5 (length two_counts) []

batch_of : Outcome RewardBatch → RewardBatch
unfolding fresh_batch
batch_of (ok r) = r
batch_of _ = fresh_batch

claimed_batch : RewardBatch
unfolding two_counts fresh_batch no_more batch_of
claimed_batch = batch_of (append_until_closed no_more two_counts fresh_batch)

first_counted : SubnetCount
first_counted = record {
  subnet = str "000102030405060708090a0b0c0d0e0f";
  event_count = 3;
  cost = [];
}

second_counted : SubnetCount
second_counted = record {
  subnet = str "101102030405060708090a0b0c0d0e0f";
  event_count = 2;
  cost = [];
}

hash_or : Outcome Bytes → Bytes
hash_or (ok b) = b
hash_or _ = []

claim_hash : Bytes
unfolding hash_or claimed_batch
claim_hash = hash_or (proof_data_hash (get_proof_data (str "1") claimed_batch))

generated-confirm_batch_example :
    confirm_batch no_more (str "1") (sent_batch claimed_batch) (first_counted ∷ second_counted ∷ [])
    ≡ ok none
unfolding two_counts fresh_batch no_more claimed_batch batch_of new_reward_batch append_until_closed
    to_uint256 big_bytes big_number subnet_count_bytes uuid_to_bytes encode_bytes encode_param
    first_counted second_counted hash_or claim_hash proof_data_hash get_proof_data chain_id_bytes
    decimal
generated-confirm_batch_example =
    generated-confirm_batch no_more first_counted (second_counted ∷ []) (str "ab") 7 (str "1") 4
      (pos 1) 5 [] claimed_batch (str "1") claim_hash (omega arith) refl refl refl

generated-size_example : length claimed_batch.counts ≤ max_batch_size
unfolding two_counts fresh_batch no_more claimed_batch batch_of new_reward_batch append_until_closed
    to_uint256 big_bytes big_number subnet_count_bytes uuid_to_bytes encode_bytes encode_param
generated-size_example =
    generated-size no_more two_counts (str "ab") 7 (str "1") 4 (pos 1) 5 2 [] claimed_batch refl
