-- ===== src/Rewards/Confirm.antt =====
-- pkg/core/p2p/processor.go, the case P2pActionGetCommitment: how a node checks a batch that it is asked
-- to confirm against the counts that it has itself, and what it is sent (processSentryRewardBatch of
-- pkg/node/reward.go).
pub mod Facts
use go_m_layer.Prelude.{
  ℕ, Bool, true, false, not, Option, none, some, List, [], ◌∷◌, Str, str, str_eq, length, take, leb,
  if◌then◌else◌, Error, Outcome, ok, fail, panic, ◌>>=◌, error_string, attempt,
}
use go_m_layer.External.{External, Bytes}
use go_m_layer.Rewards.{
  SubnetCount, RewardBatch, clear, append_all, get_proof_data, proof_data_hash, last_count,
}

-- The copy that is sent has no counts, and msgpack leaves out the field cycleSize.
unfoldable pub sent_batch : RewardBatch → RewardBatch
sent_batch b = record b { counts = []; cycle_size = 0 }

-- The code and the error of a response.
pub record Refusal : Type 0 where
  pub code : ℕ
  pub error : Str

refusal : ℕ → Str → Option Refusal
refusal code error = some (record { code = code; error = error })

-- The conversion of a slice to an array of 32 bytes panics on a shorter slice.
array_32 : Bytes → Outcome Bytes
array_32 b = if leb 32 (length b) then ok (take 32 b) else panic

-- An error of the claim's hash is answered, if the hashes of the data agree.
compared : Option Refusal → Bool → Option Refusal
unfolding refusal
compared unclaimed same = if same then unclaimed else refusal 400 (str "Invalid batch hash")

module _ ⦃x : External⦄ (beyond : Bytes → Outcome Bytes) where
  claim_refusal : Str → RewardBatch → Outcome (Option Refusal)
  unfolding refusal
  claim_refusal chain real =
      attempt (proof_data_hash (get_proof_data chain real)) (λ hash. ok none)
        λ e. ok (refusal 500 (error_string e))

  -- The hash of the node's own counts against that of the batch.
  recounted : Str → RewardBatch → List SubnetCount → Outcome (Option Refusal)
  unfolding claim_refusal array_32 compared
  recounted chain real counts = do
    batch ← append_all beyond counts (clear real)
    unclaimed ← claim_refusal chain real
    mine ← array_32 batch.data_hash
    theirs ← array_32 real.data_hash
    ok (compared unclaimed (str_eq mine theirs))

  -- The refusal that is answered, if any; without one the node commits to a nonce.
  unfoldable pub confirm_batch : Str → RewardBatch → List SubnetCount → Outcome (Option Refusal)
  unfolding refusal recounted last_count
  confirm_batch chain real [] = ok (refusal 500 (str "empty list"))
  confirm_batch chain real (c ∷ cs) =
      if not (str_eq c.subnet real.lower_boundary.subnet)
      then ok (refusal 500 (str "upper data boundary dont match"))
      else if not (str_eq (last_count c cs).subnet real.upper_boundary.subnet)
      then ok (refusal 500 (str "lower data boundary dont match"))
      else recounted chain real (c ∷ cs)
