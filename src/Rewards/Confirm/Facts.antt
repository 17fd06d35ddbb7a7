-- ===== src/Rewards/Confirm/Facts.antt =====
-- The batches of an honest validator are confirmed.
use go_m_layer.Prelude.{
  ℕ, ◌≤◌, ◌≡◌, refl, sym, ap, ◌∙◌, arith, true, not, none, List, ◌∷◌, Str, str_eq, str_eq_iff,
  str_eq_refl, length, leb, Outcome, ok,
}
use go_m_layer.External.{External, Bytes}
use go_m_layer.Entities.Ids.{ℤ}
use go_m_layer.Rewards.{
  SubnetCount, RewardBatch, new_reward_batch, clear, append_until_closed, append_all,
  get_proof_data, proof_data_hash, first_count, last_count,
}
use go_m_layer.Rewards.Recount.{generated-confirmed}
use go_m_layer.Rewards.Recount.Filled.{
  Filled, Lower, Upper, subnets, until_closed-Filled, first_of, last_of,
}
use go_m_layer.Rewards.Confirm.{
  confirm_batch, sent_batch, recounted, claim_refusal, array_32, compared,
}

equal_subnets : (s t : Str) → s ≡ t → not (str_eq s t) ≡ not true
equal_subnets s t h = ap not ((str_eq_iff s t).1 h)

module _ ⦃x : External⦄ (beyond : Bytes → Outcome Bytes) where
  recounted-none :
      (chain : Str) (real s : RewardBatch) (counts : List SubnetCount) (hash : Bytes)
      → append_all beyond counts (clear real) ≡ ok s
      → proof_data_hash (get_proof_data chain real) ≡ ok hash
      → s.data_hash ≡ real.data_hash
      → leb 32 (length real.data_hash) ≡ true
      → recounted beyond chain real counts ≡ ok none
  unfolding recounted claim_refusal array_32 compared
  recounted-none chain real s counts hash appended claimed same long =
      rw (appended, claimed, same, long, str_eq_refl) refl

  -- Where generateBatch fills a new batch from one to a hundred counts, the hash of its proof data can be
  -- computed, and the hash of its data has at least 32 bytes, a node that gets the batch as it is sent,
  -- without its counts, and that has the same counts in the same order, refuses nothing: the boundaries
  -- and the hash agree.
  pub generated-confirm_batch :
      (c : SubnetCount) (cs : List SubnetCount) (id : Str) (now : ℕ) (own_chain : Str) (cycle : ℕ)
      (index : ℤ) (cost : ℕ) (validator : Bytes) (r : RewardBatch) (chain : Str) (hash : Bytes)
      → length (c ∷ cs) ≤ 100
      → append_until_closed beyond
          (c ∷ cs)
          (new_reward_batch id now own_chain cycle index cost (length (c ∷ cs)) validator)
        ≡ ok r
      → proof_data_hash (get_proof_data chain r) ≡ ok hash
      → leb 32 (length r.data_hash) ≡ true
      → confirm_batch beyond chain (sent_batch r) (c ∷ cs) ≡ ok none
  unfolding confirm_batch sent_batch new_reward_batch Filled Lower Upper subnets get_proof_data
      first_count
  generated-confirm_batch c cs id now own_chain cycle index cost validator r chain hash h e claimed
        long =
      let b = new_reward_batch id now own_chain cycle index cost (length (c ∷ cs)) validator in
      let (named, lower, upper, priced) =
        until_closed-Filled beyond (c ∷ cs) b r refl (λ _. refl) (λ _. refl) (omega arith)
          (omega (arith, h)) e in
      let (s, appended, _, same, _) =
        generated-confirmed beyond (c ∷ cs) id now own_chain cycle index cost validator r
          (sent_batch r) h e priced in
      let first = sym (ap (λ z. z.subnet) lower ∙ first_of r.lower_boundary c r.counts cs named) in
      let last = sym (ap (λ z. z.subnet) upper ∙ last_of r.upper_boundary c r.counts cs named) in
      rw
        (
          equal_subnets c.subnet r.lower_boundary.subnet first,
          equal_subnets (last_count c cs).subnet r.upper_boundary.subnet last,
        )
        (recounted-none chain (sent_batch r) s (c ∷ cs) hash appended claimed same long)
