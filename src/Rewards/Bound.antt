-- ===== src/Rewards/Bound.antt =====
-- The size of the batches that generateBatch of pkg/node/reward.go fills.
use go_m_layer.Prelude.{
  ℕ, ◌≤◌, ◌<◌, ◌≡◌, refl, sym, ◌∙◌, subst, arith, true, List, [], ◌∷◌, Str, length, if◌then◌else◌,
  Bool-cases, inl, inr, Outcome, ok, >>=-ok, ok_inj,
}
use go_m_layer.External.{External, Bytes}
use go_m_layer.Entities.Ids.{ℤ}
use go_m_layer.Rewards.{
  SubnetCount, RewardBatch, new_reward_batch, append, append_until_closed, max_batch_size,
}
use go_m_layer.Rewards.Recount.{append-progress, append-room}

stopped :
    (n : RewardBatch) (rest : Outcome RewardBatch)
    → n.closed ≡ true
    → (if n.closed then ok n else rest) ≡ ok n
stopped n rest t = rw t refl

module _ ⦃x : External⦄ (beyond : Bytes → Outcome Bytes) where
  until_closed-size :
      (cs : List SubnetCount) (a r : RewardBatch)
      → length a.counts < 100
      → append_until_closed beyond cs a ≡ ok r
      → length r.counts ≤ 100
  unfolding append_until_closed
  until_closed-size [] a r h e = subst (λ z. length z.counts ≤ 100) (ok_inj e) (omega (arith, h))
  until_closed-size (c ∷ cs) a r h e =
      let (n, eb, f) =
        >>=-ok (append beyond c a) (λ n. if n.closed then ok n else append_until_closed beyond cs n)
          r e in
      let (p, q) = append-progress beyond c a n eb in
      elim (Bool-cases n.closed) [
        | inl t ↦
            subst (λ z. length z.counts ≤ 100)
              (ok_inj (sym (stopped n (append_until_closed beyond cs n) t) ∙ f))
              (omega (arith, h, p))
        | inr g ↦ until_closed-size cs n r (append-room beyond c a n eb g) (sym (rw g refl) ∙ f)
      ]

  -- However many counts generateBatch gets, and whatever the size of the cycle is, the new batch that
  -- it fills has at most a hundred of them.
  pub generated-size :
      (cs : List SubnetCount) (id : Str) (now : ℕ) (chain : Str) (cycle : ℕ) (index : ℤ)
      (cost cycle_size : ℕ) (validator : Bytes) (r : RewardBatch)
      → append_until_closed beyond cs
          (new_reward_batch id now chain cycle index cost cycle_size validator)
        ≡ ok r
      → length r.counts ≤ max_batch_size
  unfolding new_reward_batch
  generated-size cs id now chain cycle index cost cycle_size validator r e =
      until_closed-size cs (new_reward_batch id now chain cycle index cost cycle_size validator) r
        (omega arith) e
