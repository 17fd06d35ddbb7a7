-- ===== src/Rewards/Recount.antt =====
-- The two loops of a reward batch, in generateBatch and in the node that confirms it, agree.
pub mod Filled
use go_m_layer.Prelude.{
  ℕ, ◌+◌, ◌≤◌, ◌<◌, ◌≡◌, refl, sym, ap, subst, ◌∙◌, arith, Bool, true, false, ◌||◌, List, [], ◌∷◌,
  Str, length, length-append, leb, ◌==◌, if◌then◌else◌, Bool-cases, true-not-false, inl, inr,
  Outcome, ok, ◌>>=◌, >>=-ok, ok_inj, Ensures, Ensures-result, Ensures->>=, Ensures-ok,
}
use go_m_layer.External.{External, Bytes}
use go_m_layer.Encoding.{big_bytes, big_number}
use go_m_layer.Entities.Ids.{ℤ}
use go_m_layer.Rewards.{
  SubnetCount, RewardBatch, new_reward_batch, clear, close_batch, lower_set, Tally, tally, append,
  append_until_closed, append_all, max_batch_size, to_uint256, subnet_total, new_total,
  encoded_count, tally_of, with_cost,
}

-- Two batches with the same cost of a message, counts, hash and total.
Same : RewardBatch → RewardBatch → Type 0
Same a b =
    (a.message_cost ≡ b.message_cost)
    × (a.counts ≡ b.counts)
    × (a.data_hash ≡ b.data_hash)
    × (a.total_value ≡ b.total_value)

if_both :
    (P : RewardBatch → Type 0) (c : Bool) (a b : RewardBatch) → P a → P b → P (if c then a else b)
if_both P true a b h k = h
if_both P false a b h k = k

lower_set-Same : (b : RewardBatch) → Same (lower_set b) b
unfolding Same lower_set
lower_set-Same b =
    if_both (λ z. Same z b) (length b.counts == 1) _ b (refl, refl, refl, refl)
      (refl, refl, refl, refl)

lower_set-closed : (b : RewardBatch) → (lower_set b).closed ≡ b.closed
unfolding lower_set
lower_set-closed b = if_both (λ z. z.closed ≡ b.closed) (length b.counts == 1) _ b refl refl

lower_set-cycle_size : (b : RewardBatch) → (lower_set b).cycle_size ≡ b.cycle_size
unfolding lower_set
lower_set-cycle_size b =
    if_both (λ z. z.cycle_size ≡ b.cycle_size) (length b.counts == 1) _ b refl refl

close_batch-Same : (b d : RewardBatch) → Same b d → Same (close_batch b) d
unfolding Same close_batch
close_batch-Same b d h =
    if_both (λ z. Same z d)
      (leb max_batch_size (length b.counts) || (length b.counts == b.cycle_size)) _ b h h

close_batch-cycle_size : (b : RewardBatch) → (close_batch b).cycle_size ≡ b.cycle_size
unfolding close_batch
close_batch-cycle_size b =
    if_both (λ z. z.cycle_size ≡ b.cycle_size)
      (leb max_batch_size (length b.counts) || (length b.counts == b.cycle_size)) _ b refl refl

not_full : (n : ℕ) → n < 100 → leb max_batch_size n ≡ false
not_full n h = ground arith

lt-not_equal : (n m : ℕ) → n < m → (n == m) ≡ false
lt-not_equal n m h = ground arith

close_batch-open :
    (b : RewardBatch)
    → length b.counts < 100
    → length b.counts < b.cycle_size
    → (close_batch b).closed ≡ b.closed
unfolding close_batch
close_batch-open b h k =
    rw (not_full (length b.counts) h) (rw (lt-not_equal (length b.counts) b.cycle_size k) refl)

ended : RewardBatch → RewardBatch
ended b = close_batch (lower_set b)

with_tally : Tally → RewardBatch → RewardBatch
with_tally t b = record b { counts = t.counts; data_hash = t.hash; total_value = t.total }

ended-Same : (b : RewardBatch) → Same (ended b) b
unfolding ended
ended-Same b = close_batch-Same (lower_set b) b (lower_set-Same b)

lower_set-counts : (b : RewardBatch) → length (lower_set b).counts ≡ length b.counts
unfolding Same
lower_set-counts b = let (p, q, r, s) = lower_set-Same b in ap (λ l. length l) q

close_batch-room : (b : RewardBatch) → (close_batch b).closed ≡ false → length b.counts < 100
unfolding close_batch
close_batch-room b h = elim (Bool-cases (leb max_batch_size (length b.counts))) [
  | inl t ↦ absurd (true-not-false (sym (rw t refl) ∙ h))
  | inr f ↦ ground (arith, f)
]

ended-room : (b : RewardBatch) → (ended b).closed ≡ false → length b.counts < 100
unfolding ended
ended-room b h = omega (arith, close_batch-room (lower_set b) h, lower_set-counts b)

ended-both :
    (t : Tally) (a b : RewardBatch)
    → Same a b
    → Same (ended (with_tally t a)) (ended (with_tally t b))
unfolding Same with_tally
ended-both t a b (e, _, _, _) =
    let (p, q, r, s) = ended-Same (with_tally t a) in
    let (p', q', r', s') = ended-Same (with_tally t b) in
    (p ∙ e ∙ sym p', q ∙ sym q', r ∙ sym r', s ∙ sym s')

ended-cycle_size : (b : RewardBatch) → (ended b).cycle_size ≡ b.cycle_size
unfolding ended
ended-cycle_size b = close_batch-cycle_size (lower_set b) ∙ lower_set-cycle_size b

ended-counts : (b : RewardBatch) → length (ended b).counts ≡ length b.counts
unfolding Same
ended-counts b = let (p, q, r, s) = ended-Same b in ap (λ l. length l) q

ended-open :
    (b : RewardBatch)
    → length b.counts < 100
    → length b.counts < b.cycle_size
    → (ended b).closed ≡ b.closed
unfolding ended
ended-open b h k =
    close_batch-open (lower_set b) (omega (arith, lower_set-counts b))
      (omega (arith, lower_set-counts b, lower_set-cycle_size b))
    ∙ lower_set-closed b

module _ ⦃x : External⦄ (beyond : Bytes → Outcome Bytes) where
  tallied : SubnetCount → RewardBatch → Outcome Tally
  tallied c b = tally beyond c (big_number b.message_cost) b.counts b.data_hash b.total_value

  append-ok :
      (c : SubnetCount) (b n : RewardBatch)
      → append beyond c b ≡ ok n
      → (t : Tally) × (tallied c b ≡ ok t) × (ended (with_tally t b) ≡ n)
  unfolding append tallied ended with_tally
  append-ok c b n h =
      let (t, e, k) = >>=-ok (tallied c b) (λ t. ok (ended (with_tally t b))) n h in
      (t, e, ok_inj k)

  append-of :
      (c : SubnetCount) (b : RewardBatch) (t : Tally)
      → tallied c b ≡ ok t
      → append beyond c b ≡ ok (ended (with_tally t b))
  unfolding append tallied ended with_tally
  append-of c b t h = ap (λ m. m >>= λ u. ok (ended (with_tally u b))) h

  Counted : ℕ → Tally → Type 0
  Counted n t = length t.counts ≡ n + 1

  with_cost-Counted :
      (c : SubnetCount) (price : ℕ) (counts : List SubnetCount) (hash total cost : Bytes)
      → Ensures (Counted (length counts)) (with_cost beyond c price counts hash total cost)
  unfolding with_cost Counted tally_of
  with_cost-Counted c price counts hash total cost =
      let d = record c { cost = cost } in
      Ensures->>= (Counted (length counts)) (encoded_count beyond d)
        (λ encoded. to_uint256 (new_total c.event_count price (big_number total)) >>= λ sum.
          ok (tally_of beyond d counts hash encoded sum))
        (λ encoded _.
          Ensures->>= (Counted (length counts))
            (to_uint256 (new_total c.event_count price (big_number total)))
            (λ sum. ok (tally_of beyond d counts hash encoded sum))
            (λ sum _.
              Ensures-ok (Counted (length counts)) (tally_of beyond d counts hash encoded sum)
                (length-append counts (d ∷ []))))

  tallied-length :
      (c : SubnetCount) (b : RewardBatch) (t : Tally)
      → tallied c b ≡ ok t
      → length t.counts ≡ length b.counts + 1
  unfolding tallied tally Counted
  tallied-length c b t h =
      let price = big_number b.message_cost in
      Ensures-result (Counted (length b.counts)) (tallied c b) t
        (Ensures->>= (Counted (length b.counts)) (to_uint256 (subnet_total c.event_count price))
          (with_cost beyond c price b.counts b.data_hash b.total_value)
          (λ cost _. with_cost-Counted c price b.counts b.data_hash b.total_value cost))
        h

  tallied-Same : (c : SubnetCount) (a b : RewardBatch) → Same a b → tallied c b ≡ tallied c a
  unfolding tallied Same
  tallied-Same c a b (p, q, r, s) = cc

  append-Same :
      (c : SubnetCount) (a b n : RewardBatch)
      → Same a b
      → append beyond c a ≡ ok n
      → (m : RewardBatch) × (append beyond c b ≡ ok m) × Same n m
  append-Same c a b n h e =
      let (t, k, l) = append-ok c a n e in
      (
        ended (with_tally t b),
        append-of c b t (tallied-Same c a b h ∙ k),
        subst (λ z. Same z (ended (with_tally t b))) l (ended-both t a b h),
      )

  append-open :
      (c : SubnetCount) (b n : RewardBatch)
      → append beyond c b ≡ ok n
      → b.closed ≡ false
      → length b.counts + 1 < 100
      → length b.counts + 1 < b.cycle_size
      → n.closed ≡ false
  unfolding with_tally
  append-open c b n e h k l =
      let (t, u, v) = append-ok c b n e in
      ap (λ z. z.closed) (sym v)
      ∙ ended-open (with_tally t b) (omega (arith, tallied-length c b t u))
          (omega (arith, tallied-length c b t u))
      ∙ h

  pub append-progress :
      (c : SubnetCount) (b n : RewardBatch)
      → append beyond c b ≡ ok n
      → (length n.counts ≡ length b.counts + 1) × (n.cycle_size ≡ b.cycle_size)
  unfolding with_tally
  append-progress c b n e =
      let (t, u, v) = append-ok c b n e in
      (
        ap (λ z. length z.counts) (sym v) ∙ ended-counts (with_tally t b) ∙ tallied-length c b t u,
        ap (λ z. z.cycle_size) (sym v) ∙ ended-cycle_size (with_tally t b),
      )

  -- A batch that an append leaves open has room for another count.
  pub append-room :
      (c : SubnetCount) (b n : RewardBatch)
      → append beyond c b ≡ ok n
      → n.closed ≡ false
      → length n.counts < 100
  unfolding with_tally
  append-room c b n e h =
      let (t, u, v) = append-ok c b n e in
      let (p, q) = append-progress c b n e in
      omega (
        arith,
        p,
        tallied-length c b t u,
        ended-room (with_tally t b) (subst (λ z. z.closed ≡ false) (sym v) h),
      )

  remaining :
      (cs : List SubnetCount) (n r : RewardBatch)
      → (0 < length cs → n.closed ≡ false)
      → (if n.closed then ok n else append_until_closed beyond cs n) ≡ ok r
      → append_until_closed beyond cs n ≡ ok r
  unfolding append_until_closed
  remaining [] n r h e = elim (Bool-cases n.closed) [
    | inl t ↦ sym (rw t refl) ∙ e
    | inr f ↦ sym (rw f refl) ∙ e
  ]
  remaining (c ∷ cs) n r h e = sym (rw (h (omega arith)) refl) ∙ e

  until_closed-all :
      (cs : List SubnetCount) (a b r : RewardBatch)
      → Same a b
      → (0 < length cs → a.closed ≡ false)
      → length a.counts + length cs ≤ a.cycle_size
      → length a.counts + length cs ≤ 100
      → append_until_closed beyond cs a ≡ ok r
      → (s : RewardBatch) × (append_all beyond cs b ≡ ok s) × Same r s
  unfolding append_until_closed append_all
  until_closed-all [] a b r h k l m e = (b, refl, subst (λ z. Same z b) (ok_inj e) h)
  until_closed-all (c ∷ cs) a b r h k l m e =
      let (n, eb, f) =
        >>=-ok (append beyond c a) (λ n. if n.closed then ok n else append_until_closed beyond cs n)
          r e in
      let (d, ed, sd) = append-Same c a b n h eb in
      let (p, q) = append-progress c a n eb in
      let opened : 0 < length cs → n.closed ≡ false =
        λ z. append-open c a n eb (k (omega arith)) (omega (arith, m)) (omega (arith, l)) in
      let (s, es, ss) =
        until_closed-all cs n d r sd opened (omega (arith, l, p, q)) (omega (arith, m, p))
          (remaining cs n r opened f) in
      (s, ap (λ o. o >>= λ n. append_all beyond cs n) ed ∙ es, ss)

  -- Where generateBatch fills a new batch from at most a hundred counts and does not panic, a node that
  -- has a batch of the same cost of a message, clears it and appends those counts in the same order, does
  -- not panic either, and gets the same counts, the same hash and the same total value, also if the size
  -- of the cycle in its batch is another.
  pub generated-confirmed :
      (cs : List SubnetCount) (id : Str) (now : ℕ) (chain : Str) (cycle : ℕ) (index : ℤ) (cost : ℕ)
      (validator : Bytes) (r q : RewardBatch)
      → length cs ≤ 100
      → append_until_closed beyond cs
          (new_reward_batch id now chain cycle index cost (length cs) validator)
        ≡ ok r
      → q.message_cost ≡ big_bytes cost
      → (s : RewardBatch) × (append_all beyond cs (clear q) ≡ ok s)
        × (s.counts ≡ r.counts)
        × (s.data_hash ≡ r.data_hash)
        × (s.total_value ≡ r.total_value)
  unfolding new_reward_batch clear Same
  generated-confirmed cs id now chain cycle index cost validator r q h e k =
      let b = new_reward_batch id now chain cycle index cost (length cs) validator in
      let (s, es, (_, u, v, w)) =
        until_closed-all cs b (clear q) r (sym k, refl, refl, refl) (λ _. refl) (omega arith)
          (omega (arith, h)) e in
      (s, es, sym u, sym v, sym w)
