-- ===== src/Rewards/Recount/Filled.antt =====
-- The boundaries of a batch that generateBatch has filled.
use go_m_layer.Prelude.{
  ℕ, ◌+◌, ◌≤◌, ◌<◌, ◌≡◌, refl, sym, ap, subst, ◌∙◌, arith, Bool, true, false, ◌||◌, List, [], ◌∷◌,
  ◌++◌, Str, length, leb, ◌==◌, if◌then◌else◌, Bool-cases, true-not-false, inl, inr, Outcome, ok,
  ◌>>=◌, >>=-ok, ok_inj, Ensures, Ensures-result, Ensures->>=, Ensures-ok,
}
use go_m_layer.External.{External, Bytes}
use go_m_layer.Encoding.{big_number}
use go_m_layer.Rewards.{
  SubnetCount, RewardBatch, close_batch, lower_set, Tally, tally, append, append_until_closed,
  max_batch_size, to_uint256, subnet_total, new_total, encoded_count, tally_of, with_cost,
  first_count, last_count,
}
use go_m_layer.Rewards.Recount.{
  if_both, Same, ended, ended-Same, with_tally, tallied, append-ok, append-open, append-progress,
  remaining, lower_set-counts, lower_set-cycle_size, tallied-length,
}

unfoldable pub subnets : List SubnetCount → List Str
subnets [] = []
subnets (c ∷ cs) = c.subnet ∷ subnets cs

subnets-append : (l m : List SubnetCount) → subnets (l ++ m) ≡ subnets l ++ subnets m
unfolding subnets
subnets-append [] m = refl
subnets-append (c ∷ l) m = ap (λ t. c.subnet ∷ t) (subnets-append l m)

append_assoc : (l m k : List Str) → (l ++ m) ++ k ≡ l ++ (m ++ k)
append_assoc [] m k = refl
append_assoc (s ∷ l) m k = ap (λ t. s ∷ t) (append_assoc l m k)

head_or : Str → List Str → Str
head_or d [] = d
head_or d (s ∷ l) = s

tail_or : List Str → List Str
tail_or [] = []
tail_or (s ∷ l) = l

last_subnet :
    (c d : SubnetCount) (l m : List SubnetCount)
    → c.subnet ≡ d.subnet
    → subnets l ≡ subnets m
    → (last_count c l).subnet ≡ (last_count d m).subnet
unfolding last_count subnets head_or tail_or
last_subnet c d [] [] h k = h
last_subnet c d (a ∷ l) (b ∷ m) h k = last_subnet a b l m (ap (head_or c.subnet) k) (ap tail_or k)
last_subnet c d [] (b ∷ m) h k = cc
last_subnet c d (a ∷ l) [] h k = cc

pub first_of :
    (x c : SubnetCount) (l cs : List SubnetCount)
    → subnets l ≡ subnets (c ∷ cs)
    → (first_count x l).subnet ≡ c.subnet
unfolding first_count subnets head_or
first_of x c [] cs h = cc
first_of x c (d ∷ l) cs h = ap (head_or c.subnet) h

pub last_of :
    (x c : SubnetCount) (l cs : List SubnetCount)
    → subnets l ≡ subnets (c ∷ cs)
    → (last_count x l).subnet ≡ (last_count c cs).subnet
unfolding last_count subnets head_or tail_or
last_of x c [] cs h = cc
last_of x c (d ∷ l) cs h = last_subnet d c l cs (ap (head_or c.subnet) h) (ap tail_or h)

unfoldable pub Lower : RewardBatch → Type 0
Lower b = b.lower_boundary ≡ first_count b.lower_boundary b.counts

unfoldable pub Upper : RewardBatch → Type 0
Upper b = b.upper_boundary ≡ last_count b.upper_boundary b.counts

first_count_again :
    (c : SubnetCount) (l : List SubnetCount) → first_count c l ≡ first_count (first_count c l) l
unfolding first_count
first_count_again c [] = refl
first_count_again c (d ∷ l) = refl

last_count_again :
    (c : SubnetCount) (l : List SubnetCount) → last_count c l ≡ last_count (last_count c l) l
unfolding last_count
last_count_again c [] = refl
last_count_again c (d ∷ l) = refl

first_count_kept :
    (c d : SubnetCount) (old l : List SubnetCount)
    → l ≡ old ++ (d ∷ [])
    → c ≡ first_count c old
    → (length l == 1) ≡ false
    → c ≡ first_count c l
unfolding first_count
first_count_kept c d [] l h k f = absurd (true-not-false (sym (ap (λ m. length m == 1) h) ∙ f))
first_count_kept c d (a ∷ old) l h k f = k ∙ sym (ap (first_count c) h)

lower_set-Lower :
    (b : RewardBatch) (d : SubnetCount) (old : List SubnetCount)
    → b.counts ≡ old ++ (d ∷ [])
    → b.lower_boundary ≡ first_count b.lower_boundary old
    → Lower (lower_set b)
unfolding Lower lower_set
lower_set-Lower b d old h k = elim (Bool-cases (length b.counts == 1)) [
  | inl t ↦ rw t (first_count_again b.lower_boundary b.counts)
  | inr f ↦ rw f (first_count_kept b.lower_boundary d old b.counts h k f)
]

close_batch-Lower : (b : RewardBatch) → Lower b → Lower (close_batch b)
unfolding Lower close_batch
close_batch-Lower b h =
    if_both Lower (leb max_batch_size (length b.counts) || (length b.counts == b.cycle_size)) _ b h
      h

or_right : (a b : Bool) → b ≡ true → (a || b) ≡ true
or_right true b h = refl
or_right false b h = h

close_batch-Upper :
    (b : RewardBatch) → (length b.counts == b.cycle_size) ≡ true → Upper (close_batch b)
unfolding Upper close_batch
close_batch-Upper b h =
    rw (or_right (leb max_batch_size (length b.counts)) (length b.counts == b.cycle_size) h)
      (last_count_again b.upper_boundary b.counts)

append_nil : (l : List Str) → l ≡ l ++ []
append_nil [] = refl
append_nil (s ∷ l) = ap (λ t. s ∷ t) (append_nil l)

eq-equal : (m n : ℕ) → m ≡ n → (m == n) ≡ true
eq-equal m n h = ground (arith, h)

module _ ⦃x : External⦄ (beyond : Bytes → Outcome Bytes) where
  Extends : List SubnetCount → SubnetCount → Tally → Type 0
  Extends old c t = (d : SubnetCount) × (t.counts ≡ old ++ (d ∷ [])) × (d.subnet ≡ c.subnet)

  with_cost-Extends :
      (c : SubnetCount) (price : ℕ) (counts : List SubnetCount) (hash total cost : Bytes)
      → Ensures (Extends counts c) (with_cost beyond c price counts hash total cost)
  unfolding with_cost Extends tally_of
  with_cost-Extends c price counts hash total cost =
      let d = record c { cost = cost } in
      Ensures->>= (Extends counts c) (encoded_count beyond d)
        (λ encoded. to_uint256 (new_total c.event_count price (big_number total)) >>= λ sum.
          ok (tally_of beyond d counts hash encoded sum))
        λ encoded _.
          Ensures->>= (Extends counts c)
            (to_uint256 (new_total c.event_count price (big_number total)))
            (λ sum. ok (tally_of beyond d counts hash encoded sum))
            λ sum _.
              Ensures-ok (Extends counts c) (tally_of beyond d counts hash encoded sum)
                (d, refl, refl)

  tallied-Extends :
      (c : SubnetCount) (b : RewardBatch) (t : Tally)
      → tallied beyond c b ≡ ok t
      → Extends b.counts c t
  unfolding tallied tally
  tallied-Extends c b t h =
      let price = big_number b.message_cost in
      Ensures-result (Extends b.counts c) (tallied beyond c b) t
        (Ensures->>= (Extends b.counts c) (to_uint256 (subnet_total c.event_count price))
          (with_cost beyond c price b.counts b.data_hash b.total_value)
          λ cost _. with_cost-Extends c price b.counts b.data_hash b.total_value cost)
        h

  append-Lower :
      (c : SubnetCount) (a n : RewardBatch) → append beyond c a ≡ ok n → Lower a → Lower n
  unfolding Extends with_tally ended Lower
  append-Lower c a n e low =
      let (t, u, v) = append-ok beyond c a n e in
      let (d, same, _) = tallied-Extends c a t u in
      subst Lower v (
        close_batch-Lower (lower_set (with_tally t a))
          (lower_set-Lower (with_tally t a) d a.counts same low))

  append-subnets :
      (c : SubnetCount) (a n : RewardBatch)
      → append beyond c a ≡ ok n
      → subnets n.counts ≡ subnets a.counts ++ (c.subnet ∷ [])
  unfolding Extends with_tally Same subnets
  append-subnets c a n e =
      let (t, u, v) = append-ok beyond c a n e in
      let (d, same, named) = tallied-Extends c a t u in
      let (_, counts, _, _) = ended-Same (with_tally t a) in
      ap (λ z. subnets z.counts) (sym v)
      ∙ (ap subnets (counts ∙ same)
          ∙ (subnets-append a.counts (d ∷ []) ∙ ap (λ s. subnets a.counts ++ (s ∷ [])) named))

  append-message_cost :
      (c : SubnetCount) (a n : RewardBatch)
      → append beyond c a ≡ ok n
      → n.message_cost ≡ a.message_cost
  unfolding with_tally Same
  append-message_cost c a n e =
      let (t, u, v) = append-ok beyond c a n e in
      let (cost, _, _, _) = ended-Same (with_tally t a) in ap (λ z. z.message_cost) (sym v) ∙ cost

  append-Upper :
      (c : SubnetCount) (a n : RewardBatch)
      → append beyond c a ≡ ok n
      → length a.counts + 1 ≡ a.cycle_size
      → Upper n
  unfolding with_tally ended
  append-Upper c a n e full =
      let (t, u, v) = append-ok beyond c a n e in
      subst Upper v (
        close_batch-Upper (lower_set (with_tally t a)) (
          eq-equal _ _ (
            lower_set-counts (with_tally t a)
            ∙ (tallied-length beyond c a t u
                ∙ (full ∙ sym (lower_set-cycle_size (with_tally t a)))))))

  unfoldable pub Filled : List SubnetCount → RewardBatch → RewardBatch → Type 0
  Filled cs a r =
      (subnets r.counts ≡ subnets a.counts ++ subnets cs)
      × Lower r
      × Upper r
      × (r.message_cost ≡ a.message_cost)

  -- A batch that is filled until its size of the cycle has all the counts and the boundaries.
  pub until_closed-Filled :
      (cs : List SubnetCount) (a r : RewardBatch)
      → Lower a
      → (length a.counts ≡ a.cycle_size → Upper a)
      → (0 < length cs → a.closed ≡ false)
      → length a.counts + length cs ≡ a.cycle_size
      → length a.counts + length cs ≤ 100
      → append_until_closed beyond cs a ≡ ok r
      → Filled cs a r
  unfolding append_until_closed Filled subnets
  until_closed-Filled [] a r low up k l m e =
      subst (Filled [] a) (ok_inj e)
        (append_nil (subnets a.counts), low, up (omega (arith, l)), refl)
  until_closed-Filled (c ∷ cs) a r low up k l m e =
      let (n, eb, f) =
        >>=-ok (append beyond c a) (λ n. if n.closed then ok n else append_until_closed beyond cs n)
          r e in
      let (p, q) = append-progress beyond c a n eb in
      let opened : 0 < length cs → n.closed ≡ false =
        λ z. append-open beyond c a n eb (k (omega arith)) (omega (arith, m)) (omega (arith, l)) in
      let (s, lower, upper, cost) =
        until_closed-Filled cs n r (append-Lower c a n eb low)
          (λ z. append-Upper c a n eb (omega (arith, z, p, q))) opened (omega (arith, l, p, q))
          (omega (arith, m, p)) (remaining beyond cs n r opened f) in
      (
        s
            ∙ (ap (λ t. t ++ subnets cs) (append-subnets c a n eb)
                ∙ append_assoc (subnets a.counts) (c.subnet ∷ []) (subnets cs)),
        lower,
        upper,
        cost ∙ append-message_cost c a n eb,
      )
