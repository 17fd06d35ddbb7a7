-- ===== src/Store/Counters/Accounts.antt =====
-- UpdateAccountCounter counts an account once.
use go_m_layer.Prelude.{
  Option, fail, true, >>=-ok, ℕ, ◌+◌, ◌%◌, ◌^◌, ◌≡◌, refl, sym, ap, ◌∙◌, arith, none, some, [], Str,
  str, Error, ok, ok_inj, attempt-ok, ◌<◌, subst, inl, inr, is_not_found,
}
use go_m_layer.External.{Bytes}
use go_m_layer.Encoding.{big_bytes}
use go_m_layer.Encoding.BigNumber.{big_number-big_bytes}
use go_m_layer.Entities.Keys.{◌⟋◌}
use go_m_layer.Store.KeyValue.{KeyValue, KeyValueLaws, found, read}
use go_m_layer.Store.Counters.{
  AccountCount, counted, update_account_counter, count_account, count_new, count_unchanged,
  mark_account, get_num_accounts,
}

module _ ⦃kv : KeyValue⦄ where
  -- The stores hold the count, and the mark of the account.
  Fresh : Str → AccountCount → Type 0
  Fresh account r =
      (kv.get (kv.new_key (str "numAcc")) r.system ≡ ok (big_bytes r.count))
      × (kv.get (kv.new_key (str "acc" ⟋ account)) r.network_stats ≡ ok [])
      × (r.count < 2 ^ 64)

  no_error :
      (system stats : kv.Store) (n : ℕ) (e : Error) (r : AccountCount)
      → count_unchanged system stats n (some e) ≡ ok r
      → r.error ≡ none
      → ⊥
  unfolding count_unchanged
  no_error system stats n e r h none_left = cc (ap AccountCount.error (ok_inj h))

  counted-big_bytes : (n : ℕ) → n < 2 ^ 64 → counted (some (big_bytes n)) ≡ n
  unfolding counted
  counted-big_bytes n h = omega (arith, big_number-big_bytes n)

  -- A count that is unchanged has no error, and its stores and its number.
  no_error_left :
      (system stats : kv.Store) (n : ℕ) (r : AccountCount)
      → r.error ≡ none
      → r.system ≡ system
      → r.network_stats ≡ stats
      → r.count ≡ n
      → count_unchanged system stats n none ≡ ok r
  unfolding count_unchanged
  no_error_left system stats n r e es et ec = rw (sym es, sym et, sym ec, sym e) refl

module _ ⦃kv : KeyValue⦄ ⦃laws : KeyValueLaws⦄ where
  -- Once the count and the mark are stored, counting gives them back.
  update_account_counter-Fresh :
      (account : Str) (r : AccountCount) (t : kv.Txn)
      → Fresh account r
      → r.error ≡ none
      → kv.begin r.system ≡ ok t
      → update_account_counter account r.system r.network_stats ≡ ok r
  unfolding Fresh update_account_counter read found count_account
  update_account_counter-Fresh account r t (stored, marked, small) e began =
      rw
        (
          began,
          laws.get-begin (kv.new_key (str "numAcc")) r.system t began,
          stored,
          marked,
          counted-big_bytes r.count small,
        )
        (no_error_left r.system r.network_stats r.count r e refl refl refl)

  again-Fresh :
      (account : Str) (r again : AccountCount)
      → Fresh account r
      → r.error ≡ none
      → update_account_counter account r.system r.network_stats ≡ ok again
      → again.error ≡ none
      → again ≡ r
  unfolding update_account_counter
  again-Fresh account r again fresh e h e' = elim (attempt-ok (kv.begin r.system) _ _ again h) [
    | inr (err, began, rest) ↦ absurd (no_error _ _ _ err again rest e')
    | inl (t, began, rest) ↦ ok_inj (sym h ∙ update_account_counter-Fresh account r t fresh e began)
  ]

  mark_account-Fresh :
      (system stats : kv.Store) (account : Str) (n : ℕ) (t u : kv.Txn) (r : AccountCount)
      → kv.txn_put (kv.new_key (str "numAcc")) (big_bytes ((n + 1) % 2 ^ 64)) t ≡ ok u
      → mark_account system stats account n u ≡ ok r
      → r.error ≡ none
      → Fresh account r
  unfolding mark_account Fresh count_unchanged
  mark_account-Fresh system stats account n t u r put h e =
      elim (attempt-ok (kv.put (kv.new_key (str "acc" ⟋ account)) [] stats) _ _ r h) [
        | inr (err, marked, last) ↦ absurd (no_error _ _ _ err r last e)
        | inl (stats', marked, rest) ↦ (elim (attempt-ok (kv.commit u system) _ _ r rest) [
          | inr (err, done, last) ↦ absurd (no_error _ _ _ err r last e)
          | inl (system', done, last) ↦ subst (Fresh account) (ok_inj last) (
            laws.get-commit (kv.new_key (str "numAcc")) (big_bytes ((n + 1) % 2 ^ 64)) system
                system' t u put done,
            laws.store-get-put (kv.new_key (str "acc" ⟋ account)) [] stats stats' marked,
            omega arith,
          )
        ])
      ]

  count_new-Fresh :
      (system stats : kv.Store) (account : Str) (n : ℕ) (t : kv.Txn) (r : AccountCount)
      → count_new system stats account n t ≡ ok r
      → r.error ≡ none
      → Fresh account r
  unfolding count_new
  count_new-Fresh system stats account n t r h e =
      elim (attempt-ok (kv.txn_put (kv.new_key (str "numAcc")) (big_bytes ((n + 1) % 2 ^ 64)) t) _ _
        r h) [
          | inr (err, put, last) ↦ absurd (no_error _ _ _ err r last e)
          | inl (u, put, more) ↦ mark_account-Fresh system stats account n t u r put more e
        ]

  mark_account-count :
      (system stats : kv.Store) (account : Str) (n : ℕ) (u : kv.Txn) (r : AccountCount)
      → mark_account system stats account n u ≡ ok r
      → r.error ≡ none
      → r.count ≡ (n + 1) % 2 ^ 64
  unfolding mark_account count_unchanged
  mark_account-count system stats account n u r h e =
      elim (attempt-ok (kv.put (kv.new_key (str "acc" ⟋ account)) [] stats) _ _ r h) [
        | inr (err, marked, last) ↦ absurd (no_error _ _ _ err r last e)
        | inl (stats', marked, rest) ↦ (elim (attempt-ok (kv.commit u system) _ _ r rest) [
          | inr (err, done, last) ↦ absurd (no_error _ _ _ err r last e)
          | inl (system', done, last) ↦ ap AccountCount.count (sym (ok_inj last))
        ])
      ]

  count_new-count :
      (system stats : kv.Store) (account : Str) (n : ℕ) (t : kv.Txn) (r : AccountCount)
      → count_new system stats account n t ≡ ok r
      → r.error ≡ none
      → r.count ≡ (n + 1) % 2 ^ 64
  unfolding count_new
  count_new-count system stats account n t r h e =
      elim (attempt-ok (kv.txn_put (kv.new_key (str "numAcc")) (big_bytes ((n + 1) % 2 ^ 64)) t) _ _
        r h) [
          | inr (err, put, last) ↦ absurd (no_error _ _ _ err r last e)
          | inl (u, put, more) ↦ mark_account-count system stats account n u r more e
        ]

  -- A transaction that begins reads the stored number of accounts.
  counted-read :
      (system : kv.Store) (t : kv.Txn) (o : Option Bytes) (n : ℕ)
      → kv.begin system ≡ ok t
      → read (str "numAcc") t ≡ ok o
      → get_num_accounts system ≡ ok n
      → counted o ≡ n
  unfolding read get_num_accounts
  counted-read system t o n began reads stored =
      let same = ap found (laws.get-begin (kv.new_key (str "numAcc")) system t began) in
      let (o', got, last) =
        >>=-ok (found (kv.get (kv.new_key (str "numAcc")) system)) (λ d. ok (counted d)) n stored in
      ap counted (ok_inj (sym reads ∙ (same ∙ got))) ∙ ok_inj last

  count_account-new :
      (system stats : kv.Store) (account : Str) (n : ℕ) (t : kv.Txn) (missing : Error)
      → kv.get (kv.new_key (str "acc" ⟋ account)) stats ≡ fail missing
      → is_not_found (some missing) ≡ true
      → count_account system stats account n t ≡ count_new system stats account n t
  unfolding count_account
  count_account-new system stats account n t missing unmarked absent = rw (unmarked, absent) refl

  update_account_counter-new :
      (account : Str) (system stats : kv.Store) (n : ℕ) (missing : Error) (r : AccountCount)
      → kv.get (kv.new_key (str "acc" ⟋ account)) stats ≡ fail missing
      → is_not_found (some missing) ≡ true
      → get_num_accounts system ≡ ok n
      → update_account_counter account system stats ≡ ok r
      → r.error ≡ none
      → Fresh account r × (r.count ≡ (n + 1) % 2 ^ 64)
  unfolding update_account_counter
  update_account_counter-new account system stats n missing r unmarked absent stored h e =
      elim (attempt-ok (kv.begin system) _ _ r h) [
        | inr (err, began, last) ↦ absurd (no_error _ _ _ err r last e)
        | inl (t, began, rest) ↦ (elim (attempt-ok (read (str "numAcc") t) _ _ r rest) [
          | inr (err, reads, last) ↦ absurd (no_error _ _ _ err r last e)
          | inl (o, reads, more) ↦
              let new =
                sym (count_account-new system stats account (counted o) t missing unmarked absent)
                ∙ more in
              (
                count_new-Fresh system stats account (counted o) t r new e,
                count_new-count system stats account (counted o) t r new e
                    ∙ ap (λ m. (m + 1) % 2 ^ 64) (counted-read system t o n began reads stored),
              )
        ])
      ]

  num_accounts-Fresh :
      (account : Str) (r : AccountCount) → Fresh account r → get_num_accounts r.system ≡ ok r.count
  unfolding Fresh get_num_accounts found
  num_accounts-Fresh account r (stored, marked, small) =
      rw (stored, counted-big_bytes r.count small) refl

  -- Where UpdateAccountCounter gives no error for an account that is not marked, it answers the stored
  -- number of accounts plus one, as a uint64, and that is the number that is stored then. Where it gives
  -- no error for the same account again, it answers the same number and leaves both stores as they are.
  pub update_account_counter_once :
      (account : Str) (system stats : kv.Store) (n : ℕ) (missing : Error) (r again : AccountCount)
      → kv.get (kv.new_key (str "acc" ⟋ account)) stats ≡ fail missing
      → is_not_found (some missing) ≡ true
      → get_num_accounts system ≡ ok n
      → update_account_counter account system stats ≡ ok r
      → r.error ≡ none
      → update_account_counter account r.system r.network_stats ≡ ok again
      → again.error ≡ none
      → (r.count ≡ (n + 1) % 2 ^ 64) × (get_num_accounts r.system ≡ ok r.count) × (again ≡ r)
  update_account_counter_once account system stats n missing r again unmarked absent stored h e h'
        e' =
      let (fresh, count) =
        update_account_counter-new account system stats n missing r unmarked absent stored h e in
      (count, num_accounts-Fresh account r fresh, again-Fresh account r again fresh e h' e')
