-- ===== src/Tests/Cells.antt =====
-- Stores as association lists, which keep the laws of stores and transactions.
use go_m_layer.Prelude.{
  ◌≡◌, ◌≢◌, refl, sym, ap, ◌∙◌, arith, Bool, true, false, ◌&&◌, Option, none, some, List, [], ◌∷◌,
  Str, str_eq, str_eq_iff, str_eq_refl, if◌then◌else◌, Outcome, ok, fail, not_found, ok_inj, lookup,
  insert, lookup-insert, str_has_eq, Bool-cases, inl, inr, ◌==◌,
}
use go_m_layer.External.{Bytes}
use go_m_layer.Store.KeyValue.{KeyValue, KeyValueLaws}

abbrev pub Cells : Type 0
Cells = List (Str × Bytes)

abbrev pub cell : Str → Cells → Outcome Bytes
cell key s = elim (lookup key s) [ none ↦ fail not_found | some b ↦ ok b ]

unfoldable pub erased : Str → Cells → Cells
erased key [] = []
erased key (entry ∷ s) =
    let rest = erased key s in if str_eq entry.0 key then rest else entry ∷ rest

unfoldable pub begins_with : Str → Str → Bool
begins_with [] s = true
begins_with (c ∷ cs) [] = false
begins_with (c ∷ cs) (d ∷ ds) = c == d && begins_with cs ds

unfoldable pub cells_with : Str → Cells → Cells
unfolding begins_with
cells_with prefix [] = []
cells_with prefix (entry ∷ s) =
    let rest = cells_with prefix s in if begins_with prefix entry.0 then entry ∷ rest else rest

instance abbrev pub cells : KeyValue
cells = record {
  Store = Cells;
  Txn = Cells;
  new_key = λ s. 47 ∷ s;
  get = cell;
  put = λ key value s. ok (insert key value s);
  prefixed = λ prefix limit offset s. ok (cells_with (47 ∷ prefix) s);
  view = λ key s. elim (lookup key s) [ none ↦ fail not_found | some b ↦ ok (some b) ];
  begin = λ s. ok s;
  txn_get = cell;
  txn_put = λ key value s. ok (insert key value s);
  txn_delete = λ key s. ok (erased key s);
  txn_prefixed = λ prefix limit offset s. ok (cells_with (47 ∷ prefix) s);
  commit = λ t s. ok t;
}

cell_of : Option Bytes → Outcome Bytes
cell_of o = elim o [ none ↦ fail not_found | some b ↦ ok b ]

lookup-insert_same :
    (key : Str) (value : Bytes) (s : Cells) → lookup key (insert key value s) ≡ some value
lookup-insert_same key value s = lookup-insert key key value s ∙ rw (str_eq_refl key) refl

lookup-insert_other :
    (key other : Str) (value : Bytes) (s : Cells)
    → other ≢ key
    → lookup other (insert key value s) ≡ lookup other s
lookup-insert_other key other value s apart = elim (Bool-cases (str_eq key other)) [
  | inl e ↦ absurd (apart (sym ((str_eq_iff key other).0 e)))
  | inr e ↦ lookup-insert key other value s ∙ rw e refl
]

cell-insert : (key : Str) (value : Bytes) (s : Cells) → cell key (insert key value s) ≡ ok value
unfolding cell_of
cell-insert key value s = ap cell_of (lookup-insert_same key value s)

cell-insert_other :
    (key other : Str) (value : Bytes) (s : Cells)
    → other ≢ key
    → cell other (insert key value s) ≡ cell other s
unfolding cell_of
cell-insert_other key other value s apart = ap cell_of (lookup-insert_other key other value s apart)

lookup-erased : (key : Str) (s : Cells) → lookup key (erased key s) ≡ none
unfolding erased lookup
lookup-erased key [] = refl
lookup-erased key (entry ∷ s) = elim (Bool-cases (str_eq entry.0 key)) [
  | inl e ↦ rw e (lookup-erased key s)
  | inr e ↦ rw (e, e) (lookup-erased key s)
]

lookup-erased_other :
    (key other : Str) (s : Cells) → other ≢ key → lookup other (erased key s) ≡ lookup other s
unfolding erased lookup
lookup-erased_other key other [] apart = refl
lookup-erased_other key other (entry ∷ s) apart =
    ground (
      arith,
      str_eq_iff entry.0 key,
      str_eq_iff entry.0 other,
      lookup-erased_other key other s apart,
    )

cell-erased : (key : Str) (s : Cells) → cell key (erased key s) ≡ fail not_found
unfolding cell_of
cell-erased key s = ap cell_of (lookup-erased key s)

cell-erased_other :
    (key other : Str) (s : Cells) → other ≢ key → cell other (erased key s) ≡ cell other s
unfolding cell_of
cell-erased_other key other s apart = ap cell_of (lookup-erased_other key other s apart)

view-cell :
    (o : Option Bytes) (value : Bytes)
    → (elim o [ none ↦ fail not_found | some b ↦ ok b ]) ≡ ok value
    → (elim o [ none ↦ fail not_found | some b ↦ ok (some b) ]) ≡ ok (some value)
view-cell none value h = cc
view-cell (some b) value h = ap (λ v. ok (some v)) (ok_inj h)

instance pub cells_laws : KeyValueLaws ⦃kv = cells⦄
cells_laws = record {
  Of = λ s t. Unit {0};
  Of-begin = λ s t h. tt;
  Of-put = λ key value s t u o h. tt;
  get-commit_of = λ key s r t o h. ap (cell key) (sym (ok_inj h));
  view-get = λ key value s h filled. view-cell (lookup key s) value h;
  get-put = λ key value t u h. ap (cell key) (sym (ok_inj h)) ∙ cell-insert key value t;
  get-put_other = λ key other value t u apart h.
      ap (cell other) (sym (ok_inj h)) ∙ cell-insert_other key other value t apart;
  get-delete = λ key t u h. ap (cell key) (sym (ok_inj h)) ∙ cell-erased key t;
  get-delete_other = λ key other t u apart h.
      ap (cell other) (sym (ok_inj h)) ∙ cell-erased_other key other t apart;
  get-begin = λ key s t h. ap (cell key) (sym (ok_inj h));
  get-commit = λ key value s r t u put done.
      ap (cell key) (sym (ok_inj done) ∙ sym (ok_inj put)) ∙ cell-insert key value t;
  store-get-put = λ key value s r h. ap (cell key) (sym (ok_inj h)) ∙ cell-insert key value s;
}

-- Two texts that are compared as different are different.
pub apart : (a b : Str) → str_eq a b ≡ false → a ≢ b
apart a b h e = cc (sym h ∙ (str_eq_iff a b).1 e)
