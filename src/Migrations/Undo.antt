-- ===== src/Migrations/Undo.antt =====
-- What `upgrade` leaves in the database, and what `downgrade` takes back.
use banking_transaction_syst.Prelude.{
  String, ◌<>◌, some, none, List, [], ◌∷◌, ◌++◌, ◌≡◌, refl, ap, sym, ◌∙◌, arith,
}
use banking_transaction_syst.Prelude.Tests.{string_eq}
use banking_transaction_syst.Domain.Exceptions.{Result, ok, err}
use banking_transaction_syst.Domain.Enums.CurrencyEnum
use banking_transaction_syst.Domain.Enums.AccountStatusEnum
use banking_transaction_syst.Domain.Enums.TransactionTypeEnum
use banking_transaction_syst.Domain.Enums.TransactionStatusEnum
use banking_transaction_syst.Migrations.Schema.{
  Create, create_table, create_index, Drop, undo, Operations, Promises, Catalogue, Index, put,
  with_made, with_gone, Absent, Present,
}
use banking_transaction_syst.Migrations.Initial.{upgrade, downgrade}
use banking_transaction_syst.Migrations.Models.{
  Model, table_of, indexes_of, account_orm, outbox_message_orm, transaction_orm,
}
use banking_transaction_syst.Migrations.Runs.{then, creates, drops}

module _ {A : Type 0} (f : String → A) (k : String) where
  put_self : (a : A) → put f k a k ≡ a
  put_self a = ground (arith, string_eq.beq_iff k k)

  -- A name that is added and removed is as it was.
  put_undone :
      (g : String → A) (a b : A)
      → f k ≡ b
      → ((j : String) → g j ≡ put f k a j)
      → (j : String) → put g k b j ≡ f j
  put_undone g a b h e j = ground (arith, string_eq.beq_iff k j, e j)

-- Two catalogues with the same names.
pub record Same (v v' : Catalogue) : Type 0 where
  pub tables : (n : String) → v.tables n ≡ v'.tables n
  pub indexes : (n : String) → v.indexes n ≡ v'.indexes n

-- Equal catalogues before and after.
along : {u u' v v' : Catalogue} → u ≡ u' → Same u' v' → v' ≡ v → Same u v
along e same e' = record {
  tables = λ n.
      ap (λ (x : Catalogue). x.tables n) e ∙ same.tables n ∙ ap (λ (x : Catalogue). x.tables n) e';
  indexes = λ n.
      ap (λ (x : Catalogue). x.indexes n) e
      ∙ same.indexes n
      ∙ ap (λ (x : Catalogue). x.indexes n) e';
}

made_is_there :
    (c : Create) (v v' : Catalogue) → Absent c v → Same v' (with_made c v) → Present c v'
made_is_there (create_table t) v v' (h, bare) same = (
  same.tables t.name ∙ put_self v.tables t.name (some t),
  λ n i e. bare n i (sym (same.indexes n) ∙ e),
)
made_is_there (create_index i) v v' h same =
    same.indexes i.name ∙ put_self v.indexes i.name (some i)

gone_made :
    (c : Create) (v v' : Catalogue) → Absent c v → Same v' (with_made c v) → Same (with_gone c v') v
gone_made (create_table t) v v' (h, bare) same = record {
  tables = put_undone v.tables t.name v'.tables (some t) none h same.tables;
  indexes = same.indexes;
}
gone_made (create_index i) v v' h same = record {
  tables = same.tables;
  indexes = put_undone v.indexes i.name v'.indexes (some i) none h same.indexes;
}

-- A sequence that ends well began well.
then_ok :
    {S : Type 0} (r : Result S) (f : S → Result S) (s1 : S)
    → then r f ≡ ok s1
    → (x : S) × (r ≡ ok x) × (f x ≡ ok s1)
then_ok (ok x) f s1 h = (x, refl, h)
then_ok (err e) f s1 h = absurd (cc h)

pub same_ok : {S : Type 0} (s s1 : S) → ok s ≡ ok s1 → s ≡ s1
same_ok s s1 h = cc h

module _ {S : Type 0} (op : Operations S) (promises : Promises op) where
  abbrev Undone : List Drop → S → S → Type 0
  Undone ds s1 s = (s2 : S) × (drops op ds s1 ≡ ok s2) × Same (promises.view s2) (promises.view s)

  -- The last of some drops.
  undone_last :
      (ds : List Drop) (d : Drop) (s s1 s2 : S)
      → drops op ds s ≡ ok s1
      → op.drop d s1 ≡ ok s2
      → drops op (ds ++ (d ∷ [])) s ≡ ok s2
  unfolding drops
  undone_last [] d s s1 s2 h e =
      ap (λ x. then (op.drop d x) ok) (same_ok s s1 h) ∙ ap (λ r. then r ok) e
  undone_last (d2 ∷ ds) d s s1 s2 h e =
      let (x, hx, hf) = then_ok (op.drop d2 s) (drops op ds) s1 h in
      ap (λ r. then r (drops op (ds ++ (d ∷ [])))) hx ∙ undone_last ds d x s1 s2 hf e

  abbrev undos : List Create → List Drop
  undos [] = []
  undos (c ∷ cs) = undos cs ++ (undo c ∷ [])

  undone :
      (cs : List Create) (s s1 s1' : S)
      → creates op cs s ≡ ok s1
      → Same (promises.view s1') (promises.view s1)
      → Undone (undos cs) s1' s
  unfolding creates drops
  undone [] s s1 s1' h same = (s1', refl, along refl same (ap promises.view (sym (same_ok s s1 h))))
  undone (c ∷ cs) s s1 s1' h same =
      let (sm, made, rest) = then_ok (op.create c s) (creates op cs) s1 h in
      let (s2, dropped, back) = undone cs sm s1 s1' rest same in
      let (absent, view_m) = promises.made c s sm made in
      let as_made : Same (promises.view s2) (with_made c (promises.view s)) =
        along refl back view_m in
      let (s3, last, view_3) =
        promises.gone c s2 (made_is_there c (promises.view s) (promises.view s2) absent as_made) in
      (
        s3,
        undone_last (undos cs) (undo c) s1' s2 s3 dropped last,
        along view_3 (gone_made c (promises.view s) (promises.view s2) absent as_made) refl,
      )

  -- If the upgrade returns, then the downgrade of what it left returns as well, and every table and
  -- every index is as before the upgrade.
  pub downgrade_undoes_upgrade :
      (s s1 : S)
      → creates op upgrade s ≡ ok s1
      → (s2 : S) × (drops op downgrade s1 ≡ ok s2) × Same (promises.view s2) (promises.view s)
  unfolding upgrade downgrade
  downgrade_undoes_upgrade s s1 h =
      undone upgrade s s1 s1 h (record { tables = λ n. refl; indexes = λ n. refl })

  -- What all the creations leave.
  abbrev made_all : List Create → Catalogue → Catalogue
  made_all [] v = v
  made_all (c ∷ cs) v = made_all cs (with_made c v)

  made_lem :
      (cs : List Create) (s s1 : S)
      → creates op cs s ≡ ok s1
      → promises.view s1 ≡ made_all cs (promises.view s)
  unfolding creates
  made_lem [] s s1 h = ap promises.view (sym (same_ok s s1 h))
  made_lem (c ∷ cs) s s1 h =
      let (sm, made, rest) = then_ok (op.create c s) (creates op cs) s1 h in
      made_lem cs sm s1 rest ∙ ap (made_all cs) (promises.made c s sm made).1

-- Each of the indexes is in the catalogue.
abbrev pub HasIndexes : List Index → Catalogue → Type 0
HasIndexes [] v = Unit {0}
HasIndexes (i ∷ is) v = (v.indexes i.name ≡ some i) × HasIndexes is v

-- The tables and the indexes of each of the models are in the catalogue.
abbrev pub HasModels : (String → String → String) → List Model → Catalogue → Type 0
HasModels ix [] v = Unit {0}
HasModels ix (m ∷ ms) v =
    (v.tables m.tablename ≡ some (table_of m)) × HasIndexes (indexes_of ix m) v × HasModels ix ms v

module _ {S : Type 0} (op : Operations S) (promises : Promises op) where
  -- An index of one column has the name that SQLAlchemy gives it by default: if the upgrade returns,
  -- the database has the tables of the three models, with their columns, constraints and keys, and
  -- every index that they declare.
  pub upgrade-HasModels :
      (ix : String → String → String)
      → ((table column : String) → ix table column ≡ "ix_" <> table <> "_" <> column)
      → (s s1 : S) → creates op upgrade s ≡ ok s1
      → HasModels ix (account_orm ∷ outbox_message_orm ∷ transaction_orm ∷ []) (promises.view s1)
  unfolding upgrade AccountStatusEnum.value TransactionTypeEnum.value TransactionStatusEnum.value
      CurrencyEnum.value
  upgrade-HasModels ix default s s1 h =
      let named : ix ≡ (λ table column. "ix_" <> table <> "_" <> column) =
        λ i table column. default table column i in
      rw (named, made_lem op promises upgrade s s1 h)
        (
          refl,
          (refl, (refl, tt)),
          (
            refl,
            (refl, (refl, tt)),
            (refl, (refl, (refl, (refl, (refl, (refl, (refl, (refl, tt))))))), tt),
          ),
        )
