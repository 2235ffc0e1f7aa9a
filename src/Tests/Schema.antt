-- ===== src/Tests/Schema.antt =====
-- A database that creates and drops tables and indexes, for the migration.
use banking_transaction_syst.Prelude.{
  String, ◌<>◌, [], ◌∷◌, Bool, true, false, Option, some, none, ◌≡◌, ◌≢◌, refl, ap, sym, ◌∙◌, arith,
}
use banking_transaction_syst.Prelude.Tests.{◌==◌, string_eq, if◌then◌else◌}
use banking_transaction_syst.Domain.Exceptions.{Exn, Result, ok, err, library}
use banking_transaction_syst.Migrations.Schema.{
  Create, create_table, create_index, Drop, drop_table, drop_index, undo, Operations, Promises,
  Catalogue, Table, Index, put, with_made, with_gone, Absent, Present, Bare,
}
use banking_transaction_syst.Migrations.Undo.{
  same_ok, Same, HasModels, downgrade_undoes_upgrade, upgrade-HasModels,
}
use banking_transaction_syst.Migrations.Models.{account_orm, outbox_message_orm, transaction_orm}
use banking_transaction_syst.Migrations.Initial.{upgrade, downgrade}
use banking_transaction_syst.Migrations.Runs.{creates, drops}

-- Every index is on a table that exists.
abbrev Tidy : Catalogue → Type 0
Tidy v = (n : String) (i : Index) → v.indexes n ≡ some i → (t : Table) × (v.tables i.table ≡ some t)

record Base : Type 0 where
  pub catalogue : Catalogue
  pub tidy : Tidy catalogue

stays_with_table : (t : Table) (v : Catalogue) → Tidy v → Tidy (with_made (create_table t) v)
stays_with_table t v h n i e = pick (t.name == i.table) (h n i e)
  where
    pick :
        (b : Bool)
        → (x : Table) × (v.tables i.table ≡ some x)
        → (x : Table) × ((if b then some t else v.tables i.table) ≡ some x)
    pick true _ = (t, refl)
    pick false q = q

abbrev table_at : Catalogue → Option Index → Option Table
table_at v none = none
table_at v (some i) = v.tables i.table

stays_with_index :
    (i : Index) (t : Table) (v : Catalogue)
    → Tidy v
    → v.tables i.table ≡ some t
    → Tidy (with_made (create_index i) v)
stays_with_index i t v h on n j = pick (i.name == n)
  where
    pick :
        (b : Bool)
        → (if b then some i else v.indexes n) ≡ some j
        → (x : Table) × (v.tables j.table ≡ some x)
    pick true e = (t, ap (λ (o : Option Index). table_at v o) (sym e) ∙ on)
    pick false e = h n j e

stays_without_index :
    (name : String) (v : Catalogue) → Tidy v → Tidy (record v { indexes = put v.indexes name none })
stays_without_index name v h n j = pick (name == n)
  where
    pick :
        (b : Bool)
        → (if b then none else v.indexes n) ≡ some j
        → (x : Table) × (v.tables j.table ≡ some x)
    pick true e = absurd (cc e)
    pick false e = h n j e

-- The index, unless it is on the table that is dropped.
abbrev left_on : String → Option Index → Option Index
left_on name none = none
left_on name (some i) = if i.table == name then none else some i

abbrev dropped : String → Catalogue → Catalogue
dropped name v = record {
  tables = put v.tables name none;
  indexes = λ n. left_on name (v.indexes n);
}

stays_without_table : (name : String) (v : Catalogue) → Tidy v → Tidy (dropped name v)
stays_without_table name v h n j e = pick (v.indexes n) (h n) e
  where
    pick :
        (o : Option Index)
        → ((i : Index) → o ≡ some i → (t : Table) × (v.tables i.table ≡ some t))
        → left_on name o ≡ some j
        → (x : Table) × (put v.tables name none j.table ≡ some x)
    pick none g e = absurd (cc e)
    pick (some i) g e =
        let (x, hx) = g i refl in
        (x, ground (arith, string_eq.beq_iff name j.table, string_eq.beq_iff i.table name))

abbrev refused : Exn
refused = library "ProgrammingError" ""

abbrev new_table :
    (t : Table) (s : Base) (o : Option Table) → s.catalogue.tables t.name ≡ o → Result Base
new_table t s none h = ok (record {
  catalogue = with_made (create_table t) s.catalogue;
  tidy = stays_with_table t s.catalogue s.tidy;
})
new_table t s (some _) h = err refused

abbrev new_index :
    (i : Index) (s : Base) (o : Option Table)
    → s.catalogue.tables i.table ≡ o
    → Option Index
    → Result Base
new_index i s (some t) h none = ok (record {
  catalogue = with_made (create_index i) s.catalogue;
  tidy = stays_with_index i t s.catalogue s.tidy h;
})
new_index i s (some t) h (some _) = err refused
new_index i s none h o = err refused

abbrev create : Create → Base → Result Base
create (create_table t) s = new_table t s (s.catalogue.tables t.name) refl
create (create_index i) s =
    new_index i s (s.catalogue.tables i.table) refl (s.catalogue.indexes i.name)

abbrev drop : Drop → Base → Result Base
drop (drop_table name) s = ok (record {
  catalogue = dropped name s.catalogue;
  tidy = stays_without_table name s.catalogue s.tidy;
})
drop (drop_index name table) s = ok (record {
  catalogue = record s.catalogue { indexes = put s.catalogue.indexes name none };
  tidy = stays_without_index name s.catalogue s.tidy;
})

abbrev operations : Operations Base
operations = record { create = create; drop = drop }

made_table :
    (t : Table) (s s1 : Base) (o : Option Table) (h : s.catalogue.tables t.name ≡ o)
    → new_table t s o h ≡ ok s1
    → Absent (create_table t) s.catalogue × (s1.catalogue ≡ with_made (create_table t) s.catalogue)
made_table t s s1 none h e = (
  (
    h,
    λ n i at on.
        let (x, hx) = s.tidy n i at in absurd (cc (sym h ∙ (ap s.catalogue.tables (sym on) ∙ hx))),
  ),
  ap (λ (x : Base). x.catalogue) (sym (same_ok _ _ e)),
)
made_table t s s1 (some _) h e = absurd (cc e)

made_index :
    (i : Index) (s s1 : Base) (o : Option Table) (h : s.catalogue.tables i.table ≡ o)
    (p : Option Index)
    → s.catalogue.indexes i.name ≡ p
    → new_index i s o h p ≡ ok s1
    → Absent (create_index i) s.catalogue × (s1.catalogue ≡ with_made (create_index i) s.catalogue)
made_index i s s1 (some t) h none a e = (a, ap (λ (x : Base). x.catalogue) (sym (same_ok _ _ e)))
made_index i s s1 (some t) h (some _) a e = absurd (cc e)
made_index i s s1 none h p a e = absurd (cc e)

left_unchanged :
    (name : String) (v : Catalogue)
    → Bare name v
    → (n : String) → left_on name (v.indexes n) ≡ v.indexes n
left_unchanged name v bare n = keep (v.indexes n) (bare n)
  where
    keep : (o : Option Index) → ((i : Index) → o ≡ some i → i.table ≢ name) → left_on name o ≡ o
    keep none g = refl
    keep (some i) g = ground (arith, string_eq.beq_iff i.table name, g i refl)

abbrev made :
    (c : Create) (s s1 : Base)
    → create c s ≡ ok s1
    → Absent c s.catalogue × (s1.catalogue ≡ with_made c s.catalogue)
made (create_table t) s s1 e = made_table t s s1 (s.catalogue.tables t.name) refl e
made (create_index i) s s1 e =
    made_index i s s1 (s.catalogue.tables i.table) refl (s.catalogue.indexes i.name) refl e

abbrev gone :
    (c : Create) (s : Base)
    → Present c s.catalogue
    → (s1 : Base) × (drop (undo c) s ≡ ok s1) × (s1.catalogue ≡ with_gone c s.catalogue)
gone (create_table t) s (at, bare) = (
  _,
  refl,
  λ i. record {
    tables = put s.catalogue.tables t.name none;
    indexes = λ n. left_unchanged t.name s.catalogue bare n i;
  },
)
gone (create_index i) s at = (_, refl, refl)

abbrev promises : Promises operations
promises = record { view = λ s. s.catalogue; made = made; gone = gone }

abbrev empty : Base
empty = record {
  catalogue = record { tables = λ n. none; indexes = λ n. none };
  tidy = λ n i e. absurd (cc e);
}

abbrev or_empty : Result Base → Base
or_empty (ok s) = s
or_empty (err e) = empty

-- The empty database after the upgrade.
abbrev upgraded : Base
upgraded = or_empty (creates operations upgrade empty)

downgrade_undoes_upgrade_example :
    (s2 : Base) × (drops operations downgrade upgraded ≡ ok s2) × Same s2.catalogue empty.catalogue
unfolding creates upgrade
downgrade_undoes_upgrade_example = downgrade_undoes_upgrade operations promises empty upgraded refl

abbrev label : String → String → String
label table column = "ix_" <> table <> "_" <> column

upgrade-HasModels_example :
    HasModels label (account_orm ∷ outbox_message_orm ∷ transaction_orm ∷ []) upgraded.catalogue
unfolding creates upgrade
upgrade-HasModels_example =
    upgrade-HasModels operations promises label (λ table column. refl) empty upgraded refl
