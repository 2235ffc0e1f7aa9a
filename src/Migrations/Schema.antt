-- ===== src/Migrations/Schema.antt =====
-- What a migration creates, and the operations of Alembic as a parameter.
use banking_transaction_syst.Prelude.{ℕ, String, Bool, Option, some, none, List, ◌≡◌, ◌≢◌}
use banking_transaction_syst.Prelude.Tests.{◌==◌, string_eq, if◌then◌else◌}
use banking_transaction_syst.Domain.Exceptions.{Result, ok}

-- The types of `sqlalchemy` that the schema uses.
pub data ColumnType : Type 0 where
  uuid : ColumnType
  string : (max_length : ℕ) → ColumnType
  text : ColumnType
  boolean : ColumnType
  numeric : (precision scale : ℕ) → ColumnType
  datetime : (timezone : Bool) → ColumnType
  enumeration : (members : List String) (name : String) → ColumnType

pub record Column : Type 0 where
  pub name : String
  pub type : ColumnType
  pub nullable : Bool
  pub server_default : Option String

-- A table with the check constraints by name, the primary key and the unique columns.
pub record Table : Type 0 where
  pub name : String
  pub columns : List Column
  pub checks : List (String × String)
  pub primary_key : List String
  pub uniques : List (List String)

pub record Index : Type 0 where
  pub name : String
  pub table : String
  pub columns : List String
  pub unique : Bool

-- `op.create_table` or `op.create_index`, and what takes it back.
pub data Create : Type 0 where
  create_table : Table → Create
  create_index : Index → Create

pub data Drop : Type 0 where
  drop_table : String → Drop
  drop_index : (name table_name : String) → Drop

abbrev pub undo : Create → Drop
undo (create_table t) = drop_table t.name
undo (create_index i) = drop_index i.name i.table

-- `alembic.op` on a state `S` of the database.
pub record Operations (S : Type 0) : Type 0 where
  pub create : Create → S → Result S
  pub drop : Drop → S → Result S

-- The tables and the indexes by name.
pub record Catalogue : Type 0 where
  pub tables : String → Option Table
  pub indexes : String → Option Index

abbrev pub put : {A : Type 0} → (String → A) → String → A → String → A
put f k a j = if k == j then a else f j

abbrev pub with_made : Create → Catalogue → Catalogue
with_made (create_table t) v = record v { tables = put v.tables t.name (some t) }
with_made (create_index i) v = record v { indexes = put v.indexes i.name (some i) }

abbrev pub with_gone : Create → Catalogue → Catalogue
with_gone (create_table t) v = record v { tables = put v.tables t.name none }
with_gone (create_index i) v = record v { indexes = put v.indexes i.name none }

-- No index is on the table.
abbrev pub Bare : String → Catalogue → Type 0
Bare name v = (n : String) (i : Index) → v.indexes n ≡ some i → i.table ≢ name

abbrev pub Absent : Create → Catalogue → Type 0
Absent (create_table t) v = (v.tables t.name ≡ none) × Bare t.name v
Absent (create_index i) v = v.indexes i.name ≡ none

abbrev pub Present : Create → Catalogue → Type 0
Present (create_table t) v = (v.tables t.name ≡ some t) × Bare t.name v
Present (create_index i) v = v.indexes i.name ≡ some i

-- What the database promises: a creation succeeds only where the name is free, and then adds what
-- it names; what is there is dropped, a table if no index is left on it.
pub record Promises {S : Type 0} (op : Operations S) : Type 0 where
  pub view : S → Catalogue
  pub made :
      (c : Create) (s s1 : S)
      → op.create c s ≡ ok s1
      → Absent c (view s) × (view s1 ≡ with_made c (view s))
  pub gone :
      (c : Create) (s : S)
      → Present c (view s)
      → (s1 : S) × (op.drop (undo c) s ≡ ok s1) × (view s1 ≡ with_gone c (view s))
