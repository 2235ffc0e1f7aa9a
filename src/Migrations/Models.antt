-- ===== src/Migrations/Models.antt =====
-- The tables that the ORM classes declare: src/adapters/outbound/persistence/models. How SQLAlchemy
-- names the index of a column with `index=True` is the parameter `ix`.
use banking_transaction_syst.Prelude.{
  String, ◌<>◌, Bool, true, false, not, ◌&&◌, Option, some, none, List, [], ◌∷◌, ◌++◌, map,
}
use banking_transaction_syst.Prelude.Tests.{if◌then◌else◌}
use banking_transaction_syst.Domain.Enums.CurrencyEnum
use banking_transaction_syst.Domain.Enums.CurrencyEnum.{eur, usd, gbp, irr}
use banking_transaction_syst.Domain.Enums.AccountStatusEnum
use banking_transaction_syst.Domain.Enums.AccountStatusEnum.{active, frozen, closed}
use banking_transaction_syst.Domain.Enums.TransactionTypeEnum
use banking_transaction_syst.Domain.Enums.TransactionTypeEnum.{transfer, deposit, withdrawal}
use banking_transaction_syst.Domain.Enums.TransactionStatusEnum
use banking_transaction_syst.Domain.Enums.TransactionStatusEnum.{
  pending, processing, completed, failed,
}
use banking_transaction_syst.Migrations.Schema.{
  ColumnType, uuid, string, text, boolean, numeric, datetime, enumeration, Column, Table, Index,
}

-- `mapped_column`, as far as the schema depends on it.
pub record Attribute : Type 0 where
  pub column : Column
  pub primary_key : Bool
  pub indexed : Bool
  pub unique : Bool

pub record Model : Type 0 where
  pub tablename : String
  pub attributes : List Attribute
  pub indexes : List Index
  pub checks : List (String × String)

abbrev mapped : String → ColumnType → Bool → Option String → Bool → Bool → Attribute
mapped name type nullable server_default indexed unique = record {
  column = record {
    name = name;
    type = type;
    nullable = nullable;
    server_default = server_default;
  };
  primary_key = false;
  indexed = indexed;
  unique = unique;
}

-- `mapped_column(primary_key=True, default=uuid4)`
abbrev id : Attribute
id = record (mapped "id" uuid false none false false) { primary_key = true }

-- A column of times, with `server_default=func.now()`.
abbrev stamp : String → Attribute
stamp name = mapped name (datetime true) false (some "now()") false false

abbrev index : String → String → String → String → Index
index name table first second = record {
  name = name;
  table = table;
  columns = first ∷ second ∷ [];
  unique = false;
}

-- `", ".join(texts)`
abbrev join : List String → String
join [] = ""
join (t ∷ []) = t
join (t ∷ u ∷ ts) = t <> ", " <> join (u ∷ ts)

-- The text of the check on the currency.
abbrev currency_check : String
currency_check =
    "currency IN ("
    <> join (map (λ c. "'" <> CurrencyEnum.value c <> "'") (eur ∷ usd ∷ gbp ∷ irr ∷ []))
    <> ")"

-- `AccountORM`
abbrev pub account_orm : Model
account_orm = record {
  tablename = "accounts";
  attributes =
      id
      ∷ mapped "owner_id" uuid false none true false
      ∷ mapped "account_number" (string 34) false none false true
      ∷ mapped "balance" (numeric 19 4) false none false false
      ∷ mapped "currency" (string 3) false none false false
      ∷ mapped "status"
          (enumeration (map AccountStatusEnum.value (active ∷ frozen ∷ closed ∷ []))
            "account_status")
          false none false false
      ∷ stamp "created_at"
      ∷ stamp "updated_at"
      ∷ [];
  indexes = index "ix_accounts_owner_status" "accounts" "owner_id" "status" ∷ [];
  checks = ("ck_accounts_currency_valid", currency_check) ∷ [];
}

-- `OutboxMessageORM`
abbrev pub outbox_message_orm : Model
outbox_message_orm = record {
  tablename = "outbox_messages";
  attributes =
      id
      ∷ mapped "event_type" (string 128) false none false false
      ∷ mapped "aggregate_id" (string 36) false none true false
      ∷ mapped "aggregate_type" (string 64) false none false false
      ∷ mapped "payload" text false none false false
      ∷ mapped "published" boolean false none true false
      ∷ mapped "published_at" (datetime true) true none false false
      ∷ stamp "created_at"
      ∷ [];
  indexes = [];
  checks = [];
}

-- `TransactionORM`
abbrev pub transaction_orm : Model
transaction_orm = record {
  tablename = "transactions";
  attributes =
      id
      ∷ mapped "from_account_id" uuid false none true false
      ∷ mapped "to_account_id" uuid false none true false
      ∷ mapped "amount" (numeric 19 4) false none false false
      ∷ mapped "currency" (string 3) false none false false
      ∷ mapped "transaction_type"
          (enumeration (map TransactionTypeEnum.value (transfer ∷ deposit ∷ withdrawal ∷ []))
            "transaction_type")
          false none false false
      ∷ mapped "status"
          (enumeration
            (map TransactionStatusEnum.value (pending ∷ processing ∷ completed ∷ failed ∷ []))
            "transaction_status")
          false none true false
      ∷ mapped "idempotency_key" (string 255) false none true true
      ∷ mapped "failure_code" (string 64) true none false false
      ∷ mapped "failure_reason" text true none false false
      ∷ stamp "created_at"
      ∷ stamp "updated_at"
      ∷ mapped "completed_at" (datetime true) true none true false
      ∷ [];
  indexes =
      index "ix_transactions_from_status" "transactions" "from_account_id" "status"
      ∷ index "ix_transactions_from_created" "transactions" "from_account_id" "created_at"
      ∷ [];
  checks = ("ck_transactions_currency_valid", currency_check) ∷ [];
}

abbrev keys : List Attribute → List String
keys [] = []
keys (a ∷ others) = let rest = keys others in if a.primary_key then a.column.name ∷ rest else rest

-- A unique column that is indexed has a unique index in place of the constraint.
abbrev uniques : List Attribute → List (List String)
uniques [] = []
uniques (a ∷ others) =
    let rest = uniques others in
    if a.unique && not a.indexed then (a.column.name ∷ []) ∷ rest else rest

abbrev pub table_of : Model → Table
table_of m = record {
  name = m.tablename;
  columns = map (λ a. a.column) m.attributes;
  checks = m.checks;
  primary_key = keys m.attributes;
  uniques = uniques m.attributes;
}

module _ (ix : String → String → String) where
  abbrev column_indexes : String → List Attribute → List Index
  column_indexes table [] = []
  column_indexes table (a ∷ others) =
      let rest = column_indexes table others in
      if a.indexed
      then record {
        name = ix table a.column.name;
        table = table;
        columns = a.column.name ∷ [];
        unique = a.unique;
      }
        ∷ rest
      else rest

  abbrev pub indexes_of : Model → List Index
  indexes_of m = column_indexes m.tablename m.attributes ++ m.indexes
