-- ===== src/Migrations/Initial.antt =====
-- The initial schema: alembic/versions/b37c84eb92ca_initial_schema.py. `op.f` marks a name as final.
use banking_transaction_syst.Prelude.{String, Bool, true, false, Option, some, none, List, [], ◌∷◌}
use banking_transaction_syst.Migrations.Schema.{
  ColumnType, uuid, string, text, boolean, numeric, datetime, enumeration, Column, Table, Index,
  Create, create_table, create_index, Drop, drop_table, drop_index,
}

abbrev pub column : String → ColumnType → Bool → Option String → Column
column name type nullable server_default = record {
  name = name;
  type = type;
  nullable = nullable;
  server_default = server_default;
}

abbrev pub index : String → String → List String → Bool → Index
index name table columns unique = record {
  name = name;
  table = table;
  columns = columns;
  unique = unique;
}

abbrev pub accounts : Table
accounts = record {
  name = "accounts";
  columns =
      column "id" uuid false none
      ∷ column "owner_id" uuid false none
      ∷ column "account_number" (string 34) false none
      ∷ column "balance" (numeric 19 4) false none
      ∷ column "currency" (string 3) false none
      ∷ column "status" (enumeration ("active" ∷ "frozen" ∷ "closed" ∷ []) "account_status") false
          none
      ∷ column "created_at" (datetime true) false (some "now()")
      ∷ column "updated_at" (datetime true) false (some "now()")
      ∷ [];
  checks = ("ck_accounts_currency_valid", "currency IN ('EUR', 'USD', 'GBP', 'IRR')") ∷ [];
  primary_key = "id" ∷ [];
  uniques = ("account_number" ∷ []) ∷ [];
}

abbrev pub outbox_messages : Table
outbox_messages = record {
  name = "outbox_messages";
  columns =
      column "id" uuid false none
      ∷ column "event_type" (string 128) false none
      ∷ column "aggregate_id" (string 36) false none
      ∷ column "aggregate_type" (string 64) false none
      ∷ column "payload" text false none
      ∷ column "published" boolean false none
      ∷ column "published_at" (datetime true) true none
      ∷ column "created_at" (datetime true) false (some "now()")
      ∷ [];
  checks = [];
  primary_key = "id" ∷ [];
  uniques = [];
}

abbrev pub transactions : Table
transactions = record {
  name = "transactions";
  columns =
      column "id" uuid false none
      ∷ column "from_account_id" uuid false none
      ∷ column "to_account_id" uuid false none
      ∷ column "amount" (numeric 19 4) false none
      ∷ column "currency" (string 3) false none
      ∷ column "transaction_type"
          (enumeration ("transfer" ∷ "deposit" ∷ "withdrawal" ∷ []) "transaction_type") false none
      ∷ column "status"
          (enumeration ("pending" ∷ "processing" ∷ "completed" ∷ "failed" ∷ [])
            "transaction_status")
          false none
      ∷ column "idempotency_key" (string 255) false none
      ∷ column "failure_code" (string 64) true none
      ∷ column "failure_reason" text true none
      ∷ column "created_at" (datetime true) false (some "now()")
      ∷ column "updated_at" (datetime true) false (some "now()")
      ∷ column "completed_at" (datetime true) true none
      ∷ [];
  checks = ("ck_transactions_currency_valid", "currency IN ('EUR', 'USD', 'GBP', 'IRR')") ∷ [];
  primary_key = "id" ∷ [];
  uniques = [];
}

-- `upgrade`
unfoldable pub upgrade : List Create
upgrade =
    create_table accounts
    ∷ create_index (index "ix_accounts_owner_id" "accounts" ("owner_id" ∷ []) false)
    ∷ create_index (index "ix_accounts_owner_status" "accounts" ("owner_id" ∷ "status" ∷ []) false)
    ∷ create_table outbox_messages
    ∷ create_index
        (index "ix_outbox_messages_aggregate_id" "outbox_messages" ("aggregate_id" ∷ []) false)
    ∷ create_index (index "ix_outbox_messages_published" "outbox_messages" ("published" ∷ []) false)
    ∷ create_table transactions
    ∷ create_index (index "ix_transactions_completed_at" "transactions" ("completed_at" ∷ []) false)
    ∷ create_index
        (index "ix_transactions_from_account_id" "transactions" ("from_account_id" ∷ []) false)
    ∷ create_index (
        index "ix_transactions_from_created" "transactions" ("from_account_id" ∷ "created_at" ∷ [])
          false)
    ∷ create_index (
        index "ix_transactions_from_status" "transactions" ("from_account_id" ∷ "status" ∷ [])
          false)
    ∷ create_index
        (index "ix_transactions_idempotency_key" "transactions" ("idempotency_key" ∷ []) true)
    ∷ create_index (index "ix_transactions_status" "transactions" ("status" ∷ []) false)
    ∷ create_index
        (index "ix_transactions_to_account_id" "transactions" ("to_account_id" ∷ []) false)
    ∷ []

-- `downgrade`
unfoldable pub downgrade : List Drop
downgrade =
    drop_index "ix_transactions_to_account_id" "transactions"
    ∷ drop_index "ix_transactions_status" "transactions"
    ∷ drop_index "ix_transactions_idempotency_key" "transactions"
    ∷ drop_index "ix_transactions_from_status" "transactions"
    ∷ drop_index "ix_transactions_from_created" "transactions"
    ∷ drop_index "ix_transactions_from_account_id" "transactions"
    ∷ drop_index "ix_transactions_completed_at" "transactions"
    ∷ drop_table "transactions"
    ∷ drop_index "ix_outbox_messages_published" "outbox_messages"
    ∷ drop_index "ix_outbox_messages_aggregate_id" "outbox_messages"
    ∷ drop_table "outbox_messages"
    ∷ drop_index "ix_accounts_owner_status" "accounts"
    ∷ drop_index "ix_accounts_owner_id" "accounts"
    ∷ drop_table "accounts"
    ∷ []
