-- ===== src/Adapters/Sql/Repositories.antt =====
-- `PostgresAccountRepository` and `PostgresTransactionRepository`.
use banking_transaction_syst.Prelude.{ℕ, String, Bool, true, false, Option, none, some}
use banking_transaction_syst.Domain.Exceptions.{library}
use banking_transaction_syst.Application.Runtime.{
  pure, raise, gets, modify, ◌>>=◌, ◌>>◌, new_account, new_transaction,
}
use banking_transaction_syst.Application.Ports.{AccountRepository, TransactionRepository}
use banking_transaction_syst.Adapters.Mappers.AccountMapper
use banking_transaction_syst.Adapters.Mappers.AccountMapper.{AccountRow}
use banking_transaction_syst.Adapters.Mappers.TransactionMapper
use banking_transaction_syst.Adapters.Mappers.TransactionMapper.{TransactionRow}
use banking_transaction_syst.Adapters.Sql.Session.{
  Session, SqlStore, SqlProc, query, write, see_account, see_transaction,
}

module _ {D L : Type 0} (session : Session D) where
  unfoldable pub loaded_account : Option AccountRow → SqlProc D L (Option ℕ)
  unfolding new_account
  loaded_account none = pure none
  loaded_account (some orm) = do
    ref ← new_account (AccountMapper.to_domain orm)
    modify (see_account ref)
    pure (some ref)

  -- `PostgresAccountRepository.get` and `get_with_lock`
  unfoldable pub account_get : Bool → ℕ → SqlProc D L (Option ℕ)
  unfolding loaded_account
  account_get for_update id = query (session.select_account for_update id) >>= loaded_account

  unfoldable pub put_row : ℕ → Option AccountRow → SqlProc D L (Unit {0})
  put_row ref none =
      modify (λ w. write (session.add_account (AccountMapper.to_new_orm (w.accounts ref))) w)
  put_row ref (some orm) =
      modify (λ w. write (session.change_account (AccountMapper.update_orm orm (w.accounts ref))) w)

  -- `save`
  unfoldable pub account_save : ℕ → SqlProc D L (Unit {0})
  unfolding put_row
  account_save ref = do
    id ← gets (λ w. (w.accounts ref).id)
    orm ← query (session.get_account id)
    put_row ref orm

  unfoldable pub change_row : ℕ → Option AccountRow → SqlProc D L (Unit {0})
  change_row ref none = raise (library "NoResultFound" "No row was found when one was required")
  change_row ref (some orm) =
      modify (λ w. write (session.change_account (AccountMapper.update_orm orm (w.accounts ref))) w)

  -- `update`, whose `scalar_one` wants a row.
  unfoldable pub account_update : ℕ → SqlProc D L (Unit {0})
  unfolding change_row
  account_update ref = do
    id ← gets (λ w. (w.accounts ref).id)
    orm ← query (session.select_account true id)
    change_row ref orm

  -- `exists`
  unfoldable pub account_exists : ℕ → SqlProc D L Bool
  account_exists id = do
    orm ← query (session.select_account false id)
    pure (elim orm [ none ↦ false | some _ ↦ true ])

  abbrev pub account_repository : AccountRepository (SqlStore D) L
  account_repository = record {
    get = account_get false;
    get_with_lock = account_get true;
    save = account_save;
    update = account_update;
    exists = account_exists;
  }

  unfoldable pub loaded_transaction : Option TransactionRow → SqlProc D L (Option ℕ)
  unfolding new_transaction
  loaded_transaction none = pure none
  loaded_transaction (some orm) = do
    ref ← new_transaction (TransactionMapper.to_domain orm)
    pure (some ref)

  unfoldable pub remembered : Option ℕ → SqlProc D L (Option ℕ)
  remembered none = pure none
  remembered (some ref) = do modify (see_transaction ref); pure (some ref)

  -- `PostgresTransactionRepository.get`
  unfoldable pub transaction_get : ℕ → SqlProc D L (Option ℕ)
  unfolding loaded_transaction remembered
  transaction_get id = query (session.select_transaction id) >>= loaded_transaction >>= remembered

  -- `get_by_idempotency_key`, which does not append to `seen`.
  unfoldable pub transaction_get_by_idempotency_key : String → SqlProc D L (Option ℕ)
  unfolding loaded_transaction
  transaction_get_by_idempotency_key key = query (session.select_by_key key) >>= loaded_transaction

  unfoldable pub put_transaction_row : ℕ → Option TransactionRow → SqlProc D L (Unit {0})
  put_transaction_row ref none =
      modify
        (λ w. write (session.add_transaction (TransactionMapper.to_new_orm (w.transactions ref))) w)
  put_transaction_row ref (some orm) = modify (λ w.
      write (session.change_transaction (TransactionMapper.update_orm orm (w.transactions ref))) w)

  unfoldable pub transaction_save : ℕ → SqlProc D L (Unit {0})
  unfolding put_transaction_row
  transaction_save ref = do
    id ← gets (λ w. (w.transactions ref).id)
    orm ← query (session.get_transaction id)
    put_transaction_row ref orm

  -- `update` of a transaction, which is not in the port: nothing calls it. Without a row the mapper
  -- assigns to an attribute of `None`.
  unfoldable change_transaction_row : ℕ → Option TransactionRow → SqlProc D L (Unit {0})
  change_transaction_row ref none =
      raise (library "AttributeError" "'NoneType' object has no attribute 'status'")
  change_transaction_row ref (some orm) = modify (λ w.
      write (session.change_transaction (TransactionMapper.update_orm orm (w.transactions ref))) w)

  unfoldable transaction_update : ℕ → SqlProc D L (Unit {0})
  unfolding change_transaction_row
  transaction_update ref = do
    id ← gets (λ w. (w.transactions ref).id)
    orm ← query (session.get_transaction id)
    change_transaction_row ref orm

  abbrev pub transaction_repository : TransactionRepository (SqlStore D) L
  transaction_repository = record {
    get = transaction_get;
    get_by_idempotency_key = transaction_get_by_idempotency_key;
    save = transaction_save;
  }
