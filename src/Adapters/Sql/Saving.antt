-- ===== src/Adapters/Sql/Saving.antt =====
-- The statements that write, when the database answers.
use banking_transaction_syst.Prelude.{ℕ, ◌≡◌, refl, true, some, none}
use banking_transaction_syst.Domain.Exceptions.{ok}
use banking_transaction_syst.Domain.Account.{Account}
use banking_transaction_syst.Domain.Transaction.{Transaction}
use banking_transaction_syst.Adapters.Mappers.AccountMapper
use banking_transaction_syst.Adapters.Mappers.AccountMapper.{AccountRow}
use banking_transaction_syst.Adapters.Mappers.TransactionMapper
use banking_transaction_syst.Adapters.Sql.Session.{Session, SqlWorld, write}
use banking_transaction_syst.Adapters.Sql.Repositories.{
  account_save, put_row, account_update, change_row, transaction_save, put_transaction_row,
}
use banking_transaction_syst.Adapters.Sql.Views.{Answers}

module _ {D L : Type 0} (session : Session D) (answers : Answers session) (ref : ℕ)
    (w : SqlWorld D L) where
  pub account_update_ok :
      (a : Account) (orm : AccountRow)
      → w.accounts ref ≡ a
      → answers.rows w.store.db a.id ≡ some orm
      → account_update session ref w
        ≡ (ok tt, write (session.change_account (AccountMapper.update_orm orm a)) w)
  unfolding account_update change_row
  account_update_ok a orm here h =
      rw (here, answers.select_answers true a.id w.store.db, h) (rw here refl)

  pub account_save_new :
      (a : Account)
      → w.accounts ref ≡ a
      → answers.rows w.store.db a.id ≡ none
      → account_save session ref w
        ≡ (ok tt, write (session.add_account (AccountMapper.to_new_orm a)) w)
  unfolding account_save put_row
  account_save_new a here h = rw (here, answers.get_answers a.id w.store.db, h) (rw here refl)

  pub transaction_save_new :
      (t : Transaction)
      → w.transactions ref ≡ t
      → answers.transaction_rows w.store.db t.id ≡ none
      → transaction_save session ref w
        ≡ (ok tt, write (session.add_transaction (TransactionMapper.to_new_orm t)) w)
  unfolding transaction_save put_transaction_row
  transaction_save_new t here h =
      rw (here, answers.get_transaction_answers t.id w.store.db, h) (rw here refl)
