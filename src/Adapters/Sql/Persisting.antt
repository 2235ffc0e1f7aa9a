-- ===== src/Adapters/Sql/Persisting.antt =====
-- Steps 8 and 9 in the database: both accounts, the transaction and the messages in one commit.
use banking_transaction_syst.Prelude.{ℕ, ◌≡◌, ◌≢◌, ap, ◌∙◌, Option, some, none, [], ◌∷◌}
use banking_transaction_syst.Prelude.Tests.{nat_eq}
use banking_transaction_syst.Prelude.Dict.{update_ne}
use banking_transaction_syst.Domain.Exceptions.{ok}
use banking_transaction_syst.Domain.Account.{Account}
use banking_transaction_syst.Domain.Transaction.{Transaction}
use banking_transaction_syst.Application.Runtime.{Env}
use banking_transaction_syst.Application.Runtime.Steps.{bind_ok}
use banking_transaction_syst.Application.TransferService.{Parties, persist}
use banking_transaction_syst.Adapters.Mappers.AccountMapper
use banking_transaction_syst.Adapters.Mappers.AccountMapper.{AccountRow}
use banking_transaction_syst.Adapters.Mappers.TransactionMapper
use banking_transaction_syst.Adapters.Mappers.TransactionMapper.{TransactionRow}
use banking_transaction_syst.Adapters.Sql.Session.{Session, SqlWorld, write}
use banking_transaction_syst.Adapters.Sql.Repositories.{transaction_save, account_update}
use banking_transaction_syst.Adapters.Sql.UnitOfWork.{commit, unit_of_work}
use banking_transaction_syst.Adapters.Sql.Views.{Answers}
use banking_transaction_syst.Adapters.Sql.Outbox
use banking_transaction_syst.Adapters.Sql.Saving.{account_update_ok, transaction_save_new}

module _ {D L : Type 0} (session : Session D) (answers : Answers session) (env : Env) (p : Parties)
    (v : SqlWorld D L) (a b : Account) (u : Transaction) {sender_row receiver_row : AccountRow}
    (sender : v.accounts p.sender ≡ a) (receiver : v.accounts p.receiver ≡ b)
    (tx : v.transactions p.tx ≡ u) (other : p.sender ≢ p.receiver)
    (sender_read : answers.rows v.store.db a.id ≡ some sender_row)
    (receiver_read : answers.rows v.store.db b.id ≡ some receiver_row)
    (distinct : sender_row.id ≢ b.id) (unused : answers.transaction_rows v.store.db u.id ≡ none)
    (seen : v.store.accounts_seen ≡ p.sender ∷ p.receiver ∷ [])
    (no_tx : v.store.transactions_seen ≡ []) where
  abbrev pub row_a : AccountRow
  row_a = AccountMapper.update_orm sender_row a

  abbrev pub row_b : AccountRow
  row_b = AccountMapper.update_orm receiver_row b

  abbrev sa : SqlWorld D L
  sa = write (session.change_account row_a) v

  abbrev sb : SqlWorld D L
  sb = write (session.change_account row_b) sa

  abbrev sc : SqlWorld D L
  sc = write (session.add_transaction (TransactionMapper.to_new_orm u)) sb

  update_a : account_update session p.sender v ≡ (ok tt, sa)
  update_a = account_update_ok session answers p.sender v a sender_row sender sender_read

  -- The row of the receiver is read after the sender's row was changed.
  still_there : answers.rows sa.store.db b.id ≡ some receiver_row
  unfolding AccountMapper.update_orm
  still_there =
      ap (λ (f : ℕ → Option AccountRow). f b.id) (answers.change_rows row_a v.store.db)
      ∙ (update_ne (answers.rows v.store.db) row_a.id (some row_a) b.id distinct ∙ receiver_read)

  update_b : account_update session p.receiver sa ≡ (ok tt, sb)
  update_b = account_update_ok session answers p.receiver sa b receiver_row receiver still_there

  still_new : answers.transaction_rows sb.store.db u.id ≡ none
  still_new =
      ap (λ (f : ℕ → Option TransactionRow). f u.id)
        (answers.change_transaction_rows row_b sa.store.db
          ∙ answers.change_transaction_rows row_a v.store.db)
      ∙ unused

  saved : transaction_save session p.tx sb ≡ (ok tt, sc)
  saved = transaction_save_new session answers p.tx sb u tx still_new

  abbrev pub done : SqlWorld D L
  done = Outbox.drained session p.sender p.receiver a b sc

  abbrev pub after : SqlWorld D L
  after = write (λ _. answers.committed done.store.db) done

  commits : commit session sc ≡ (ok tt, after)
  commits =
      Outbox.commit_ok session p.sender p.receiver a b sc seen no_tx other sender receiver answers

  pub persisted : persist env (unit_of_work session) p v ≡ (ok p, after)
  unfolding persist
  persisted =
      bind_ok (account_update session p.sender) _ update_a
      ∙ (bind_ok (account_update session p.receiver) _ update_b
          ∙ (bind_ok (transaction_save session p.tx) _ saved ∙ bind_ok (commit session) _ commits))
