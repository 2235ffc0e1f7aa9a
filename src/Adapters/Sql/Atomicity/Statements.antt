-- ===== src/Adapters/Sql/Atomicity/Statements.antt =====
-- The table of accounts under the statements of the repositories and the methods of aggregates.
use banking_transaction_syst.Prelude.{ℕ, String, ◌≡◌, refl, ap, ◌∙◌, Bool, true, Option, none, some}
use banking_transaction_syst.Domain.Exceptions.{Result}
use banking_transaction_syst.Domain.Base.{Draw}
use banking_transaction_syst.Domain.Account.{Account}
use banking_transaction_syst.Domain.Amount.{Money}
use banking_transaction_syst.Domain.Transaction.{Transaction, mark_processing, complete}
use banking_transaction_syst.Domain.Account.{debit, credit}
use banking_transaction_syst.Application.Runtime.{
  Env, gets, new_account, new_transaction, on_account, on_transaction, make_transaction, drawn,
}
use banking_transaction_syst.Application.Runtime.Keeps.{Preserves, bind-Preserves, still}
use banking_transaction_syst.Application.Runtime.Triples.{
  on_account_store, on_transaction_store, new_transaction_store, new_account_store,
}
use banking_transaction_syst.Application.TransferService.{Parties, found, load, move_money}
use banking_transaction_syst.Adapters.Mappers.AccountMapper
use banking_transaction_syst.Adapters.Mappers.AccountMapper.{AccountRow}
use banking_transaction_syst.Adapters.Mappers.TransactionMapper
use banking_transaction_syst.Adapters.Mappers.TransactionMapper.{TransactionRow}
use banking_transaction_syst.Adapters.Sql.Session.{
  Session, SqlStore, SqlWorld, SqlProc, query, see_account,
}
use banking_transaction_syst.Adapters.Sql.Repositories.{
  loaded_account, account_get, change_row, account_update, loaded_transaction,
  transaction_get_by_idempotency_key, put_transaction_row, transaction_save,
}
use banking_transaction_syst.Adapters.Sql.UnitOfWork.{unit_of_work}
use banking_transaction_syst.Adapters.Sql.Views.{Tables, Views}
use banking_transaction_syst.Adapters.Sql.Atomicity.Commit.{Kept, Clean, same_store-Clean}

module _ {D L : Type 0} (session : Session D) (views : Views session)
    (rows : ℕ → Option AccountRow) where
  abbrev pub Quiet : SqlWorld D L → Type 0
  Quiet = Clean session views rows

  abbrev pub Old : SqlWorld D L → Type 0
  Old = Kept session views rows

  -- A coroutine that leaves the store alone.
  pub storeless-Preserves :
      {A : Type 0} (k : SqlProc D L A)
      → ((w : SqlWorld D L) → (k w).1.store ≡ w.store)
      → Preserves Quiet k
  storeless-Preserves k h = record {
    keeps = λ w i.
        same_store-Clean session views rows (k w).1 w (ap (λ (s : SqlStore D). s.db) (h w)) i;
  }

  loaded_account-Preserves :
      (orm : Option AccountRow) → Preserves Quiet (loaded_account {L = L} session orm)
  unfolding loaded_account
  loaded_account-Preserves none = still Quiet (λ w. _)
  loaded_account-Preserves (some orm) =
      bind-Preserves Quiet (new_account (AccountMapper.to_domain orm)) _
        (storeless-Preserves _ (new_account_store (AccountMapper.to_domain orm)))
        (λ ref. record {
          keeps = λ w i. same_store-Clean session views rows (see_account ref w) w refl i;
        })

  pub account_get-Preserves :
      (for_update : Bool) (id : ℕ) → Preserves Quiet (account_get {L = L} session for_update id)
  unfolding account_get
  account_get-Preserves for_update id =
      bind-Preserves Quiet (query (session.select_account for_update id)) (loaded_account session)
        (still Quiet _) loaded_account-Preserves

  loaded_transaction-Preserves :
      (orm : Option TransactionRow) → Preserves Quiet (loaded_transaction {L = L} session orm)
  unfolding loaded_transaction
  loaded_transaction-Preserves none = still Quiet (λ w. _)
  loaded_transaction-Preserves (some orm) =
      bind-Preserves Quiet (new_transaction (TransactionMapper.to_domain orm)) _
        (storeless-Preserves _ (new_transaction_store (TransactionMapper.to_domain orm)))
        (λ ref. still Quiet (λ w. _))

  pub get_by_key-Preserves :
      (key : String) → Preserves Quiet (transaction_get_by_idempotency_key {L = L} session key)
  unfolding transaction_get_by_idempotency_key
  get_by_key-Preserves key =
      bind-Preserves Quiet (query (session.select_by_key key)) (loaded_transaction session)
        (still Quiet _) loaded_transaction-Preserves

  put_row-Kept :
      (ref : ℕ) (orm : Option TransactionRow)
      → Preserves Old (put_transaction_row {L = L} session ref orm)
  unfolding put_transaction_row
  put_row-Kept ref none = record {
    keeps = λ w i. record {
      durable =
          ap (λ (t : Tables). t.accounts)
            (views.add_transaction_durable (TransactionMapper.to_new_orm (w.transactions ref))
              w.store.db)
          ∙ i.durable;
    };
  }
  put_row-Kept ref (some orm) = record {
    keeps = λ w i. record {
      durable =
          ap (λ (t : Tables). t.accounts)
            (views.change_transaction_durable
              (TransactionMapper.update_orm orm (w.transactions ref)) w.store.db)
          ∙ i.durable;
    };
  }

  put_row-Preserves :
      (ref : ℕ) (orm : Option TransactionRow)
      → Preserves Quiet (put_transaction_row {L = L} session ref orm)
  unfolding put_transaction_row
  put_row-Preserves ref none = record {
    keeps = λ w i. record {
      kept = (put_row-Kept ref none).keeps w i.kept;
      staged =
          ap (λ (t : Tables). t.accounts)
            (views.add_transaction_staged (TransactionMapper.to_new_orm (w.transactions ref))
              w.store.db)
          ∙ i.staged;
    };
  }
  put_row-Preserves ref (some orm) = record {
    keeps = λ w i. record {
      kept = (put_row-Kept ref (some orm)).keeps w i.kept;
      staged =
          ap (λ (t : Tables). t.accounts)
            (views.change_transaction_staged (TransactionMapper.update_orm orm (w.transactions ref))
              w.store.db)
          ∙ i.staged;
    };
  }

  saving :
      (I : SqlWorld D L → Type 0) (ref : ℕ)
      → ((orm : Option TransactionRow) → Preserves I (put_transaction_row session ref orm))
      → Preserves I (transaction_save session ref)
  unfolding transaction_save
  saving I ref h = bind-Preserves I (gets (λ w. (w.transactions ref).id)) _ (still I _) (λ id.
      bind-Preserves I (query (session.get_transaction id)) (put_transaction_row session ref)
        (still I _) h)

  pub transaction_save-Preserves :
      (ref : ℕ) → Preserves Quiet (transaction_save {L = L} session ref)
  transaction_save-Preserves ref = saving Quiet ref (put_row-Preserves ref)

  pub transaction_save-Kept : (ref : ℕ) → Preserves Old (transaction_save {L = L} session ref)
  transaction_save-Kept ref = saving Old ref (put_row-Kept ref)

  change_row-Preserves :
      (ref : ℕ) (orm : Option AccountRow) → Preserves Old (change_row {L = L} session ref orm)
  unfolding change_row
  change_row-Preserves ref none = still Old (λ w. _)
  change_row-Preserves ref (some orm) = record {
    keeps = λ w i. record {
      durable =
          ap (λ (t : Tables). t.accounts)
            (views.change_account_durable (AccountMapper.update_orm orm (w.accounts ref))
              w.store.db)
          ∙ i.durable;
    };
  }

  pub account_update-Preserves : (ref : ℕ) → Preserves Old (account_update {L = L} session ref)
  unfolding account_update
  account_update-Preserves ref =
      bind-Preserves Old (gets (λ w. (w.accounts ref).id)) _ (still Old _) (λ id.
        bind-Preserves Old (query (session.select_account true id)) (change_row session ref)
          (still Old _) (change_row-Preserves ref))

  pub load-Preserves : (id : ℕ) → Preserves Quiet (load (unit_of_work {L = L} session) id)
  load-Preserves id =
      bind-Preserves Quiet (account_get session true id) (found id) (account_get-Preserves true id)
        (found-Preserves id)
    where
      found-Preserves : (id : ℕ) (o : Option ℕ) → Preserves Quiet (found id o)
      found-Preserves id none = unfold found in still Quiet (λ w. _)
      found-Preserves id (some ref) = unfold found in still Quiet (λ w. _)

  account_call-Preserves :
      (env : Env) (method : Draw → Account → Result Account) (ref : ℕ)
      → Preserves Quiet (on_account env method ref)
  account_call-Preserves env method ref =
      storeless-Preserves (on_account env method ref) (on_account_store env method ref)

  pub transaction_call-Preserves :
      (env : Env) (method : Draw → Transaction → Result Transaction) (ref : ℕ)
      → Preserves Quiet (on_transaction env method ref)
  transaction_call-Preserves env method ref =
      storeless-Preserves (on_transaction env method ref) (on_transaction_store env method ref)

  pub move_money-Preserves :
      (env : Env) (p : Parties) (m : Money) → Preserves Quiet (move_money env p m)
  unfolding move_money
  move_money-Preserves env p m =
      bind-Preserves Quiet (on_transaction env mark_processing p.tx) _
        (transaction_call-Preserves env mark_processing p.tx)
        (λ _.
          bind-Preserves Quiet (gets (λ w. (w.transactions p.tx).id)) _ (still Quiet _) (λ tx_id.
            bind-Preserves Quiet (on_account env (λ d. debit d m tx_id) p.sender) _
              (account_call-Preserves env (λ d. debit d m tx_id) p.sender)
              (λ _.
                bind-Preserves Quiet (on_account env (λ d. credit d m tx_id) p.receiver) _
                  (account_call-Preserves env (λ d. credit d m tx_id) p.receiver)
                  (λ _. transaction_call-Preserves env complete p.tx))))

  pub make_transaction-Preserves :
      (env : Env) (method : Draw → Result Transaction)
      → Preserves Quiet (make_transaction env method)
  unfolding make_transaction
  make_transaction-Preserves env method =
      storeless-Preserves _ (λ w. new_transaction_store (method (env.supply w.draws)) (drawn env w))
