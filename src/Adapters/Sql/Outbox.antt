-- ===== src/Adapters/Sql/Outbox.antt =====
-- What a commit writes to the outbox when two accounts and no transaction were seen.
use banking_transaction_syst.Prelude.{ℕ, ◌≡◌, ◌≢◌, refl, [], ◌∷◌}
use banking_transaction_syst.Prelude.Tests.{nat_eq}
use banking_transaction_syst.Prelude.Dict.{update, update_ne}
use banking_transaction_syst.Domain.Exceptions.{ok}
use banking_transaction_syst.Domain.Account.{Account}
use banking_transaction_syst.Application.TransferService.{collect_account}
use banking_transaction_syst.Application.TransferService.Publication.{cleared}
use banking_transaction_syst.Adapters.Sql.Session.{Session, SqlWorld, write}
use banking_transaction_syst.Adapters.Sql.UnitOfWork.{
  add_messages, collect_and_store_events, settle, commit,
}
use banking_transaction_syst.Adapters.Sql.Views.{Answers}

module _ {D L : Type 0} (session : Session D) where
  -- The process after `_collect_and_store_events`.
  abbrev pub drained : (s r : ℕ) (a b : Account) → SqlWorld D L → SqlWorld D L
  drained s r a b w = record w {
    accounts = update (update w.accounts s (cleared a)) r (cleared b);
    store = record w.store {
      db = add_messages session b.domain_events (add_messages session a.domain_events w.store.db);
    };
  }

  module _ (s r : ℕ) (a b : Account) (w : SqlWorld D L) (seen : w.store.accounts_seen ≡ s ∷ r ∷ [])
      (no_tx : w.store.transactions_seen ≡ []) (other : s ≢ r) (sender : w.accounts s ≡ a)
      (receiver : w.accounts r ≡ b) where
    pub collected : collect_and_store_events session w ≡ drained s r a b w
    unfolding collect_and_store_events collect_account
    collected = rw (no_tx, seen, sender, update_ne w.accounts s (cleared a) r other, receiver) refl

    -- With a database that commits.
    pub commit_ok :
        (answers : Answers session)
        → commit session w
          ≡ (ok tt, write (λ _. answers.committed (drained s r a b w).store.db) (drained s r a b w))
    unfolding commit settle
    commit_ok answers = rw (collected, answers.commits (drained s r a b w).store.db) refl
