-- ===== src/Adapters/Sql/Atomicity/Commit.antt =====
-- The table of accounts under a commit: the messages change the outbox only, and a commit that
-- raises changes nothing.
use banking_transaction_syst.Prelude.{
  ℕ, ◌≡◌, refl, ap, ◌∙◌, Bool, true, false, Option, List, [], ◌∷◌,
}
use banking_transaction_syst.Domain.Exceptions.{Result, ok, err}
use banking_transaction_syst.Domain.Events.{DomainEvent}
use banking_transaction_syst.Application.Runtime.Triples.{Triple, Outcome}
use banking_transaction_syst.Application.TransferService.{collect_account, collect_transaction}
use banking_transaction_syst.Adapters.Mappers.AccountMapper.{AccountRow}
use banking_transaction_syst.Adapters.Sql.Session.{Session, SqlWorld, write}
use banking_transaction_syst.Adapters.Sql.UnitOfWork.{
  outbox_row, add_messages, store_account_events, store_transaction_events,
  collect_and_store_events, settle, commit, enter, exit,
}
use banking_transaction_syst.Adapters.Sql.Views.{Tables, Views}

module _ {D : Type 0} (session : Session D) (views : Views session) where
  -- The messages of an aggregate change the outbox only.
  add_messages_durable :
      (es : List DomainEvent) (d : D) → views.durable (add_messages session es d) ≡ views.durable d
  add_messages_durable [] d = refl
  add_messages_durable (e ∷ es) d =
      add_messages_durable es (session.add_outbox (outbox_row e) d)
      ∙ views.add_outbox_durable (outbox_row e) d

  add_messages_staged :
      (es : List DomainEvent) (d : D)
      → (views.staged (add_messages session es d)).accounts ≡ (views.staged d).accounts
  add_messages_staged [] d = refl
  add_messages_staged (e ∷ es) d =
      add_messages_staged es (session.add_outbox (outbox_row e) d)
      ∙ ap (λ (t : Tables). t.accounts) (views.add_outbox_staged (outbox_row e) d)

module _ {D L : Type 0} (session : Session D) (views : Views session)
    (rows : ℕ → Option AccountRow) where
  -- The durable accounts are `rows`.
  pub record Kept (w : SqlWorld D L) : Type 0 where
    pub durable : (views.durable w.store.db).accounts ≡ rows

  -- Nothing is staged against `rows` either.
  pub record Clean (w : SqlWorld D L) : Type 0 where
    pub kept : Kept w
    pub staged : (views.staged w.store.db).accounts ≡ rows

  pub same_store : (v w : SqlWorld D L) → v.store.db ≡ w.store.db → Kept w → Kept v
  same_store v w e h = record { durable = ap (λ d. (views.durable d).accounts) e ∙ h.durable }

  pub same_store-Clean : (v w : SqlWorld D L) → v.store.db ≡ w.store.db → Clean w → Clean v
  same_store-Clean v w e h = record {
    kept = same_store v w e h.kept;
    staged = ap (λ d. (views.staged d).accounts) e ∙ h.staged;
  }

  pub enter-Clean : (w : SqlWorld D L) → Kept w → Clean (enter session w)
  enter-Clean w h = record {
    kept = record {
      durable = ap (λ (t : Tables). t.accounts) (views.open_durable w.store.db) ∙ h.durable;
    };
    staged = ap (λ (t : Tables). t.accounts) (views.open_staged w.store.db) ∙ h.durable;
  }

  pub exit-Kept : (raised : Bool) (w : SqlWorld D L) → Kept w → Kept (exit session raised w)
  exit-Kept true w h = record {
    durable =
        ap (λ (t : Tables). t.accounts)
          (views.close_durable (session.rollback w.store.db) ∙ views.rollback_durable w.store.db)
        ∙ h.durable;
  }
  exit-Kept false w h = record {
    durable = ap (λ (t : Tables). t.accounts) (views.close_durable w.store.db) ∙ h.durable;
  }

  -- Two processes whose sessions agree on the accounts.
  record Alike (v w : SqlWorld D L) : Type 0 where
    durable : (views.durable v.store.db).accounts ≡ (views.durable w.store.db).accounts
    staged : (views.staged v.store.db).accounts ≡ (views.staged w.store.db).accounts

  account_events-Alike :
      (refs : List ℕ) (w : SqlWorld D L) → Alike (store_account_events session refs w) w
  unfolding collect_account
  account_events-Alike [] w = record { durable = refl; staged = refl }
  account_events-Alike (ref ∷ refs) w =
      let es = (collect_account ref w).0 in
      let rest =
        account_events-Alike refs (write (add_messages session es) (collect_account ref w).1) in
      record {
        durable =
            rest.durable
            ∙ ap (λ (t : Tables). t.accounts) (add_messages_durable session views es w.store.db);
        staged = rest.staged ∙ add_messages_staged session views es w.store.db;
      }

  transaction_events-Alike :
      (refs : List ℕ) (w : SqlWorld D L) → Alike (store_transaction_events session refs w) w
  unfolding collect_transaction
  transaction_events-Alike [] w = record { durable = refl; staged = refl }
  transaction_events-Alike (ref ∷ refs) w =
      let es = (collect_transaction ref w).0 in
      let rest =
        transaction_events-Alike refs
          (write (add_messages session es) (collect_transaction ref w).1) in
      record {
        durable =
            rest.durable
            ∙ ap (λ (t : Tables). t.accounts) (add_messages_durable session views es w.store.db);
        staged = rest.staged ∙ add_messages_staged session views es w.store.db;
      }

  collected-Alike : (w : SqlWorld D L) → Alike (collect_and_store_events session w) w
  unfolding collect_and_store_events
  collected-Alike w =
      let first = account_events-Alike w.store.accounts_seen w in
      let second =
        transaction_events-Alike w.store.transactions_seen
          (store_account_events session w.store.accounts_seen w) in
      record { durable = second.durable ∙ first.durable; staged = second.staged ∙ first.staged }

  settle_ok :
      (q : Result (Unit {0}) × D) (w : SqlWorld D L)
      → session.commit w.store.db ≡ q
      → Clean w
      → Outcome (λ _. Kept) Kept (settle session q w)
  unfolding settle
  settle_ok (ok _, d) w e h = record {
    durable = ap (λ (t : Tables). t.accounts) (views.commit_ok w.store.db d e) ∙ h.staged;
  }
  settle_ok (err x, d) w e h = record {
    durable =
        ap (λ (t : Tables). t.accounts)
          (views.rollback_durable d ∙ views.commit_err w.store.db d x e)
        ∙ h.kept.durable;
  }

  settle_any :
      (q : Result (Unit {0}) × D) (w : SqlWorld D L)
      → session.commit w.store.db ≡ q
      → Kept w
      → Outcome (λ _ _. Unit {0}) Kept (settle session q w)
  unfolding settle
  settle_any (ok _, d) w e h = tt
  settle_any (err x, d) w e h = record {
    durable =
        ap (λ (t : Tables). t.accounts)
          (views.rollback_durable d ∙ views.commit_err w.store.db d x e)
        ∙ h.durable;
  }

  -- A commit without a change of an account, and a commit with any changes.
  pub commit-Clean : Triple Clean (commit session) (λ _. Kept) Kept
  unfolding commit
  commit-Clean = record {
    holds = λ w h.
        let same = collected-Alike w in
        settle_ok _ (collect_and_store_events session w) refl (record {
          kept = record { durable = same.durable ∙ h.kept.durable };
          staged = same.staged ∙ h.staged;
        });
  }

  pub commit_any : Triple Kept (commit session) (λ _ _. Unit {0}) Kept
  unfolding commit
  commit_any = record {
    holds = λ w h.
        settle_any _ (collect_and_store_events session w) refl
          (record { durable = (collected-Alike w).durable ∙ h.durable });
  }
