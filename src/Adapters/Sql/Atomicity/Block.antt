-- ===== src/Adapters/Sql/Atomicity/Block.antt =====
-- The block inside the unit of work: whatever raises, the table of accounts is as it was.
use banking_transaction_syst.Prelude.{ℕ, String, true, Option}
use banking_transaction_syst.Domain.Amount.{Money}
use banking_transaction_syst.Domain.Enums.TransactionTypeEnum.{transfer}
use banking_transaction_syst.Domain.Exceptions.{Exn, Result, ok, err, message}
use banking_transaction_syst.Domain.Transaction
use banking_transaction_syst.Domain.Transaction.{fail}
use banking_transaction_syst.Application.Runtime.{
  Env, ◌>>◌, attempt, on_transaction, make_transaction,
}
use banking_transaction_syst.Application.Runtime.Triples.{
  Triple, Outcome, bind-Triple, attempt-Triple, both-Triple, weaken,
}
use banking_transaction_syst.Application.Ports.{with_uow, failed}
use banking_transaction_syst.Application.Dtos.{TransferCommand}
use banking_transaction_syst.Application.TransferService.{
  Parties, load, failure_code, move_money, record_failure, persist, execute,
}
use banking_transaction_syst.Adapters.Mappers.AccountMapper.{AccountRow}
use banking_transaction_syst.Adapters.Sql.Session.{Session, SqlWorld, SqlProc}
use banking_transaction_syst.Adapters.Sql.Repositories.{
  account_update, transaction_save, transaction_get_by_idempotency_key,
}
use banking_transaction_syst.Adapters.Sql.UnitOfWork.{commit, enter, exit, unit_of_work}
use banking_transaction_syst.Adapters.Sql.Views.{Views}
use banking_transaction_syst.Adapters.Sql.Atomicity.Commit.{
  enter-Clean, exit-Kept, commit-Clean, commit_any,
}
use banking_transaction_syst.Adapters.Sql.Atomicity.Statements.{
  Quiet, Old, get_by_key-Preserves, transaction_save-Preserves, account_update-Preserves,
  load-Preserves, transaction_call-Preserves, move_money-Preserves, make_transaction-Preserves,
  transaction_save-Kept,
}

module _ {D L : Type 0} (session : Session D) (views : Views session)
    (rows : ℕ → Option AccountRow) where
  abbrev pub Good : SqlWorld D L → Type 0
  Good = Quiet session views rows

  abbrev pub Safe : SqlWorld D L → Type 0
  Safe = Old session views rows

  abbrev pub Any : {A : Type 0} → A → SqlWorld D L → Type 0
  Any _ _ = Unit {0}

  -- The same, with an exception allowed to lose what was staged.
  relaxed :
      {A : Type 0} (k : SqlProc D L A)
      → ((w : SqlWorld D L) → Good w → Good (k w).1)
      → Triple Good k (λ _. Good) Safe
  relaxed k h = weaken (λ w i. i) (λ a w i. i) (λ w i. i.kept) (both-Triple k h)

  record_failure_safe :
      (env : Env) (p : Parties) (e : Exn)
      → Triple Good (record_failure env (unit_of_work session) p e) (λ _. Good) Safe
  unfolding record_failure
  record_failure_safe env p e =
      bind-Triple (on_transaction env (λ d. fail d (failure_code e) (message env.uuid_text e)) p.tx)
        _ (relaxed _ (transaction_call-Preserves session views rows env _ p.tx).keeps)
        (λ _.
          bind-Triple (transaction_save session p.tx) _
            (relaxed _ (transaction_save-Preserves session views rows p.tx).keeps)
            (λ _.
              bind-Triple (commit session) _ (commit-Clean session views rows)
                (λ _. record { holds = λ w i. i })))

  persist_safe :
      (env : Env) (p : Parties) → Triple Safe (persist env (unit_of_work session) p) Any Safe
  unfolding persist
  persist_safe env p =
      bind-Triple (account_update session p.sender) _
        (both-Triple _ (account_update-Preserves session views rows p.sender).keeps)
        (λ _.
          bind-Triple (account_update session p.receiver) _
            (both-Triple _ (account_update-Preserves session views rows p.receiver).keeps)
            (λ _.
              bind-Triple (transaction_save session p.tx) _
                (both-Triple _ (transaction_save-Kept session views rows p.tx).keeps)
                (λ _.
                  bind-Triple (commit session) _ (commit_any session views rows)
                    (λ _. record { holds = λ w i. tt }))))

  moved_safe :
      (env : Env) (p : Parties) (m : Money)
      → Triple Good
          (attempt (move_money env p m) (record_failure env (unit_of_work session) p)
            >> persist env (unit_of_work session) p)
          Any
          Safe
  moved_safe env p m =
      bind-Triple (attempt (move_money env p m) (record_failure env (unit_of_work session) p)) _
        (attempt-Triple (move_money env p m) _
          (both-Triple (move_money env p m) (move_money-Preserves session views rows env p m).keeps)
          (record_failure_safe env p))
        (λ _. weaken (λ w i. i.kept) (λ a w i. i) (λ w i. i) (persist_safe env p))

  pub execute_safe :
      (env : Env) (cmd : TransferCommand) (m : Money)
      → Triple Good (execute env (unit_of_work session) cmd m) Any Safe
  unfolding execute
  execute_safe env cmd m =
      bind-Triple (load (unit_of_work session) cmd.from_account_id) _
        (relaxed _ (load-Preserves session views rows cmd.from_account_id).keeps)
        (λ s.
          bind-Triple (load (unit_of_work session) cmd.to_account_id) _
            (relaxed _ (load-Preserves session views rows cmd.to_account_id).keeps)
            (λ r.
              bind-Triple
                (make_transaction env (λ d.
                  Transaction.initiate d cmd.from_account_id cmd.to_account_id m cmd.idempotency_key
                    transfer))
                _ (relaxed _ (make_transaction-Preserves session views rows env _).keeps)
                (λ tx. moved_safe env (record { sender = s; receiver = r; tx = tx }) m)))

  closed :
      {A : Type 0} (q : Result A × SqlWorld D L)
      → Outcome Any Safe q
      → Outcome Any Safe (q.0, exit session (failed q.0) q.1)
  closed (ok a, w) h = tt
  closed (err e, w) h = exit-Kept session views rows true w h

  pub block_safe :
      {A : Type 0} (body : SqlProc D L A)
      → Triple Good body Any Safe
      → Triple Safe (with_uow (unit_of_work session) body) Any Safe
  block_safe body t = record {
    holds = λ w i.
        closed (body (enter session w))
          (t.holds (enter session w) (enter-Clean session views rows w i));
  }

  pub lookup_safe :
      (key : String)
      → Triple Safe
          (with_uow (unit_of_work session) (transaction_get_by_idempotency_key session key))
          (λ _. Safe)
          Safe
  lookup_safe key = both-Triple _ (λ w i.
      exit-Kept session views rows _ _
        ((get_by_key-Preserves session views rows key).keeps (enter session w)
          (enter-Clean session views rows w i)).kept)
