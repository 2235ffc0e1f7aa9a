-- ===== src/Application/TransferService/Execution.antt =====
-- The block inside the unit of work, whatever the storage: it loads both accounts, makes the
-- transaction, moves the money, and then persists or records the failure.
use banking_transaction_syst.Prelude.{ℕ, suc, String, List, ◌≡◌, ◌∙◌, Option, none, some, arith}
use banking_transaction_syst.Prelude.Dict.{update, update_self}
use banking_transaction_syst.Domain.Enums.TransactionStatusEnum.{pending, processing, can_fail}
use banking_transaction_syst.Domain.Enums.TransactionTypeEnum.{transfer}
use banking_transaction_syst.Domain.Amount.{Money}
use banking_transaction_syst.Domain.Exceptions.{Exn, Result, ok, err, base, message}
use banking_transaction_syst.Domain.Exceptions.Classes.{resource_not_found}
use banking_transaction_syst.Domain.Base.{Draw}
use banking_transaction_syst.Domain.Transaction
use banking_transaction_syst.Domain.Transaction.{fail, failing}
use banking_transaction_syst.Domain.Transaction.Histories.{initiate_lem}
use banking_transaction_syst.Application.Runtime.{
  World, Env, Proc, ◌>>=◌, ◌>>◌, attempt, on_transaction, make_transaction,
}
use banking_transaction_syst.Application.Runtime.Steps.{
  bind_ok, bind_err, attempt_ok, attempt_err, on_transaction_ok, make_transaction_ok,
  make_transaction_err,
}
use banking_transaction_syst.Application.Ports.{UnitOfWork}
use banking_transaction_syst.Application.Dtos.{TransferCommand}
use banking_transaction_syst.Application.TransferService.{
  Parties, found, load, move_money, record_failure, persist, execute, failure_code,
}

-- Step 6.
abbrev pub begin : TransferCommand → Money → Draw → Result Transaction.Transaction
begin cmd m d =
    Transaction.initiate d cmd.from_account_id cmd.to_account_id m cmd.idempotency_key transfer

-- The process once the failure of `u` is noted on it.
abbrev pub failed_world :
    {S L : Type 0} → Env → ℕ → Exn → Transaction.Transaction → World S L → World S L
failed_world env ref e u w' = record w' {
  transactions =
      update w'.transactions ref
        (failing (env.supply w'.draws) (failure_code e) (message env.uuid_text e) u);
  draws = suc w'.draws;
}

module _ {S L : Type 0} (env : Env) (uow : UnitOfWork S L) (cmd : TransferCommand) (m : Money) where
  found-some :
      (id ref : ℕ) (k : Proc S L (Option ℕ)) (w w' : World S L)
      → k w ≡ (ok (some ref), w')
      → (k >>= found id) w ≡ (ok ref, w')
  unfolding found
  found-some id ref k w w' h = bind_ok k (found id) h

  found-none :
      (id : ℕ) (k : Proc S L (Option ℕ)) (w w' : World S L)
      → k w ≡ (ok none, w')
      → (k >>= found id) w ≡ (err (base (resource_not_found "Account" id)), w')
  unfolding found
  found-none id k w w' h = bind_ok k (found id) h

  pub execute_no_sender :
      (w w' : World S L)
      → uow.accounts.get_with_lock cmd.from_account_id w ≡ (ok none, w')
      → execute env uow cmd m w
        ≡ (err (base (resource_not_found "Account" cmd.from_account_id)), w')
  unfolding execute
  execute_no_sender w w' h =
      bind_err (load uow cmd.from_account_id) _
        (found-none cmd.from_account_id (uow.accounts.get_with_lock cmd.from_account_id) w w' h)

  module _ (w wa : World S L) (s : ℕ)
      (got_sender : uow.accounts.get_with_lock cmd.from_account_id w ≡ (ok (some s), wa)) where
    sender_found : load uow cmd.from_account_id w ≡ (ok s, wa)
    sender_found =
        found-some cmd.from_account_id s (uow.accounts.get_with_lock cmd.from_account_id) w wa
          got_sender

    pub execute_no_receiver :
        (w' : World S L)
        → uow.accounts.get_with_lock cmd.to_account_id wa ≡ (ok none, w')
        → execute env uow cmd m w
          ≡ (err (base (resource_not_found "Account" cmd.to_account_id)), w')
    unfolding execute
    execute_no_receiver w' h =
        bind_ok (load uow cmd.from_account_id) _ sender_found
        ∙ bind_err (load uow cmd.to_account_id) _
            (found-none cmd.to_account_id (uow.accounts.get_with_lock cmd.to_account_id) wa w' h)

    module _ (wb : World S L) (r : ℕ)
        (got_receiver : uow.accounts.get_with_lock cmd.to_account_id wa ≡ (ok (some r), wb)) where
      receiver_found : load uow cmd.to_account_id wa ≡ (ok r, wb)
      receiver_found =
          found-some cmd.to_account_id r (uow.accounts.get_with_lock cmd.to_account_id) wa wb
            got_receiver

      -- A guard of `Transaction.initiate` raises: nothing has been written.
      pub execute_refused :
          (e : Exn)
          → begin cmd m (env.supply wb.draws) ≡ err e
          → execute env uow cmd m w ≡ (err e, record wb { draws = suc wb.draws })
      unfolding execute
      execute_refused e h =
          bind_ok (load uow cmd.from_account_id) _ sender_found
          ∙ (bind_ok (load uow cmd.to_account_id) _ receiver_found
              ∙ bind_err (make_transaction env (begin cmd m)) _
                  (make_transaction_err env wb (begin cmd m) e h))

      module _ (t : Transaction.Transaction) (made : begin cmd m (env.supply wb.draws) ≡ ok t) where
        abbrev pub parties : Parties
        parties = record { sender = s; receiver = r; tx = wb.next }

        -- The process when the money starts to move.
        abbrev pub wc : World S L
        wc = record wb {
          transactions = update wb.transactions wb.next t;
          next = suc wb.next;
          draws = suc wb.draws;
        }

        pub here : wc.transactions wb.next ≡ t
        here = update_self wb.transactions wb.next t

        pub fresh : t.status ≡ pending
        fresh =
            ((initiate_lem (env.supply wb.draws) cmd.from_account_id cmd.to_account_id m
                cmd.idempotency_key transfer).2
              t made).1

        execute_moves :
            execute env uow cmd m w
            ≡ (attempt (move_money env parties m) (record_failure env uow parties)
                  >> persist env uow parties)
                wc
        unfolding execute
        execute_moves =
            bind_ok (load uow cmd.from_account_id) _ sender_found
            ∙ (bind_ok (load uow cmd.to_account_id) _ receiver_found
                ∙ bind_ok (make_transaction env (begin cmd m)) _
                    (make_transaction_ok env wb (begin cmd m) t made))

        pub execute_ok :
            (w' : World S L)
            → move_money env parties m wc ≡ (ok tt, w')
            → execute env uow cmd m w ≡ persist env uow parties w'
        execute_ok w' h =
            execute_moves
            ∙ bind_ok (attempt (move_money env parties m) (record_failure env uow parties)) _
                (attempt_ok (move_money env parties m) _ h)

        fail_processing :
            (d : Draw) (code : List ℕ) (reason : String) (x u : Transaction.Transaction)
            → x ≡ u
            → u.status ≡ processing
            → fail d code reason x ≡ ok (failing d code reason u)
        unfolding fail can_fail
        fail_processing d code reason x u at status = rw at (ground (arith, status))

        -- The failure is recorded on the transaction, saved and committed, and raised again.
        pub execute_err :
            (e : Exn) (w' x y : World S L) (u : Transaction.Transaction)
            → move_money env parties m wc ≡ (err e, w')
            → w'.transactions wb.next ≡ u
            → u.status ≡ processing
            → uow.transactions.save wb.next (failed_world env wb.next e u w') ≡ (ok tt, x)
            → uow.commit x ≡ (ok tt, y)
            → execute env uow cmd m w ≡ (err e, y)
        execute_err e w' x y u h at status saved done =
            execute_moves
            ∙ bind_err (attempt (move_money env parties m) (record_failure env uow parties)) _
                (attempt_err (move_money env parties m) _ h ∙ recorded)
          where
            failer : Draw → Transaction.Transaction → Result Transaction.Transaction
            failer d = fail d (failure_code e) (message env.uuid_text e)

            recorded : record_failure env uow parties e w' ≡ (err e, y)
            recorded =
                unfold record_failure in
                bind_ok (on_transaction env failer wb.next) _
                  (on_transaction_ok env wb.next w' failer _ (fail_processing _ _ _ _ u at status))
                ∙ (bind_ok (uow.transactions.save wb.next) _ saved ∙ bind_ok uow.commit _ done)
