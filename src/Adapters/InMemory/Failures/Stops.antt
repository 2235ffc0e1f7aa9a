-- ===== src/Adapters/InMemory/Failures/Stops.antt =====
-- The process in which a refused debit or a refused credit leaves the request.
use banking_transaction_syst.Prelude.{
  ℕ, suc, ◌≡◌, ◌≢◌, refl, ap, ◌∙◌, true, false, some, none, List, arith,
}
use banking_transaction_syst.Prelude.Tests.{nat_eq, string_eq, nat_beq_iff}
use banking_transaction_syst.Prelude.Dict.{lookup, insert, lookup-insert, update_self, update_ne}
use banking_transaction_syst.Domain.Enums.CurrencyEnum.{Currency}
use banking_transaction_syst.Domain.Account.Lifecycle.{debit_active}
use banking_transaction_syst.Domain.Enums.AccountStatusEnum.{active}
use banking_transaction_syst.Domain.Enums.TransactionStatusEnum.{failed}
use banking_transaction_syst.Domain.Enums.TransactionTypeEnum.{transfer}
use banking_transaction_syst.Domain.Amount.{Money}
use banking_transaction_syst.Domain.Money.{decimal, money, sub, is_zero}
use banking_transaction_syst.Domain.Exceptions.{Exn, Result, ok, err, message}
use banking_transaction_syst.Domain.Base.{Draw}
use banking_transaction_syst.Domain.Account.{Account, debit, credit, debited}
use banking_transaction_syst.Domain.Transaction.{Transaction, initiated, processed, failing}
use banking_transaction_syst.Domain.Transaction.Histories.{initiate_ok}
use banking_transaction_syst.Application.Runtime.{Env}
use banking_transaction_syst.Application.Dtos.{TransferCommand, TransactionDto}
use banking_transaction_syst.Application.TransferService.Moves
use banking_transaction_syst.Application.TransferService.Execution
use banking_transaction_syst.Application.TransferService.Requests
use banking_transaction_syst.Application.TransferService.{
  Parties, parse_currency, lock_keys, failure_code, execute, move_money,
}
use banking_transaction_syst.Adapters.InMemory.{
  MemWorld, Held, holds, set_committed, acquire_keys, release_keys, unit_of_work, lock_manager,
  transaction_save,
}
use banking_transaction_syst.Adapters.InMemory.Locks.{release-acquire}
use banking_transaction_syst.Adapters.InMemory.Success
use banking_transaction_syst.Adapters.InMemory.Success.{service}

-- What a transfer that raised `e` leaves: the record of its failure, and nothing published.
pub record Refused (env : Env) (cmd : TransferCommand) (e : Exn) (w w' : MemWorld)
    (answer : Result TransactionDto) : Type 0 where
  pub answered : answer ≡ err e
  pub status : (w'.transactions w.next).status ≡ failed
  pub code : (w'.transactions w.next).failure_code ≡ some (failure_code e)
  pub reason : (w'.transactions w.next).failure_reason ≡ some (message env.uuid_text e)
  pub marked : (w'.transactions w.next).rollback_required ≡ true
  pub by_key : lookup cmd.idempotency_key w'.store.by_idempotency ≡ some (w'.transactions w.next).id
  pub by_id : lookup (w'.transactions w.next).id w'.store.transactions ≡ some w.next
  pub silent : w'.published ≡ w.published
  pub unlocked : w'.locks ≡ w.locks

module _ (env : Env) (cmd : TransferCommand) (c : Currency) (m : Money) (w : MemWorld) (s r : ℕ)
    (new_key : lookup cmd.idempotency_key w.store.by_idempotency ≡ none)
    (known : parse_currency cmd.currency ≡ ok c) (rounded : money (decimal cmd.amount) c ≡ ok m)
    (positive : is_zero m ≡ false) (distinct : cmd.from_account_id ≢ cmd.to_account_id)
    (sender_free : holds cmd.from_account_id w.locks ≡ false)
    (receiver_free : holds cmd.to_account_id w.locks ≡ false)
    (sender_known : lookup cmd.from_account_id w.store.accounts ≡ some s)
    (receiver_known : lookup cmd.to_account_id w.store.accounts ≡ some r) (e : Exn) where
  abbrev t : Transaction
  t =
      initiated (env.supply w.draws) cmd.from_account_id cmd.to_account_id m cmd.idempotency_key
        transfer

  made : Execution.begin cmd m (env.supply w.draws) ≡ ok t
  made =
      initiate_ok (env.supply w.draws) cmd.from_account_id cmd.to_account_id m cmd.idempotency_key
        transfer positive distinct

  abbrev keys : List ℕ
  keys = lock_keys cmd.from_account_id cmd.to_account_id

  abbrev p : Parties
  p = record { sender = s; receiver = r; tx = w.next }

  abbrev t1 : Transaction
  t1 = processed (env.supply (suc w.draws)) t

  module _ (held : Held)
      (free : acquire_keys env.uuid_text keys w.locks ≡ (ok tt, keys, held)) where
    abbrev entered : MemWorld
    entered =
        Success.entered env cmd c m w s r keys held known rounded free sender_known receiver_known

    abbrev seen : MemWorld
    seen =
        Success.saw env cmd c m w s r keys held known rounded free sender_known receiver_known s
          entered

    abbrev loaded : MemWorld
    loaded =
        Success.loaded env cmd c m w s r keys held known rounded free sender_known receiver_known

    abbrev start : MemWorld
    start =
        Execution.wc env unit_of_work cmd m entered seen s
          (Success.got_sender env cmd c m w s r keys held known rounded free sender_known
            receiver_known)
          loaded r
          (Success.got_receiver env cmd c m w s r keys held known rounded free sender_known
            receiver_known)
          t made

    here : start.transactions w.next ≡ t
    here = update_self w.transactions w.next t

    module _ (v : MemWorld) where
      -- The transaction, and the process, once `move_money` has stopped in `v`.
      abbrev u : Transaction
      u = failing (env.supply v.draws) (failure_code e) (message env.uuid_text e) t1

      abbrev noted : MemWorld
      noted = Execution.failed_world env w.next e t1 v

      abbrev saved : MemWorld
      saved = record noted {
        store = record v.store {
          transactions = insert u.id w.next v.store.transactions;
          by_idempotency = insert u.idempotency_key u.id v.store.by_idempotency;
        };
      }

      abbrev final : MemWorld
      final = record (set_committed true saved) { locks = w.locks }

      kept : transaction_save w.next noted ≡ (ok tt, saved)
      unfolding transaction_save
      kept = rw (update_self v.transactions w.next u) refl

      module _ (moves : move_money env p m start ≡ (err e, v)) (at : v.transactions w.next ≡ t1)
          (still : v.locks ≡ held) where
        executed : execute env unit_of_work cmd m entered ≡ (err e, set_committed true saved)
        executed =
            Execution.execute_err env unit_of_work cmd m entered seen s
              (Success.got_sender env cmd c m w s r keys held known rounded free sender_known
                receiver_known)
              loaded r
              (Success.got_receiver env cmd c m w s r keys held known rounded free sender_known
                receiver_known)
              t made e v saved (set_committed true saved) t1 moves at refl kept refl

        unlocked : release_keys keys v.locks ≡ w.locks
        unlocked = rw still (rw free at (release-acquire env.uuid_text keys w.locks))

        raised : service env cmd w ≡ (err e, final)
        raised =
            Requests.initiate_new env unit_of_work (lock_manager env.uuid_text) cmd w
              (set_committed false w) (Success.unknown_key cmd w new_key)
            ∙ (Requests.perform_err env unit_of_work (lock_manager env.uuid_text) cmd
                  (set_committed false w) c known m rounded keys
                  (record (set_committed false w) { locks = held }) (set_committed true saved)
                  (Success.acquired env cmd c m (set_committed false w) s r keys held known rounded
                    free sender_known receiver_known)
                  e executed
                ∙ ap (λ (l : Held). (err e, record (set_committed true saved) { locks = l }))
                    unlocked)

        reported : v.published ≡ w.published → Refused env cmd e w final (err e)
        reported quiet = record {
          answered = refl;
          status = rw (update_self v.transactions w.next u) refl;
          code = rw (update_self v.transactions w.next u) refl;
          reason = rw (update_self v.transactions w.next u) refl;
          marked = rw (update_self v.transactions w.next u) refl;
          by_key = rw (update_self v.transactions w.next u) (
              rw lookup-insert
                (ground (arith, string_eq.beq_iff cmd.idempotency_key cmd.idempotency_key)));
          by_id =
              rw (update_self v.transactions w.next u)
                (rw lookup-insert (ground (arith, nat_beq_iff t.id t.id)));
          silent = quiet;
          unlocked = refl;
        }

    abbrev vd : MemWorld
    vd = record (Moves.w1 env p m start t here refl) { draws = suc (suc start.draws) }

    debit_raised :
        ((d : Draw) (tx : ℕ) → debit d m tx (w.accounts s) ≡ err e)
        → service env cmd w ≡ (err e, final vd)
    debit_raised h =
        raised vd (Moves.move_money-debit_err env p m start t here refl e (h _ _))
          (update_self start.transactions w.next t1) refl

    pub debit_outcome :
        ((d : Draw) (tx : ℕ) → debit d m tx (w.accounts s) ≡ err e)
        → let (answer, w') = service env cmd w in
          Refused env cmd e w w' answer × (w'.accounts ≡ w.accounts)
    debit_outcome h = rw (debit_raised h) (
      reported vd (Moves.move_money-debit_err env p m start t here refl e (h _ _))
          (update_self start.transactions w.next t1) refl refl,
      refl,
    )

    module _ (x : Money) (sender_active : (w.accounts s).status ≡ active)
        (covered : sub (w.accounts s).balance m ≡ ok x) (other : s ≢ r) where
      abbrev a : Account
      a = debited (env.supply (suc (suc w.draws))) m t.id x (w.accounts s)

      paid : debit (env.supply (suc (suc w.draws))) m t.id (w.accounts s) ≡ ok a
      paid =
          debit_active (env.supply (suc (suc w.draws))) m t.id (w.accounts s) x sender_active
            covered

      abbrev vc : MemWorld
      vc = record (Moves.w2 env p m start t here refl a paid) {
        draws = suc (suc (suc start.draws));
      }

      credit_raised :
          ((d : Draw) (tx : ℕ) → credit d m tx (w.accounts r) ≡ err e)
          → service env cmd w ≡ (err e, final vc)
      credit_raised h =
          raised vc (Moves.move_money-credit_err env p m start t here refl a paid other e (h _ _))
            (update_self start.transactions w.next t1) refl

      pub credit_outcome :
          ((d : Draw) (tx : ℕ) → credit d m tx (w.accounts r) ≡ err e)
          → let (answer, w') = service env cmd w in
            Refused env cmd e w w' answer
            × ((w'.accounts s).balance ≡ x)
            × ((j : ℕ) → s ≢ j → w'.accounts j ≡ w.accounts j)
      credit_outcome h = rw (credit_raised h) (
        reported vc (Moves.move_money-credit_err env p m start t here refl a paid other e (h _ _))
            (update_self start.transactions w.next t1) refl refl,
        ap (λ (o : Account). o.balance) (update_self w.accounts s a),
        update_ne w.accounts s a,
      )
