-- ===== src/Adapters/InMemory/Balance.antt =====
-- What `initiate` keeps over the in-memory adapters on every path: the locks, and sound accounts.
use banking_transaction_syst.Prelude.{
  ℕ, ◌≡◌, refl, ap, ◌∙◌, false, Option, none, some, inl, inr, List,
}
use banking_transaction_syst.Prelude.Tests.{nat_eq, ◌==◌, Bool-cases}
use banking_transaction_syst.Prelude.Dict.{update}
use banking_transaction_syst.Domain.Amount.{Money}
use banking_transaction_syst.Domain.Money.Rounding.{IsMoney}
use banking_transaction_syst.Domain.Account.{Account}
use banking_transaction_syst.Domain.Account.Lifecycle.{IsSound, debit-IsSound, credit-IsSound}
use banking_transaction_syst.Application.Runtime.{Env}
use banking_transaction_syst.Application.Runtime.Keeps.{Preserves, continue-Preserves}
use banking_transaction_syst.Application.Ports.{with_uow, with_lock}
use banking_transaction_syst.Application.Dtos.{TransferCommand}
use banking_transaction_syst.Application.TransferService.{lock_keys, execute}
use banking_transaction_syst.Application.TransferService.Invariant.{
  Stable, Storage, execute-Preserves, initiate-Preserves,
}
use banking_transaction_syst.Adapters.InMemory.{
  MemWorld, MemStore, Held, acquire_keys, release_keys, account_get,
  transaction_get_by_idempotency_key, transaction_save, set_committed, unit_of_work, lock_manager,
  see,
}
use banking_transaction_syst.Adapters.InMemory.Locks.{release-acquire}
use banking_transaction_syst.Adapters.InMemory.Success.{service}

-- A property that the storage cannot touch is kept by the repositories and the unit of work.
module _ (I : MemWorld → Type 0)
    (stored : (w : MemWorld) (s : MemStore) → I w → I (record w { store = s })) where
  seen : (o : Option ℕ) (w : MemWorld) → I w → I (see o w)
  unfolding see
  seen none w i = i
  seen (some ref) w i = stored w _ i

  storage : Storage I unit_of_work
  unfolding account_get transaction_get_by_idempotency_key transaction_save
  storage = record {
    get = λ id. record { keeps = λ w i. seen _ w i };
    update = λ ref. record { keeps = λ w i. i };
    by_key = λ key. record { keeps = λ w i. i };
    save = λ ref. record { keeps = λ w i. stored w _ i };
    commit = record { keeps = λ w i. stored w _ i };
    enter = λ w i. stored w _ i;
    exit = λ b w i. i;
  }

-- The keys that are held are `l`.
abbrev LocksAre : Held → MemWorld → Type 0
LocksAre l w = w.locks ≡ l

locks_stable : (l : Held) → Stable (LocksAre l)
locks_stable l = record {
  bookkeeping = λ w f k n i. i;
  debited = λ w d m tx ref n b hm h i. i;
  credited = λ w d m tx ref n b hm h i. i;
  collected = λ w ref i. i;
  announced = λ w es i. i;
}

-- Every account object is sound.
abbrev pub AreSound : MemWorld → Type 0
AreSound w = (ref : ℕ) → IsSound (w.accounts ref)

updated :
    (f : ℕ → Account) (ref : ℕ) (b : Account)
    → ((j : ℕ) → IsSound (f j))
    → IsSound b
    → (j : ℕ) → IsSound (update f ref b j)
updated f ref b h hb j = elim (Bool-cases (ref == j)) [
  | inl here ↦ rw here hb
  | inr there ↦ rw there (h j)
]

sound_stable : Stable AreSound
sound_stable = record {
  bookkeeping = λ w f k n i. i;
  debited = λ w d m tx ref n b hm h i.
      updated w.accounts ref b i (debit-IsSound d m tx (w.accounts ref) b (i ref) hm h);
  credited = λ w d m tx ref n b hm h i.
      updated w.accounts ref b i (credit-IsSound d m tx (w.accounts ref) b (i ref) hm h);
  collected = λ w ref i.
      updated w.accounts ref _ i (record { money = (i ref).money; emptied = (i ref).emptied });
  announced = λ w es i. i;
}

module _ (env : Env) (cmd : TransferCommand) where
  abbrev keys : List ℕ
  keys = lock_keys cmd.from_account_id cmd.to_account_id

  inside :
      (I : MemWorld → Type 0)
      → Stable I
      → ((w : MemWorld) (s : MemStore) → I w → I (record w { store = s }))
      → (m : Money) → IsMoney m
      → Preserves I (with_uow unit_of_work (execute env unit_of_work cmd m))
  inside I stable stored m hm = record {
    keeps = λ w i.
        (execute-Preserves env I stable unit_of_work (storage I stored) cmd m hm).keeps
          (set_committed false w) (stored w _ i);
  }

  locks_guarded :
      (l : Held) (m : Money)
      → IsMoney m
      → Preserves (LocksAre l) (
          with_lock
            (lock_manager env.uuid_text)
            keys
            (with_uow unit_of_work (execute env unit_of_work cmd m)))
  locks_guarded l m hm = record {
    keeps = λ v i.
        let (r, got, held) = acquire_keys env.uuid_text keys v.locks in
        ap (release_keys got) (
          (continue-Preserves (LocksAre held) r
              (λ _. with_uow unit_of_work (execute env unit_of_work cmd m))
              (λ _. inside (LocksAre held) (locks_stable held) (λ w s h. h) m hm)).keeps
            (record v { locks = held }) refl)
        ∙ (release-acquire env.uuid_text keys v.locks ∙ i);
  }

  -- Whatever the command, the accounts and the errors on the way, the keys that are held after
  -- `initiate` are exactly those that were held before it.
  pub initiate_locks : (w : MemWorld) → (service env cmd w).1.locks ≡ w.locks
  initiate_locks w =
      (initiate-Preserves env (LocksAre w.locks) (locks_stable w.locks) unit_of_work
          (storage (LocksAre w.locks) (λ v s h. h)) (lock_manager env.uuid_text) cmd
          (locks_guarded w.locks)).keeps
        w refl

  sound_guarded :
      (m : Money)
      → IsMoney m
      → Preserves AreSound (
          with_lock
            (lock_manager env.uuid_text)
            keys
            (with_uow unit_of_work (execute env unit_of_work cmd m)))
  sound_guarded m hm = record {
    keeps = λ v i.
        let (r, got, held) = acquire_keys env.uuid_text keys v.locks in
        (continue-Preserves AreSound r (λ _. with_uow unit_of_work (execute env unit_of_work cmd m))
            (λ _. inside AreSound sound_stable (λ w s h. h) m hm)).keeps
          (record v { locks = held }) i;
  }

  -- If every account is sound, that is, its balance is a Money and it is empty if it is closed, then
  -- every account is sound after `initiate`, whatever the command and the errors on the way.
  pub initiate_sound : (w : MemWorld) → AreSound w → AreSound (service env cmd w).1
  initiate_sound w sound =
      (initiate-Preserves env AreSound sound_stable unit_of_work (storage AreSound (λ v s h. h))
          (lock_manager env.uuid_text) cmd sound_guarded).keeps
        w sound
