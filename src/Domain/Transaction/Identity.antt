-- ===== src/Domain/Transaction/Identity.antt =====
-- What no method of a transaction changes.
use banking_transaction_syst.Prelude.{◌≡◌, refl, ◌∙◌, List, [], ◌∷◌, inl, inr, arith}
use banking_transaction_syst.Domain.Exceptions.{ok, Result-cases}
use banking_transaction_syst.Domain.Base.{Draw}
use banking_transaction_syst.Domain.Transaction.{
  Transaction, mark_processing, complete, fail, mark_rolled_back,
}
use banking_transaction_syst.Domain.Transaction.Lifecycle.{
  Call, processes, completes, fails, rolls_back, apply,
}
use banking_transaction_syst.Domain.Transaction.Histories.{history}

pub record SameTransfer (t u : Transaction) : Type 0 where
  pub id : u.id ≡ t.id
  pub sender : u.from_account_id ≡ t.from_account_id
  pub receiver : u.to_account_id ≡ t.to_account_id
  pub amount : u.amount ≡ t.amount
  pub type : u.transaction_type ≡ t.transaction_type
  pub key : u.idempotency_key ≡ t.idempotency_key
  pub created : u.created_at ≡ t.created_at

apply-SameTransfer :
    (d : Draw) (c : Call) (t u : Transaction) → apply d c t ≡ ok u → SameTransfer t u
unfolding apply mark_processing complete fail mark_rolled_back
apply-SameTransfer d processes t u h = ground arith
apply-SameTransfer d completes t u h = ground arith
apply-SameTransfer d (fails code reason) t u h = ground arith
apply-SameTransfer d rolls_back t u h = ground arith

chain : (t u v : Transaction) → SameTransfer t u → SameTransfer u v → SameTransfer t v
chain t u v p q = record {
  id = q.id ∙ p.id;
  sender = q.sender ∙ p.sender;
  receiver = q.receiver ∙ p.receiver;
  amount = q.amount ∙ p.amount;
  type = q.type ∙ p.type;
  key = q.key ∙ p.key;
  created = q.created ∙ p.created;
}

pub history-SameTransfer :
    (calls : List (Draw × Call)) (t : Transaction) → SameTransfer t (history calls t)
unfolding history
history-SameTransfer [] t = record {
  id = refl;
  sender = refl;
  receiver = refl;
  amount = refl;
  type = refl;
  key = refl;
  created = refl;
}
history-SameTransfer ((d, c) ∷ calls) t = elim (Result-cases (apply d c t)) [
  | inl (u, e) ↦
      rw (e, history)
        (chain t u (history calls u) (apply-SameTransfer d c t u e) (history-SameTransfer calls u))
  | inr (x, e) ↦ rw (e, history) (history-SameTransfer calls t)
]
