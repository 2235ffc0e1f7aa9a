-- ===== src/Domain/Account/Identity.antt =====
-- What no method of an account changes.
use banking_transaction_syst.Prelude.{◌≡◌, refl, ◌∙◌, List, [], ◌∷◌, inl, inr, arith}
use banking_transaction_syst.Domain.Exceptions.{ok, Result-cases}
use banking_transaction_syst.Domain.Base.{Draw}
use banking_transaction_syst.Domain.Account.{Account, freeze, unfreeze, close}
use banking_transaction_syst.Domain.Account.Lifecycle.{
  Call, debits, credits, freezes, unfreezes, closes, apply, history, debit_ok, credit_ok,
}

pub record SameIdentity (a b : Account) : Type 0 where
  pub id : b.id ≡ a.id
  pub owner : b.owner_id ≡ a.owner_id
  pub number : b.account_number ≡ a.account_number
  pub created : b.created_at ≡ a.created_at

apply-SameIdentity : (d : Draw) (c : Call) (a b : Account) → apply d c a ≡ ok b → SameIdentity a b
unfolding apply freeze unfreeze close
apply-SameIdentity d (debits m tx) a b h =
    let (rest, e, st, eq) = debit_ok d m tx a b h in ground arith
apply-SameIdentity d (credits m tx) a b h =
    let (sum, e, st, eq) = credit_ok d m tx a b h in ground arith
apply-SameIdentity d (freezes reason) a b h = ground arith
apply-SameIdentity d unfreezes a b h = ground arith
apply-SameIdentity d closes a b h = ground arith

chain : (a b c : Account) → SameIdentity a b → SameIdentity b c → SameIdentity a c
chain a b c p q = record {
  id = q.id ∙ p.id;
  owner = q.owner ∙ p.owner;
  number = q.number ∙ p.number;
  created = q.created ∙ p.created;
}

pub history-SameIdentity :
    (calls : List (Draw × Call)) (a : Account) → SameIdentity a (history calls a)
unfolding history
history-SameIdentity [] a = record { id = refl; owner = refl; number = refl; created = refl }
history-SameIdentity ((d, c) ∷ calls) a = elim (Result-cases (apply d c a)) [
  | inl (b, e) ↦
      rw (e, history)
        (chain a b (history calls b) (apply-SameIdentity d c a b e) (history-SameIdentity calls b))
  | inr (x, e) ↦ rw (e, history) (history-SameIdentity calls a)
]
