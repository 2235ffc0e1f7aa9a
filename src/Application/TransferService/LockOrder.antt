-- ===== src/Application/TransferService/LockOrder.antt =====
-- The order in which requests take their locks: no ring of requests waits for itself.
use banking_transaction_syst.Prelude.{ℕ, ◌<◌, ◌≡◌, ◌≢◌, List, [], ◌∷◌, arith}
use banking_transaction_syst.Application.Dtos.{TransferCommand}
use banking_transaction_syst.Application.TransferService.{lock_keys}

abbrev keys_of : TransferCommand → List ℕ
keys_of cmd = lock_keys cmd.from_account_id cmd.to_account_id

-- The request `p` holds its first key and waits for its second, which `q` holds as its first.
pub record Waits (p q : TransferCommand) : Type 0 where
  pub held : ℕ
  pub wanted : ℕ
  pub other : ℕ
  pub mine : keys_of p ≡ held ∷ wanted ∷ []
  pub theirs : keys_of q ≡ wanted ∷ other ∷ []
  pub two : p.from_account_id ≢ p.to_account_id

-- A chain of requests, each waiting for the next.
pub data Chain : TransferCommand → TransferCommand → Type 0 where
  one : (p q : TransferCommand) → Waits p q → Chain p q
  more : (p q r : TransferCommand) → Waits p q → Chain q r → Chain p r

lock_keys_increase : (a b x y : ℕ) → a ≢ b → lock_keys a b ≡ x ∷ y ∷ [] → x < y
unfolding lock_keys
lock_keys_increase a b x y two h = ground arith

Chain-increases :
    (p q : TransferCommand) (x y u v : ℕ)
    → Chain p q
    → keys_of p ≡ x ∷ y ∷ []
    → keys_of q ≡ u ∷ v ∷ []
    → x < u
Chain-increases p q x y u v (Chain.one _ _ w) hp hq =
    let same : y ≡ u = cc (hp, hq, w.mine, w.theirs) in
    let less = lock_keys_increase p.from_account_id p.to_account_id x y w.two hp in omega arith
Chain-increases p q x y u v (Chain.more _ r _ w rest) hp hq =
    let same : y ≡ w.wanted = cc (hp, w.mine) in
    let less = lock_keys_increase p.from_account_id p.to_account_id x y w.two hp in
    let further = Chain-increases r q w.wanted w.other u v rest w.theirs hq in omega arith

first_wait : (p q : TransferCommand) → Chain p q → (x : ℕ) × (y : ℕ) × (keys_of p ≡ x ∷ y ∷ [])
first_wait p q (Chain.one _ _ w) = (w.held, w.wanted, w.mine)
first_wait p q (Chain.more _ r _ w rest) = (w.held, w.wanted, w.mine)

-- Of requests between two different accounts each, of which every one holds its first key and waits
-- for the next one, none waits for itself: there is no deadlock, however many they are.
pub no_ring : (p : TransferCommand) → ¬ (Chain p p)
no_ring p c =
    let (x, y, keys) = first_wait p p c in
    let less = Chain-increases p p x y x y c keys keys in absurd (omega arith)
