-- ===== src/Adapters/InMemory/Locks.antt =====
-- The lock manager in memory: what is held before, inside and after `acquire`.
use banking_transaction_syst.Prelude.{
  ℕ, String, ◌≡◌, refl, ◌≢◌, true, false, List, [], ◌∷◌, ◌++◌, ◌∙◌, sym, inl, inr, arith,
}
use banking_transaction_syst.Prelude.Tests.{◌==◌, nat_eq, nat_beq_iff, Bool-cases, ltb}
use banking_transaction_syst.Prelude.Lists.{append_assoc}
use banking_transaction_syst.Domain.Exceptions.{ok, err, base}
use banking_transaction_syst.Domain.Exceptions.Classes.{concurrency_conflict}
use banking_transaction_syst.Application.TransferService.{lock_keys}
use banking_transaction_syst.Adapters.InMemory.{Held, holds, discard, acquire_keys, release_keys}

discard_absent : (k : ℕ) (xs : Held) → holds k xs ≡ false → discard k xs ≡ xs
unfolding holds discard
discard_absent k [] h = refl
discard_absent k (x ∷ xs) h = ground (arith, discard_absent k xs)

discard_middle :
    (k : ℕ) (front xs : Held)
    → holds k front ≡ false
    → holds k xs ≡ false
    → discard k (front ++ (k ∷ xs)) ≡ front ++ xs
unfolding holds discard
discard_middle k [] xs hf hx = ground (arith, discard_absent k xs, nat_beq_iff k k)
discard_middle k (x ∷ front) xs hf hx = ground (arith, discard_middle k front xs)

holds-append :
    (k key : ℕ) (front held : Held)
    → holds k front ≡ false
    → holds k held ≡ true
    → holds key held ≡ false
    → holds k (front ++ (key ∷ [])) ≡ false
unfolding holds
holds-append k key [] held hf hk hkey = elim (Bool-cases (key == k)) [
  | inl same ↦ absurd (cc (hk, hkey, (nat_beq_iff key k).0 same))
  | inr other ↦ rw (other, holds)
]
holds-append k key (x ∷ front) held hf hk hkey = ground (arith, holds-append k key front held)

-- `acquire` puts new keys in front, and a release over `rest` takes just those away.
record Acquired (got after held rest : Held) : Type 0 where
  front : Held
  grown : after ≡ front ++ held
  fresh : (k : ℕ) → holds k held ≡ true → holds k front ≡ false
  undone : release_keys got (front ++ rest) ≡ rest

weaken :
    (key : ℕ) (held rest : Held)
    → ((k : ℕ) → holds k held ≡ false → holds k rest ≡ false)
    → (k : ℕ) → holds k (key ∷ held) ≡ false
    → holds k rest ≡ false
unfolding holds
weaken key held rest h k p = h k (ground arith)

grow :
    (key : ℕ) {got after : Held} (held rest : Held)
    → holds key rest ≡ false
    → holds key held ≡ false
    → Acquired got after (key ∷ held) rest
    → Acquired (key ∷ got) after held rest
unfolding holds release_keys
grow key {got} held rest absent free a = record {
  front = a.front ++ (key ∷ []);
  grown = a.grown ∙ sym (append_assoc a.front (key ∷ []) held);
  fresh = λ k p. holds-append k key a.front held (a.fresh k (ground arith)) p free;
  undone =
      rw
        (
          append_assoc,
          discard_middle key a.front rest (a.fresh key (ground (arith, nat_beq_iff key key)))
              absent,
        )
        a.undone;
}

acquire-Acquired :
    (text : ℕ → String) (keys : List ℕ) (held rest : Held)
    → ((k : ℕ) → holds k held ≡ false → holds k rest ≡ false)
    → let (r, got, after) = acquire_keys text keys held in Acquired got after held rest
unfolding acquire_keys release_keys
acquire-Acquired text [] held rest h = record {
  front = [];
  grown = refl;
  fresh = λ k p. refl;
  undone = refl;
}
acquire-Acquired text (key ∷ keys) held rest h = elim (Bool-cases (holds key held)) [
  | inl taken ↦
      rw (taken, acquire_keys)
        (record { front = []; grown = refl; fresh = λ k p. refl; undone = refl })
  | inr free ↦
      rw (free, acquire_keys)
        (grow key held rest (h key free) free
          (acquire-Acquired text keys (key ∷ held) rest (weaken key held rest h)))
]

-- Releasing the keys that `acquire` got gives back exactly what was held, whether or not it raised.
pub release-acquire :
    (text : ℕ → String) (keys : List ℕ) (held : Held)
    → let (r, got, after) = acquire_keys text keys held in release_keys got after ≡ held
release-acquire text keys held =
    let a = acquire-Acquired text keys held held (λ k h. h) in rw a.grown a.undone

-- One key twice is refused: the second round finds it held.
pub acquire_twice :
    (text : ℕ → String) (key : ℕ) (held : Held)
    → holds key held ≡ false
    → acquire_keys text (key ∷ key ∷ []) held
      ≡ (err (base (concurrency_conflict (text key))), key ∷ [], key ∷ held)
unfolding acquire_keys holds
acquire_twice text key held free = ground (arith, nat_beq_iff key key)

-- Two different keys that nobody holds are both granted.
pub acquire_pair :
    (text : ℕ → String) (a b : ℕ) (held : Held)
    → a ≢ b
    → holds a held ≡ false
    → holds b held ≡ false
    → (after : Held) × (acquire_keys text (lock_keys a b) held ≡ (ok tt, lock_keys a b, after))
unfolding acquire_keys holds lock_keys
acquire_pair text a b held ne fa fb = elim (Bool-cases (ltb b a)) [
  | inl down ↦ (a ∷ b ∷ held, ground (arith, nat_beq_iff b a))
  | inr up ↦ (b ∷ a ∷ held, ground (arith, nat_beq_iff a b))
]

-- The same account on both sides: the sorted pair is one key twice.
pub acquire_same :
    (text : ℕ → String) (a : ℕ) (held : Held)
    → holds a held ≡ false
    → acquire_keys text (lock_keys a a) held
      ≡ (err (base (concurrency_conflict (text a))), a ∷ [], a ∷ held)
unfolding lock_keys
acquire_same text a held free = ground (arith, acquire_twice text a held free)
