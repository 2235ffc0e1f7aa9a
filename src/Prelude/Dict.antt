-- ===== src/Prelude/Dict.antt =====
-- Python's `dict` in insertion order, and updates of a family of objects by reference.
use Prim.Native.Nat.{ℕ}
use mathlib.Core.Path.{◌≡◌, refl}
use mathlib.Core.Logic.{◌≢◌}
use mathlib.Core.Option.{Option, none, some}
use mathlib.Core.List.{List, [], ◌∷◌}
use native.Mathlib.Omega.{arith}
use banking_transaction_syst.Prelude.Tests.{Eq, ◌==◌, if◌then◌else◌, nat_eq, nat_beq_iff}

abbrev pub Dict {ℓ κ} : Type ℓ → Type κ → Type (ℓ ⊔ κ)
Dict K V = List (K × V)

module _ {ℓ κ} {K : Type ℓ} {V : Type κ} ⦃e : Eq K⦄ where
  -- `d.get(k)`
  unfoldable pub lookup : K → Dict K V → Option V
  lookup k [] = none
  lookup k ((j, v) ∷ d) = if j == k then some v else lookup k d

  -- `d[k] = v`
  unfoldable pub insert : K → V → Dict K V → Dict K V
  insert k v [] = (k, v) ∷ []
  insert k v ((j, w) ∷ d) = if j == k then (k, v) ∷ d else (j, w) ∷ insert k v d

  pub lookup-insert :
      (k j : K) (v : V) (d : Dict K V)
      → lookup j (insert k v d) ≡ (if k == j then some v else lookup j d)
  unfolding lookup insert
  lookup-insert k j v [] = refl
  lookup-insert k j v ((i, w) ∷ d) =
      ground (arith, e.beq_iff k j, e.beq_iff i k, e.beq_iff i j, lookup-insert k j v d)

-- An assignment to the object behind reference `r`; every other object stays.
abbrev pub update {ℓ} : {A : Type ℓ} → (ℕ → A) → ℕ → A → ℕ → A
update f r a j = if r == j then a else f j

module _ {ℓ} {A : Type ℓ} (f : ℕ → A) (r : ℕ) (a : A) where
  pub update_self : update f r a r ≡ a
  update_self = ground (arith, nat_beq_iff r r)

  pub update_ne : (j : ℕ) → r ≢ j → update f r a j ≡ f j
  update_ne j h = ground (arith, nat_beq_iff r j)
