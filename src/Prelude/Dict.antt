-- ===== src/Prelude/Dict.antt =====
-- A Python dict as an association list in insertion order, for keys with an equality test.
use mathlib.Core.Path.{◌≡◌, refl}
use mathlib.Core.Logic.{inl, inr}
use mathlib.Core.Bool.{true}
use mathlib.Core.Option.{Option, none, some}
use mathlib.Core.List.{List, [], ◌∷◌}
use native.Mathlib.Omega.{arith}
use ticket_sandbox.Prelude.Tests.{if◌then◌else◌, Bool-cases}
use ticket_sandbox.Prelude.Sets.{contains}
use ticket_sandbox.Prelude.Equality.{Eq, ◌==◌}

abbrev pub Dict {ℓ κ} : Type ℓ → Type κ → Type (ℓ ⊔ κ)
Dict K V = List (K × V)

abbrev pub keys {ℓ κ} : {K : Type ℓ} {V : Type κ} → Dict K V → List K
keys [] = []
keys ((k, v) ∷ d) = k ∷ keys d

abbrev pub values {ℓ κ} : {K : Type ℓ} {V : Type κ} → Dict K V → List V
values [] = []
values ((k, v) ∷ d) = v ∷ values d

module _ {ℓ κ} {K : Type ℓ} {V : Type κ} ⦃e : Eq K⦄ where
  -- `d.get(k)`
  unfoldable pub get : Dict K V → K → Option V
  get [] k = none
  get ((j, v) ∷ d) k = if k == j then some v else get d k

  -- `d[k] = v`
  unfoldable pub put : Dict K V → K → V → Dict K V
  put [] k v = (k, v) ∷ []
  put ((j, w) ∷ d) k v = if k == j then (j, v) ∷ d else (j, w) ∷ put d k v

  -- `get` after `put`, at the same key and at another one.
  pub get-put :
      (d : Dict K V) (k i : K) (v : V) → get (put d k v) i ≡ (if i == k then some v else get d i)
  unfolding get put
  get-put [] k i v = refl
  get-put ((j, w) ∷ d) k i v =
      ground (arith, e.equal_iff k j, e.equal_iff i j, e.equal_iff i k, get-put d k i v)

module _ {ℓ κ} {K : Type ℓ} {V : Type κ} ⦃e : Eq K⦄ where
  -- A key that the dict lists has a value.
  pub get-keys : (d : Dict K V) (k : K) → contains k (keys d) ≡ true → (v : V) × (get d k ≡ some v)
  unfolding get contains
  get-keys [] k h = cc
  get-keys ((j, v) ∷ d) k h = elim (Bool-cases (k == j)) [
    | inl same ↦ (v, rw same)
    | inr other ↦ let (w, found) = get-keys d k (ground (arith, other)) in (w, rw other found)
  ]
