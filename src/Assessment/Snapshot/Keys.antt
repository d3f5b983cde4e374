-- ===== src/Assessment/Snapshot/Keys.antt =====
-- The keys of a snapshot's entries: `f"{prefix}{index}"`.
use ticket_sandbox.Prelude.{
  ℕ, zero, suc, ◌+◌, ◌<◌, ◌≡◌, refl, false, List, [], ◌∷◌, ◌++◌, arith, length,
}
use ticket_sandbox.Prelude.Sets.{contains, IsNodup}
use ticket_sandbox.Prelude.Text.{
  Text, text_eq, text_beq_iff, decimal, decimal_injective, append_cancel,
}

unfoldable pub entry_key : Text → ℕ → Text
entry_key prefix index = prefix ++ decimal index

pub entry_key_injective : (p : Text) (i j : ℕ) → entry_key p i ≡ entry_key p j → i ≡ j
unfolding entry_key
entry_key_injective p i j h = decimal_injective i j (append_cancel p (decimal i) (decimal j) h)

-- n keys, from an index on.
abbrev pub keys_from : Text → ℕ → ℕ → List Text
keys_from p i zero = []
keys_from p i (suc n) = entry_key p i ∷ keys_from p (i + 1) n

pub contains-keys_from :
    (p : Text) (i j n : ℕ) → i < j → contains (entry_key p i) (keys_from p j n) ≡ false
unfolding contains
contains-keys_from p i j zero h = refl
contains-keys_from p i j (suc n) h = ground (
  arith,
  contains-keys_from p i (j + 1) n,
  text_beq_iff (entry_key p i) (entry_key p j),
  entry_key_injective p i j,
)

pub keys_from-IsNodup : (p : Text) (i n : ℕ) → IsNodup (keys_from p i n)
keys_from-IsNodup p i zero = tt
keys_from-IsNodup p i (suc n) =
    (contains-keys_from p i (i + 1) n (omega arith), keys_from-IsNodup p (i + 1) n)

pub length-keys_from : (p : Text) (i n : ℕ) → length (keys_from p i n) ≡ n
length-keys_from p i zero = refl
length-keys_from p i (suc n) = omega (arith, length-keys_from p (i + 1) n)
