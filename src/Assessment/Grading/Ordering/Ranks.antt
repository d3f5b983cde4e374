-- ===== src/Assessment/Grading/Ordering/Ranks.antt =====
-- Two orders of the same keys, one read by the positions in the other.
use ticket_sandbox.Prelude.{
  ℕ, suc, ◌<◌, ◌≡◌, ◌↔◌, refl, true, false, List, [], ◌∷◌, length, if◌then◌else◌, arith, Bool-cases,
  inl, inr, ◌==◌, ◌||◌,
}
use ticket_sandbox.Prelude.Sets.{contains, IsNodup, ==-refl, contains-head}
use ticket_sandbox.Prelude.Text.{Text, text_eq, text_beq_iff}
use ticket_sandbox.Assessment.Grading.Choice.{SameKeys}

-- The first position of a key.
unfoldable pub index : Text → List Text → ℕ
index k [] = 0
index k (x ∷ xs) = if k == x then 0 else suc (index k xs)

abbrev pub After : List Text → Text → List Text → Type 0
After order x [] = Unit
After order x (y ∷ ys) = (index x order < index y order) × After order x ys

-- The keys of the list stand in `order` one after the other.
abbrev pub Ascending : List Text → List Text → Type 0
Ascending order [] = Unit
Ascending order (x ∷ xs) = After order x xs × Ascending order xs

After-at :
    (order : List Text) (x y : Text) (ys : List Text)
    → After order x ys
    → contains y ys ≡ true
    → index x order < index y order
unfolding contains
After-at order x y [] h m = cc
After-at order x y (z ∷ zs) h m = elim (Bool-cases (y == z)) [
  | inl same ↦ rw ((text_beq_iff y z).0 same) h.0
  | inr other ↦ After-at order x y zs h.1 (ground (arith, other))
]

index-tail : (s k : Text) (ss : List Text) → (k == s) ≡ false → index k (s ∷ ss) ≡ suc (index k ss)
unfolding index
index-tail s k ss h = ground (arith, h)

==-sym : (a b : Text) → (a == b) ≡ false → (b == a) ≡ false
==-sym a b h = ground (arith, text_beq_iff a b, text_beq_iff b a)

After-tail :
    (s : Text) (ss : List Text) (x : Text) (xs : List Text)
    → (x == s) ≡ false
    → contains s xs ≡ false
    → After (s ∷ ss) x xs ↔ After ss x xs
unfolding contains
After-tail s ss x [] hx h = (λ a. tt, λ a. tt)
After-tail s ss x (y ∷ ys) hx h = ground (
  arith,
  After-tail s ss x ys hx,
  index-tail s x ss hx,
  index-tail s y ss (==-sym s y (ground (arith, h))),
)

Ascending-tail :
    (s : Text) (ss xs : List Text) → contains s xs ≡ false → Ascending (s ∷ ss) xs ↔ Ascending ss xs
unfolding contains
Ascending-tail s ss [] h = (λ a. tt, λ a. tt)
Ascending-tail s ss (x ∷ xs) h =
    ground (arith, Ascending-tail s ss xs, After-tail s ss x xs (==-sym s x (ground (arith, h))))

After-head : (x : Text) (xs ys : List Text) → contains x ys ≡ false → After (x ∷ xs) x ys
unfolding contains index
After-head x xs [] h = tt
After-head x xs (y ∷ ys) h = ground (arith, After-head x xs ys, ==-refl x, ==-sym x y)

-- A list without repetition is ascending in itself.
pub Ascending-self : (xs : List Text) → IsNodup xs → Ascending xs xs
Ascending-self [] h = tt
Ascending-self (x ∷ xs) h =
    (After-head x xs xs h.0, (Ascending-tail x xs xs h.0).1 (Ascending-self xs h.1))

contains-cons : (k x : Text) (xs : List Text) → contains k (x ∷ xs) ≡ (k == x || contains k xs)
unfolding contains
contains-cons k x xs = refl

SameKeys-tail :
    (x : Text) (xs ys : List Text)
    → contains x xs ≡ false
    → contains x ys ≡ false
    → SameKeys (x ∷ xs) (x ∷ ys)
    → SameKeys xs ys
SameKeys-tail x xs ys hx hy same k =
    ground (arith, same k, contains-cons k x xs, contains-cons k x ys, text_beq_iff k x)

index-head : (s : Text) (ss : List Text) → index s (s ∷ ss) ≡ 0
unfolding index
index-head s ss = ground (arith, ==-refl s)

-- Lists without repetition, of the same keys, the one ascending in the other, are equal.
pub Ascending-eq :
    (xs order : List Text)
    → IsNodup xs
    → IsNodup order
    → length xs ≡ length order
    → SameKeys xs order
    → Ascending order xs
    → xs ≡ order
Ascending-eq [] [] hx ho l same h = refl
Ascending-eq [] (s ∷ ss) hx ho l same h = absurd (omega arith)
Ascending-eq (x ∷ xs) [] hx ho l same h = absurd (omega arith)
Ascending-eq (x ∷ xs) (s ∷ ss) hx ho l same h = elim (Bool-cases (s == x)) [
  | inl e ↦
      let p : s ≡ x = (text_beq_iff s x).0 e in
      let clear : contains s xs ≡ false = rw p hx.0 in
      let rest : xs ≡ ss =
        Ascending-eq xs ss hx.1 ho.1 (omega arith)
          (SameKeys-tail s xs ss clear ho.0 (rw (← p) at same))
          ((Ascending-tail s ss xs clear).0 h.1) in
      cc
  | inr e ↦
      let inside : contains s xs ≡ true =
        ground (arith, (same s).1 (contains-head s ss), contains-cons s x xs, e) in
      absurd (omega (arith, After-at (s ∷ ss) x s xs h.0 inside, index-head s ss))
]

-- A list that is ascending in an order has no repetition.
pub Ascending-IsNodup : (order xs : List Text) → Ascending order xs → IsNodup xs
Ascending-IsNodup order [] h = tt
Ascending-IsNodup order (x ∷ xs) h = elim (Bool-cases (contains x xs)) [
  | inl twice ↦ absurd (omega (arith, After-at order x x xs h.0 twice))
  | inr once ↦ (once, Ascending-IsNodup order xs h.1)
]
