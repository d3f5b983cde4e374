-- ===== src/Assessment/Snapshot/Numbering.antt =====
-- The numbered entries of a snapshot's payloads.
use mathlib.Core.List.{Perm, append-nil, append_assoc}
use ticket_sandbox.Prelude.{
  ℕ, ◌+◌, ◌<◌, ◌≤◌, ◌≡◌, refl, sym, ap, ◌∙◌, true, false, List, [], ◌∷◌, ◌++◌, ◌==◌, arith, length,
  count, ltb,
}
use ticket_sandbox.Prelude.Sets.{contains, IsNodup}
use ticket_sandbox.Prelude.Permuted.{count-Perm}
use ticket_sandbox.Prelude.Dict.{Dict, put, keys, values}
use ticket_sandbox.Prelude.Text.{Text, text_eq, text_beq_iff, codes}
use ticket_sandbox.Assessment.Validation.{MarkedText, PairText, correct_count}
use ticket_sandbox.Assessment.Grading.{VisibleItem, item_keys}
use ticket_sandbox.Assessment.Snapshot.Keys.{
  entry_key, entry_key_injective, keys_from, contains-keys_from,
}
use ticket_sandbox.Assessment.Snapshot.{number_marked, number_texts, number_matches, number_order}

pub item_keys-number_marked :
    (p : Text) (i : ℕ) (os : List MarkedText)
    → item_keys (number_marked p i os).0 ≡ keys_from p i (length os)
unfolding number_marked
item_keys-number_marked p i [] = refl
item_keys-number_marked p i (o ∷ os) =
    ap (λ ks. entry_key p i ∷ ks) (item_keys-number_marked p (i + 1) os)

pub item_keys-number_texts :
    (p : Text) (i : ℕ) (ts : List Text)
    → item_keys (number_texts p i ts) ≡ keys_from p i (length ts)
unfolding number_texts
item_keys-number_texts p i [] = refl
item_keys-number_texts p i (t ∷ ts) =
    ap (λ ks. entry_key p i ∷ ks) (item_keys-number_texts p (i + 1) ts)

pub correct-among-shown :
    (p : Text) (i : ℕ) (os : List MarkedText) (k : Text)
    → contains k (number_marked p i os).1 ≡ true
    → contains k (keys_from p i (length os)) ≡ true
unfolding number_marked contains
correct-among-shown p i [] k h = h
correct-among-shown p i (o ∷ os) k h = ground (arith, correct-among-shown p (i + 1) os k)

pub correct-IsNodup : (p : Text) (i : ℕ) (os : List MarkedText) → IsNodup (number_marked p i os).1
unfolding number_marked
correct-IsNodup p i [] = tt
correct-IsNodup p i (o ∷ os) = ground (
  arith,
  correct-IsNodup p (i + 1) os,
  correct-among-shown p (i + 1) os (entry_key p i),
  contains-keys_from p i (i + 1) (length os),
)

pub length_correct :
    (p : Text) (i : ℕ) (os : List MarkedText) → length (number_marked p i os).1 ≡ correct_count os
unfolding number_marked
length_correct p i [] = refl
length_correct p i (o ∷ os) = ground (arith, length_correct p (i + 1) os)

pub number_order-keys :
    (i : ℕ) (ts : List Text) → number_order i ts ≡ keys_from (codes "item-") i (length ts)
unfolding number_order
number_order-keys i [] = refl
number_order-keys i (t ∷ ts) =
    ap (λ ks. entry_key (codes "item-") i ∷ ks) (number_order-keys (i + 1) ts)

-- The matches, built entry by entry.
abbrev matches_from : ℕ → List PairText → Dict Text Text
matches_from i [] = []
matches_from i (p ∷ ps) =
    (entry_key (codes "left-") i, entry_key (codes "right-") i) ∷ matches_from (i + 1) ps

put_new :
    (d : Dict Text Text) (k v : Text) → contains k (keys d) ≡ false → put d k v ≡ d ++ (k, v) ∷ []
unfolding put contains
put_new [] k v h = refl
put_new ((j, w) ∷ d) k v h = ground (arith, put_new d k v)

keys-append : (d e : Dict Text Text) → keys (d ++ e) ≡ keys d ++ keys e
keys-append [] e = refl
keys-append (x ∷ d) e = ap (λ ks. x.0 ∷ ks) (keys-append d e)

contains-append :
    (k : Text) (xs : List Text) (y : Text)
    → (k == y) ≡ false
    → contains k xs ≡ false
    → contains k (xs ++ y ∷ []) ≡ false
unfolding contains
contains-append k [] y h m = ground (arith, h)
contains-append k (x ∷ xs) y h m = ground (arith, contains-append k xs y h)

left_key_fresh :
    (i j : ℕ) → i < j → (entry_key (codes "left-") j == entry_key (codes "left-") i) ≡ false
left_key_fresh i j h = ground (
  arith,
  text_beq_iff (entry_key (codes "left-") j) (entry_key (codes "left-") i),
  entry_key_injective (codes "left-") j i,
)

number_matches-append :
    (d : Dict Text Text) (i : ℕ) (ps : List PairText)
    → ((j : ℕ) → i ≤ j → contains (entry_key (codes "left-") j) (keys d) ≡ false)
    → number_matches d i ps ≡ d ++ matches_from i ps
unfolding number_matches
number_matches-append d i [] fresh = sym (append-nil d)
number_matches-append d i (p ∷ ps) fresh =
    let entry : Text × Text = (entry_key (codes "left-") i, entry_key (codes "right-") i) in
    rw (put_new d entry.0 entry.1 (fresh i (omega arith))) (
      number_matches-append (d ++ entry ∷ []) (i + 1) ps (λ j h. rw (keys-append d (entry ∷ [])) (
        contains-append (entry_key (codes "left-") j) (keys d) entry.0
          (left_key_fresh i j (omega arith)) (fresh j (omega arith))))
      ∙ append_assoc d (entry ∷ []) (matches_from (i + 1) ps))

keys-matches_from :
    (i : ℕ) (ps : List PairText)
    → keys (matches_from i ps) ≡ keys_from (codes "left-") i (length ps)
keys-matches_from i [] = refl
keys-matches_from i (p ∷ ps) =
    ap (λ ks. entry_key (codes "left-") i ∷ ks) (keys-matches_from (i + 1) ps)

values-matches_from :
    (i : ℕ) (ps : List PairText)
    → values (matches_from i ps) ≡ keys_from (codes "right-") i (length ps)
values-matches_from i [] = refl
values-matches_from i (p ∷ ps) =
    ap (λ ks. entry_key (codes "right-") i ∷ ks) (values-matches_from (i + 1) ps)

pub keys-number_matches :
    (ps : List PairText) → keys (number_matches [] 1 ps) ≡ keys_from (codes "left-") 1 (length ps)
keys-number_matches ps =
    rw (number_matches-append [] 1 ps (λ j h. unfold contains in refl)) (keys-matches_from 1 ps)

pub values-number_matches :
    (ps : List PairText)
    → values (number_matches [] 1 ps) ≡ keys_from (codes "right-") 1 (length ps)
values-number_matches ps =
    rw (number_matches-append [] 1 ps (λ j h. unfold contains in refl)) (values-matches_from 1 ps)

contains-item_keys :
    (k : Text) (is : List VisibleItem)
    → contains k (item_keys is) ≡ ltb 0 (count (λ i. k == i.key) is)
unfolding contains
contains-item_keys k [] = refl
contains-item_keys k (i ∷ is) = ground (arith, contains-item_keys k is)

-- A permutation of the entries has the same keys.
pub contains-item_keys-Perm :
    (k : Text) (is js : List VisibleItem)
    → Perm is js
    → contains k (item_keys is) ≡ contains k (item_keys js)
contains-item_keys-Perm k is js h = cc (
  contains-item_keys k is,
  contains-item_keys k js,
  count-Perm (λ (i : VisibleItem). k == i.key) is js h,
)
