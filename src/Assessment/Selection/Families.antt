-- ===== src/Assessment/Selection/Families.antt =====
-- Grouping by family and sorting in assessment/services/question_selection.py.
use ticket_sandbox.Prelude.{
  ℕ, ◌≤◌, ◌≡◌, refl, sym, ◌∙◌, nat_eq, true, false, ◌||◌, List, [], ◌∷◌, ◌++◌, length, All,
  All-append, is_empty, arith, Bool-cases, inl, inr, ◌==◌, nat_beq_iff,
}
use ticket_sandbox.Prelude.Sets.{contains, set, IsNodup, contains-set}
use ticket_sandbox.Prelude.Pigeonhole.{length-le-members}
use ticket_sandbox.Prelude.Dict.{Dict, get, put, keys, get-put}
use ticket_sandbox.Assessment.Questions.{Question}
use ticket_sandbox.Assessment.Blueprint.{family_ids}
use ticket_sandbox.Assessment.Selection.{listed, group_by_family, insert_sorted, sorted}

keys-put :
    (d : Dict ℕ (List Question)) (k i : ℕ) (v : List Question)
    → contains i (keys (put d k v)) ≡ (i == k || contains i (keys d))
unfolding put contains
keys-put [] k i v = refl
keys-put ((j, w) ∷ d) k i v = ground (arith, keys-put d k i v)

keys-put-IsNodup :
    (d : Dict ℕ (List Question)) (k : ℕ) (v : List Question)
    → IsNodup (keys d)
    → IsNodup (keys (put d k v))
unfolding put contains
keys-put-IsNodup [] k v h = (refl, tt)
keys-put-IsNodup ((j, w) ∷ d) k v h = ground (arith, keys-put-IsNodup d k v, keys-put d k j v)

pub keys-group :
    (d : Dict ℕ (List Question)) (qs : List Question) (i : ℕ)
    → contains i (keys (group_by_family d qs)) ≡ (contains i (keys d) || contains i (family_ids qs))
unfolding group_by_family contains
keys-group d [] i = ground arith
keys-group d (q ∷ qs) i =
    let v = listed (get d q.family.id) ++ q ∷ [] in
    ground (arith, keys-group (put d q.family.id v) qs i, keys-put d q.family.id i v)

pub keys-group-IsNodup :
    (d : Dict ℕ (List Question)) (qs : List Question)
    → IsNodup (keys d)
    → IsNodup (keys (group_by_family d qs))
unfolding group_by_family
keys-group-IsNodup d [] h = h
keys-group-IsNodup d (q ∷ qs) h =
    let v = listed (get d q.family.id) ++ q ∷ [] in
    keys-group-IsNodup (put d q.family.id v) qs (keys-put-IsNodup d q.family.id v h)

-- What the lists of a grouping have: some question under each key, each of that family, each with P.
pub record IsGrouped (P : Question → Type 0) (d : Dict ℕ (List Question)) : Type 0 where
  pub filled : (k : ℕ) → contains k (keys d) ≡ true → is_empty (listed (get d k)) ≡ false
  pub members : (k : ℕ) → All (λ q. P q × (q.family.id ≡ k)) (listed (get d k))

is_empty-snoc : (qs : List Question) (q : Question) → is_empty (qs ++ q ∷ []) ≡ false
is_empty-snoc [] q = refl
is_empty-snoc (x ∷ qs) q = refl

put-IsGrouped :
    (P : Question → Type 0) (d : Dict ℕ (List Question)) (q : Question)
    → P q
    → IsGrouped P d
    → IsGrouped P (put d q.family.id (listed (get d q.family.id) ++ q ∷ []))
put-IsGrouped P d q pq g = record {
  filled = λ k h. elim (Bool-cases (k == q.family.id)) [
    | inl same ↦
        rw (get-put d q.family.id k (listed (get d q.family.id) ++ q ∷ []), same)
          (is_empty-snoc (listed (get d q.family.id)) q)
    | inr other ↦
        rw (get-put d q.family.id k (listed (get d q.family.id) ++ q ∷ []), other)
          (g.filled k (
            ground
              (arith, other, h, keys-put d q.family.id k (listed (get d q.family.id) ++ q ∷ []))))
  ];
  members = λ k. elim (Bool-cases (k == q.family.id)) [
    | inl same ↦
        let e : k ≡ q.family.id = (nat_beq_iff k q.family.id).0 same in
        rw (get-put d q.family.id k (listed (get d q.family.id) ++ q ∷ []), same)
          (All-append (λ r. P r × (r.family.id ≡ k)) (listed (get d q.family.id)) (q ∷ [])
            (rw e (g.members q.family.id)) ((pq, sym e), tt))
    | inr other ↦
        rw (get-put d q.family.id k (listed (get d q.family.id) ++ q ∷ []), other) (g.members k)
  ];
}

pub group-IsGrouped :
    (P : Question → Type 0) (d : Dict ℕ (List Question)) (qs : List Question)
    → All P qs
    → IsGrouped P d
    → IsGrouped P (group_by_family d qs)
unfolding group_by_family
group-IsGrouped P d [] h g = g
group-IsGrouped P d (q ∷ qs) h g =
    group-IsGrouped P (put d q.family.id (listed (get d q.family.id) ++ q ∷ [])) qs h.1
      (put-IsGrouped P d q h.0 g)

pub empty-IsGrouped : (P : Question → Type 0) → IsGrouped P []
unfolding contains get
empty-IsGrouped P = record { filled = λ k h. cc; members = λ k. tt }

contains-insert_sorted :
    (a i : ℕ) (xs : List ℕ) → contains i (insert_sorted a xs) ≡ (i == a || contains i xs)
unfolding insert_sorted contains
contains-insert_sorted a i [] = refl
contains-insert_sorted a i (x ∷ xs) = ground (arith, contains-insert_sorted a i xs)

pub contains-sorted : (i : ℕ) (xs : List ℕ) → contains i (sorted xs) ≡ contains i xs
unfolding sorted contains
contains-sorted i [] = refl
contains-sorted i (x ∷ xs) =
    ground (arith, contains-insert_sorted x i (sorted xs), contains-sorted i xs)

insert_sorted-IsNodup :
    (a : ℕ) (xs : List ℕ) → contains a xs ≡ false → IsNodup xs → IsNodup (insert_sorted a xs)
unfolding insert_sorted contains
insert_sorted-IsNodup a [] h n = (refl, tt)
insert_sorted-IsNodup a (x ∷ xs) h n =
    ground (arith, insert_sorted-IsNodup a xs, contains-insert_sorted a x xs)

pub sorted-IsNodup : (xs : List ℕ) → IsNodup xs → IsNodup (sorted xs)
unfolding sorted
sorted-IsNodup [] h = tt
sorted-IsNodup (x ∷ xs) h =
    insert_sorted-IsNodup x (sorted xs) (contains-sorted x xs ∙ h.0) (sorted-IsNodup xs h.1)

set-Nodup : (xs : List ℕ) → IsNodup (set xs)
unfolding set
set-Nodup [] = tt
set-Nodup (x ∷ xs) = ground (arith, set-Nodup xs, contains-set x xs)

-- The population of the sample: at least the families that validation counted.
pub length-families :
    (qs : List Question)
    → length (set (family_ids qs)) ≤ length (sorted (keys (group_by_family [] qs)))
unfolding contains
length-families qs =
    length-le-members (set (family_ids qs)) (sorted (keys (group_by_family [] qs)))
      (set-Nodup (family_ids qs))
      (λ a m. rw (contains-sorted, keys-group [] qs a) (rw contains-set at m))
