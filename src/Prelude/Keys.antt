-- ===== src/Prelude/Keys.antt =====
-- Keys with a Boolean equality; sets and maps of the program as lists of keys and of entries.
-- The order in which Go's `range` meets the keys of a map is not specified: the lists stand for
-- one such order.
use Prim.Native.Nat.{ℕ, ◌+◌}
use mathlib.Core.Path.{◌≡◌, refl, ◌∙◌}
use mathlib.Core.Logic.{◌↔◌, inl, inr}
use mathlib.Core.Bool.{Bool, true, false, not, ◌&&◌, ◌||◌}
use mathlib.Core.List.{List, [], ◌∷◌, ◌++◌}
use native.Mathlib.Omega.{arith}
use new_era.Prelude.Tests.{◌==◌, ==_iff, if◌then◌else◌, Bool-cases}
use new_era.Prelude.Lists.{length}

pub record Eq {ℓ} (A : Type ℓ) : Type ℓ where
  pub beq : A → A → Bool
  pub beq_iff : (a b : A) → (beq a b ≡ true) ↔ (a ≡ b)

instance abbrev pub nat_eq : Eq ℕ
nat_eq = record { beq = ◌==◌; beq_iff = ==_iff }

-- Every declaration of the section takes its parameters.
module _ {ℓ} {A : Type ℓ} ⦃e : Eq A⦄ where
  abbrev pub same : A → A → Bool
  same = e.beq

  pub same_refl : (a : A) → same a a ≡ true
  same_refl a = (e.beq_iff a a).1 refl

  unfoldable pub contains : A → List A → Bool
  contains a [] = false
  contains a (x ∷ xs) = same a x || contains a xs

  unfoldable pub insert : A → List A → List A
  insert a xs = if contains a xs then xs else a ∷ xs

  unfoldable pub delete : A → List A → List A
  delete a [] = []
  delete a (x ∷ xs) = let rest = delete a xs in if same a x then rest else x ∷ rest

  -- `map[A]struct{}` filled from a list.
  unfoldable pub insert_all : List A → List A → List A
  insert_all [] s = s
  insert_all (x ∷ xs) s = insert_all xs (insert x s)

  -- The loop that keeps what its set `seen` has not met, in the list's order.
  unfoldable pub unseen : List A → List A → List A
  unseen seen [] = []
  unseen seen (x ∷ xs) = elim (contains x seen) [
    | true ↦ unseen seen xs
    | false ↦ x ∷ unseen (insert x seen) xs
  ]

  abbrev pub Distinct : List A → Type 0
  Distinct [] = Unit {0}
  Distinct (x ∷ xs) = (contains x xs ≡ false) × Distinct xs

  pub same_sym : (a b : A) → same a b ≡ same b a
  same_sym a b = ground (arith, e.beq_iff a b, e.beq_iff b a)

  -- Equal keys are contained alike.
  pub contains-same : (a b : A) (xs : List A) → same a b ≡ true → contains a xs ≡ contains b xs
  contains-same a b xs h = let p : a ≡ b = (e.beq_iff a b).0 h in λ i. contains (p i) xs

  pub contains-insert :
      (a b : A) (xs : List A) → contains a (insert b xs) ≡ (same a b || contains a xs)
  unfolding insert contains
  contains-insert a b xs = elim (Bool-cases (contains b xs)) [
    | inl old ↦ rw old (elim (Bool-cases (same a b)) [
      | inl s ↦ rw s (contains-same a b xs s ∙ old)
      | inr d ↦ rw d refl
    ])
    | inr new ↦ rw new refl
  ]

  pub contains-delete :
      (a b : A) (xs : List A) → contains a (delete b xs) ≡ (not (same a b) && contains a xs)
  unfolding delete contains
  contains-delete a b [] = ground arith
  contains-delete a b (x ∷ xs) =
      ground (arith, contains-delete a b xs, e.beq_iff a b, e.beq_iff b x, e.beq_iff a x)

  pub contains-insert_all :
      (a : A) (xs s : List A) → contains a (insert_all xs s) ≡ (contains a xs || contains a s)
  unfolding insert_all contains
  contains-insert_all a [] s = refl
  contains-insert_all a (x ∷ xs) s =
      ground (arith, contains-insert_all a xs (insert x s), contains-insert a x s)

  pub insert-Distinct : (a : A) (xs : List A) → Distinct xs → Distinct (insert a xs)
  unfolding insert
  insert-Distinct a xs d = elim (Bool-cases (contains a xs)) [
    | inl old ↦ rw old d
    | inr new ↦ rw new (new, d)
  ]

  pub delete-Distinct : (a : A) (xs : List A) → Distinct xs → Distinct (delete a xs)
  unfolding delete
  delete-Distinct a [] d = tt
  delete-Distinct a (x ∷ xs) d = elim (Bool-cases (same a x)) [
    | inl s ↦ rw s (delete-Distinct a xs d.1)
    | inr s ↦ rw s (ground (arith, contains-delete x a xs, d.0), delete-Distinct a xs d.1)
  ]

  pub insert_all-Distinct : (xs s : List A) → Distinct s → Distinct (insert_all xs s)
  unfolding insert_all
  insert_all-Distinct [] s d = d
  insert_all-Distinct (x ∷ xs) s d = insert_all-Distinct xs (insert x s) (insert-Distinct x s d)

  -- What comes out is what the list has and the set had not, each once.
  pub contains-unseen :
      (a : A) (seen xs : List A)
      → contains a (unseen seen xs) ≡ (not (contains a seen) && contains a xs)
  unfolding unseen contains
  contains-unseen a seen [] = ground arith
  contains-unseen a seen (x ∷ xs) = elim (Bool-cases (contains x seen)) [
    | inl old ↦ rw (old, unseen) (ground (arith, contains-unseen a seen xs, contains-same a x seen))
    | inr new ↦
        rw (new, unseen)
          (ground (
            arith,
            contains-unseen a (insert x seen) xs,
            contains-insert a x seen,
            contains-same a x seen,
          ))
  ]

  pub unseen-Distinct : (seen xs : List A) → Distinct (unseen seen xs)
  unfolding unseen
  unseen-Distinct seen [] = tt
  unseen-Distinct seen (x ∷ xs) = elim (Bool-cases (contains x seen)) [
    | inl old ↦ rw (old, unseen) (unseen-Distinct seen xs)
    | inr new ↦
        rw (new, unseen)
          (
            ground (
              arith,
              contains-unseen x (insert x seen) xs,
              contains-insert x x seen,
              same_refl x,
            ),
            unseen-Distinct (insert x seen) xs,
          )
  ]

  pub length-delete :
      (a : A) (xs : List A)
      → Distinct xs
      → length (delete a xs) + (if contains a xs then 1 else 0) ≡ length xs
  unfolding delete contains
  length-delete a [] d = omega arith
  length-delete a (x ∷ xs) d = ground (arith, length-delete a xs d.1, contains-same a x xs, d.0)

module _ {ℓ} {A : Type ℓ} ⦃e : Eq A⦄ where
  pub contains-snoc :
      (a b : A) (xs : List A) → contains a (xs ++ (b ∷ [])) ≡ (contains a xs || same a b)
  unfolding contains
  contains-snoc a b [] = ground arith
  contains-snoc a b (x ∷ xs) = ground (arith, contains-snoc a b xs)

  -- A new key at the end.
  pub snoc-Distinct :
      (a : A) (xs : List A) → contains a xs ≡ false → Distinct xs → Distinct (xs ++ (a ∷ []))
  unfolding contains
  snoc-Distinct a [] h d = (refl, tt)
  snoc-Distinct a (x ∷ xs) h d = (
    ground (arith, contains-snoc x a xs, same_sym x a, d.0),
    snoc-Distinct a xs (ground arith) d.1,
  )

  pub same→eq : (a b : A) → same a b ≡ true → a ≡ b
  same→eq a b h = (e.beq_iff a b).0 h
