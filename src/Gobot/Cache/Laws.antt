-- ===== src/Gobot/Cache/Laws.antt =====
-- The cache as a set: what Has answers after each operation, and what Size and Add count.
use new_era.Prelude.{
  ℕ, ◌+◌, ◌≡◌, refl, ap, inl, inr, true, false, not, ◌&&◌, ◌||◌, List, [], ◌∷◌, if◌then◌else◌,
  Bool-cases, length, arith,
}
use new_era.Prelude.Keys.{
  same, contains, insert, Distinct, contains-same, contains-insert, contains-delete,
  insert-Distinct, delete-Distinct, length-delete,
}
use new_era.Prelude.Text.{Text, text_eq, text_beq, text_beq_iff, is_empty}
use new_era.Gobot.Cache.{Store, replace_into, replace, add_into, add, remove, has, size}

-- No EPC twice, and none that is empty.
pub record IsValid (s : Store) : Type 0 where
  pub distinct : Distinct s.epcs
  pub no_empty : contains [] s.epcs ≡ false

same-is_empty : (a b : Text) → text_beq a b ≡ true → is_empty a ≡ is_empty b
same-is_empty a b h = ap is_empty ((text_beq_iff a b).0 h)

contains-replace_into :
    (epc : Text) (epcs next : List Text)
    → is_empty epc ≡ false
    → contains epc (replace_into epcs next) ≡ (contains epc epcs || contains epc next)
unfolding replace_into contains
contains-replace_into epc [] next h = refl
contains-replace_into epc (x ∷ epcs) next h = ground (
  arith,
  contains-replace_into epc epcs next h,
  contains-replace_into epc epcs (insert x next) h,
  contains-insert epc x next,
  same-is_empty epc x,
)

contains-add_into :
    (epc : Text) (epcs s : List Text) (n : ℕ)
    → is_empty epc ≡ false
    → contains epc (add_into epcs s n).0 ≡ (contains epc epcs || contains epc s)
unfolding add_into contains
contains-add_into epc [] s n h = refl
contains-add_into epc (x ∷ epcs) s n h = ground (
  arith,
  contains-add_into epc epcs s n h,
  contains-add_into epc epcs (x ∷ s) (n + 1) h,
  contains-same epc x s,
  same-is_empty epc x,
)

length-add_into :
    (epcs s : List Text) (n : ℕ)
    → length (add_into epcs s n).0 + n ≡ length s + (add_into epcs s n).1
unfolding add_into
length-add_into [] s n = refl
length-add_into (x ∷ epcs) s n =
    ground (arith, length-add_into epcs s n, length-add_into epcs (x ∷ s) (n + 1))

-- After Replace the cache has the non-empty EPCs of the list and no other.
pub has-replace :
    (epc : Text) (epcs : List Text)
    → has epc (replace epcs) ≡ (not (is_empty epc) && contains epc epcs)
unfolding has replace contains
has-replace epc epcs = ground (arith, contains-replace_into epc epcs [])

-- After Add it has these besides those that it had.
pub has-add :
    (epc : Text) (epcs : List Text) (s : Store)
    → has epc (add epcs s).0 ≡ ((not (is_empty epc) && contains epc epcs) || has epc s)
unfolding has add
has-add epc epcs s = ground (arith, contains-add_into epc epcs s.epcs 0)

-- After Remove it has all that it had but the one EPC.
pub has-remove :
    (epc gone : Text) (s : Store) → has epc (remove gone s) ≡ (has epc s && not (same epc gone))
unfolding has remove
has-remove epc gone s = ground (arith, contains-delete epc gone s.epcs, same-is_empty epc gone)

-- Add returns by how much the cache grew.
size-add : (epcs : List Text) (s : Store) → size (add epcs s).0 ≡ size s + (add epcs s).1
unfolding size add
size-add epcs s = omega (arith, length-add_into epcs s.epcs 0)

-- Remove makes the cache smaller by one if the EPC was there, and leaves its size else.
size-remove :
    (gone : Text) (s : Store)
    → IsValid s
    → size (remove gone s) + (if has gone s then 1 else 0) ≡ size s
unfolding size remove has
size-remove gone s v = ground (arith, length-delete gone s.epcs v.distinct)

replace_into-IsValid :
    (epcs next : List Text)
    → IsValid (record { epcs = next })
    → IsValid (record { epcs = replace_into epcs next })
unfolding replace_into
replace_into-IsValid [] next v = v
replace_into-IsValid (x ∷ epcs) next v = elim (Bool-cases (is_empty x)) [
  | inl e ↦ rw e (replace_into-IsValid epcs next v)
  | inr n ↦ rw n (
      replace_into-IsValid epcs (insert x next) (record {
        distinct = insert-Distinct x next v.distinct;
        no_empty =
            ground
              (arith, contains-insert [] x next, v.no_empty, same-is_empty [] x, empty_is_empty);
      }))
]
  where
    empty_is_empty : is_empty [] ≡ true
    empty_is_empty = unfold is_empty in refl

add_into-IsValid :
    (epcs s : List Text) (n : ℕ)
    → IsValid (record { epcs = s })
    → IsValid (record { epcs = (add_into epcs s n).0 })
unfolding add_into contains
add_into-IsValid [] s n v = v
add_into-IsValid (x ∷ epcs) s n v = elim (Bool-cases (is_empty x)) [
  | inl e ↦ rw (e, add_into) (add_into-IsValid epcs s n v)
  | inr f ↦ elim (Bool-cases (contains x s)) [
    | inl old ↦ rw (f, old, add_into) (add_into-IsValid epcs s n v)
    | inr new ↦
        rw (f, new, add_into)
          (add_into-IsValid epcs (x ∷ s) (n + 1) (record {
            distinct = (new, v.distinct);
            no_empty = ground (arith, v.no_empty, same-is_empty [] x, empty_is_empty);
          }))
  ]
]
  where
    empty_is_empty : is_empty [] ≡ true
    empty_is_empty = unfold is_empty in refl

pub replace-IsValid : (epcs : List Text) → IsValid (replace epcs)
unfolding replace contains
replace-IsValid epcs = replace_into-IsValid epcs [] (record { distinct = tt; no_empty = refl })

pub add-IsValid : (epcs : List Text) (s : Store) → IsValid s → IsValid (add epcs s).0
unfolding add
add-IsValid epcs s v = add_into-IsValid epcs s.epcs 0 v

pub remove-IsValid : (gone : Text) (s : Store) → IsValid s → IsValid (remove gone s)
unfolding remove
remove-IsValid gone s v = elim (Bool-cases (is_empty gone)) [
  | inl e ↦ rw e v
  | inr f ↦ rw f (record {
    distinct = delete-Distinct gone s.epcs v.distinct;
    no_empty = ground (arith, contains-delete [] gone s.epcs, v.no_empty);
  })
]
