-- ===== src/Gobot/Erp/Normal.antt =====
-- NormalizeEPC, and the lists of normal forms.
use new_era.Prelude.{
  ◌≡◌, refl, ap, ◌∙◌, inl, inr, Bool, true, false, not, ◌&&◌, ◌||◌, List, [], ◌∷◌, if◌then◌else◌,
  Bool-cases, All, arith,
}
use new_era.Prelude.Keys.{contains, insert, Distinct, contains-same, contains-insert, same_refl}
use new_era.Prelude.Text.{
  Text, text_eq, text_beq, text_beq_iff, is_empty, is_space, trim_left, trim_right, trim_space,
  to_upper,
}
use new_era.Gobot.Erp.{is_hex_byte, hex_only, normalize_epc, normal_list}

-- Only digits and the letters A to F.
pub IsHexText : Text → Type 0
IsHexText = All (λ ch. is_hex_byte ch ≡ true)

pub hex_only-IsHexText : (raw : Text) → IsHexText (hex_only raw)
unfolding hex_only IsHexText
hex_only-IsHexText [] = tt
hex_only-IsHexText (ch ∷ raw) = elim (Bool-cases (is_hex_byte ch)) [
  | inl h ↦ rw h (h, hex_only-IsHexText raw)
  | inr n ↦ rw n (hex_only-IsHexText raw)
]

normalize_epc-IsHexText : (raw : Text) → IsHexText (normalize_epc raw)
unfolding normalize_epc IsHexText
normalize_epc-IsHexText raw = elim (Bool-cases (is_empty (to_upper (trim_space raw)))) [
  | inl e ↦ rw e tt
  | inr n ↦ rw n (hex_only-IsHexText (to_upper (trim_space raw)))
]

-- On normal forms the steps do nothing.
hex_only_id : (s : Text) → IsHexText s → hex_only s ≡ s
unfolding hex_only IsHexText
hex_only_id [] h = refl
hex_only_id (ch ∷ s) h = ground (arith, hex_only_id s h.1)

to_upper_id : (s : Text) → IsHexText s → to_upper s ≡ s
unfolding to_upper IsHexText is_hex_byte
to_upper_id [] h = refl
to_upper_id (ch ∷ s) h = ground (arith, to_upper_id s h.1)

trim_left_id : (s : Text) → IsHexText s → trim_left s ≡ s
unfolding trim_left IsHexText is_hex_byte is_space
trim_left_id [] h = refl
trim_left_id (ch ∷ s) h = ground arith

trim_right_id : (s : Text) → IsHexText s → trim_right s ≡ s
unfolding trim_right IsHexText is_hex_byte is_space
trim_right_id [] h = refl
trim_right_id (ch ∷ s) h = ground (arith, trim_right_id s h.1)

trim_space_id : (s : Text) → IsHexText s → trim_space s ≡ s
unfolding trim_space
trim_space_id s h = ap trim_right (trim_left_id s h) ∙ trim_right_id s h

normalize_epc_id : (s : Text) → IsHexText s → normalize_epc s ≡ s
unfolding normalize_epc
normalize_epc_id s h = ap (λ t. if is_empty t then [] else hex_only t) same_text ∙ kept s h
  where
    same_text : to_upper (trim_space s) ≡ s
    same_text = ap to_upper (trim_space_id s h) ∙ to_upper_id s h

    kept : (t : Text) → IsHexText t → (if is_empty t then [] else hex_only t) ≡ t
    kept [] k = refl
    kept (ch ∷ t) k = hex_only_id (ch ∷ t) k

-- The normal form of an EPC has only the digits 0 to 9 and A to F, a text of these is its own normal
-- form, and so a normal form is not changed by normalising again.
normalize_epc_normal :
    (raw : Text)
    → IsHexText (normalize_epc raw) × (normalize_epc (normalize_epc raw) ≡ normalize_epc raw)
normalize_epc_normal raw = (
  normalize_epc-IsHexText raw,
  normalize_epc_id (normalize_epc raw) (normalize_epc-IsHexText raw),
)

-- An EPC in normal form that is not empty.
abbrev pub IsNormal : Text → Type 0
IsNormal epc = (normalize_epc epc ≡ epc) × (is_empty epc ≡ false)

normal_list_round :
    (seen : List Text) (raw : Text) (raws : List Text) (keep : Bool)
    → (is_empty (normalize_epc raw) || contains (normalize_epc raw) seen) ≡ keep
    → normal_list seen (raw ∷ raws) ≡ (
        if keep
        then normal_list seen raws
        else normalize_epc raw ∷ normal_list (insert (normalize_epc raw) seen) raws)
unfolding normal_list
normal_list_round seen raw raws true e = rw (e, normal_list) refl
normal_list_round seen raw raws false e = rw (e, normal_list) refl

-- Some text of the list has this normal form.
pub has_form : Text → List Text → Bool
has_form epc [] = false
has_form epc (raw ∷ raws) = text_beq epc (normalize_epc raw) || has_form epc raws

same-is_empty : (a b : Text) → text_beq a b ≡ true → is_empty a ≡ is_empty b
same-is_empty a b h = ap is_empty ((text_beq_iff a b).0 h)

contains-normal_list :
    (epc : Text) (seen raws : List Text)
    → contains epc (normal_list seen raws)
      ≡ (not (is_empty epc) && (not (contains epc seen) && has_form epc raws))
unfolding has_form contains
contains-normal_list epc seen [] = unfold normal_list in ground arith
contains-normal_list epc seen (raw ∷ raws) =
    let x = normalize_epc raw in
    elim (Bool-cases (is_empty x || contains x seen)) [
      | inl old ↦ rw (normal_list_round seen raw raws true old) (
          ground (
            arith,
            old,
            contains-normal_list epc seen raws,
            contains-same epc x seen,
            same-is_empty epc x,
          ))
      | inr new ↦ rw (normal_list_round seen raw raws false new) (
          ground (
            arith,
            new,
            contains-normal_list epc (insert x seen) raws,
            contains-insert epc x seen,
            contains-same epc x seen,
            same-is_empty epc x,
          ))
    ]

normal_list-Distinct : (seen raws : List Text) → Distinct (normal_list seen raws)
normal_list-Distinct seen [] = unfold normal_list in tt
normal_list-Distinct seen (raw ∷ raws) =
    let x = normalize_epc raw in
    elim (Bool-cases (is_empty x || contains x seen)) [
      | inl old ↦ rw (normal_list_round seen raw raws true old) (normal_list-Distinct seen raws)
      | inr new ↦ rw (normal_list_round seen raw raws false new) (
        ground (
          arith,
          contains-normal_list x (insert x seen) raws,
          contains-insert x x seen,
          same_refl x,
        ),
        normal_list-Distinct (insert x seen) raws,
      )
    ]

normal_list-IsNormal : (seen raws : List Text) → All IsNormal (normal_list seen raws)
normal_list-IsNormal seen [] = unfold normal_list in tt
normal_list-IsNormal seen (raw ∷ raws) =
    let x = normalize_epc raw in
    elim (Bool-cases (is_empty x || contains x seen)) [
      | inl old ↦ rw (normal_list_round seen raw raws true old) (normal_list-IsNormal seen raws)
      | inr new ↦ rw (normal_list_round seen raw raws false new) (
        ((normalize_epc_normal raw).1, ground (arith, new)),
        normal_list-IsNormal (insert x seen) raws,
      )
    ]

-- The list that FetchDraftEPCs and normalizeEPCList build has, each once, exactly the normal forms
-- of its input that are not empty.
pub normal_list_lem :
    (raws : List Text)
    → ((epc : Text)
        → contains epc (normal_list [] raws) ≡ (not (is_empty epc) && has_form epc raws))
      × Distinct (normal_list [] raws)
      × All IsNormal (normal_list [] raws)
unfolding contains
normal_list_lem raws = (
  λ epc. contains-normal_list epc [] raws,
  normal_list-Distinct [] raws,
  normal_list-IsNormal [] raws,
)
