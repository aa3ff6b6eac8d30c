-- ===== src/Od/Variable/Descriptions.antt =====
-- `decode_desc` and `encode_desc` of ODVariable (canopen/objectdictionary/__init__.py).
use canopen_asyncio.Od.Types.{Text, OdVariable}
use canopen_asyncio.Od.Variable.BitFields.{same_text}
use canopen_asyncio.Common.Int.{ℤ, pos, negsuc}
use canopen_asyncio.Common.Monad.{Result, ok, err, od_error, value_error}
use canopen_asyncio.Common.{
  Bool-cases, inl, inr, ◌≡◌, refl, ap, ◌∙◌, sym, arith, Bool, true, false, List, [], ◌∷◌, ◌==◌,
  if◌then◌else◌,
}

unfoldable pub same_int : ℤ → ℤ → Bool
same_int (pos a) (pos b) = a == b
same_int (negsuc a) (negsuc b) = a == b
same_int _ _ = false

-- `value_descriptions.get(value)`
unfoldable pub description_of : ℤ → List (ℤ × Text) → Result Text
description_of value [] = err od_error
description_of value ((other, desc) ∷ rest) =
    if same_int other value then ok desc else description_of value rest

-- The loop of `encode_desc`.
unfoldable pub value_of : Text → List (ℤ × Text) → Result ℤ
value_of desc [] = err value_error
value_of desc ((value, other) ∷ rest) =
    if same_text other desc then ok value else value_of desc rest

unfoldable pub decode_desc : OdVariable → ℤ → Result Text
decode_desc v value = elim v.value_descriptions [
  | [] ↦ err od_error
  | entry ∷ rest ↦ description_of value (entry ∷ rest)
]

unfoldable pub encode_desc : OdVariable → Text → Result ℤ
encode_desc v desc = elim v.value_descriptions [
  | [] ↦ err od_error
  | entry ∷ rest ↦ value_of desc (entry ∷ rest)
]

-- The keys of a dict differ.
unfoldable pub IsAbsent : ℤ → List (ℤ × Text) → Type 0
IsAbsent value [] = Unit {0}
IsAbsent value ((other, desc) ∷ rest) = (same_int value other ≡ false) × IsAbsent value rest

unfoldable pub HasDistinctKeys : List (ℤ × Text) → Type 0
unfolding IsAbsent
HasDistinctKeys [] = Unit {0}
HasDistinctKeys ((value, desc) ∷ rest) = IsAbsent value rest × HasDistinctKeys rest

same_text-equal : (a b : Text) → same_text a b ≡ true → a ≡ b
unfolding same_text
same_text-equal [] [] h = refl
same_text-equal [] (y ∷ b) h = absurd (ground arith)
same_text-equal (x ∷ a) [] h = absurd (ground arith)
same_text-equal (x ∷ a) (y ∷ b) h =
    let e : x ≡ y = ground (arith, h) in
    let r = same_text-equal a b (ground (arith, h)) in λ i. (e i) ∷ (r i)

same_int_self : (a : ℤ) → same_int a a ≡ true
unfolding same_int
same_int_self (pos a) = ground arith
same_int_self (negsuc a) = ground arith

absent-value :
    (value found : ℤ) (desc : Text) (entries : List (ℤ × Text))
    → IsAbsent value entries
    → value_of desc entries ≡ ok found
    → same_int value found ≡ false
unfolding IsAbsent value_of
absent-value value found desc [] h e = absurd (ground (arith, e))
absent-value value found desc ((other, name) ∷ rest) (h, hs) e =
    elim (Bool-cases (same_text name desc)) [
      | inl same ↦
          let f : other ≡ found = ground (arith, e, same) in ap (λ z. same_int value z) (sym f) ∙ h
      | inr differ ↦ absent-value value found desc rest hs (ground (arith, e, differ))
    ]

description_of-value_of :
    (found : ℤ) (desc : Text) (entries : List (ℤ × Text))
    → HasDistinctKeys entries
    → value_of desc entries ≡ ok found
    → description_of found entries ≡ ok desc
unfolding HasDistinctKeys value_of description_of
description_of-value_of found desc [] h e = absurd (ground (arith, e))
description_of-value_of found desc ((value, name) ∷ rest) (absent, hs) e =
    elim (Bool-cases (same_text name desc)) [
      | inl same ↦
          let f : value ≡ found = ground (arith, e, same) in
          let self : same_int value found ≡ true =
            ap (λ z. same_int value z) (sym f) ∙ same_int_self value in
          ground (arith, self, ap ok (same_text-equal name desc same))
      | inr differ ↦
          let e' : value_of desc rest ≡ ok found = ground (arith, e, differ) in
          ground (
            arith,
            absent-value value found desc rest absent e',
            description_of-value_of found desc rest hs e',
          )
    ]

-- The value descriptions of a variable are those of a dict, whose keys differ. A value that is encoded
-- from a description is described by it.
pub decode_desc-encode_desc :
    (v : OdVariable) (desc : Text) (value : ℤ)
    → HasDistinctKeys v.value_descriptions
    → encode_desc v desc ≡ ok value
    → decode_desc v value ≡ ok desc
unfolding encode_desc decode_desc
decode_desc-encode_desc v desc value distinct encoded = at v.value_descriptions distinct encoded
  where
    at :
        (entries : List (ℤ × Text))
        → HasDistinctKeys entries
        → elim entries [ [] ↦ err od_error | entry ∷ rest ↦ value_of desc (entry ∷ rest) ]
          ≡ ok value
        → elim entries [ [] ↦ err od_error | entry ∷ rest ↦ description_of value (entry ∷ rest) ]
          ≡ ok desc
    at [] d e = absurd (ground (arith, e))
    at (entry ∷ rest) d e = description_of-value_of value desc (entry ∷ rest) d e
