-- ===== src/Od/Dictionary.antt =====
-- Look-up in ObjectDictionary, ODRecord and ODArray by number (canopen/objectdictionary/__init__.py).
use canopen_asyncio.Common.{
  ℕ, ◌+◌, ◌/◌, ◌%◌, Bool, true, false, ◌&&◌, Option, none, some, [], ◌∷◌, ◌++◌, ltb, if◌then◌else◌,
}
use canopen_asyncio.Common.Dict.{lookup, contains, insert}
use canopen_asyncio.Common.Monad.{Result, ok, err, key_error}
use canopen_asyncio.Od.Types.{Text, OdVariable, OdRecord, OdArray, OdObject, ObjectDictionary}

abbrev or_key_error : {A : Type 0} → Option A → Result A
or_key_error (some a) = ok a
or_key_error none = err key_error

-- `ObjectDictionary.__getitem__` and `__contains__` at an int.
unfoldable pub od_get : ObjectDictionary → ℕ → Result OdObject
od_get od index = or_key_error (lookup index od.indices)

unfoldable pub od_contains : ObjectDictionary → ℕ → Bool
od_contains od index = contains index od.indices

unfoldable pub object_index : OdObject → ℕ
object_index (OdObject.variable v) = v.index
object_index (OdObject.rec r) = r.index
object_index (OdObject.array a) = a.index

-- `add_object` replaces the object at its index.
unfoldable pub add_object : ObjectDictionary → OdObject → ObjectDictionary
unfolding object_index
add_object od obj = record { indices = insert (object_index obj) obj od.indices }

-- `ODRecord.__getitem__` and `__contains__` at an int.
unfoldable pub record_get : OdRecord → ℕ → Result OdVariable
record_get r subindex = or_key_error (lookup subindex r.subindices)

unfoldable pub record_contains : OdRecord → ℕ → Bool
record_contains r subindex = contains subindex r.subindices

hex_digit : ℕ → ℕ
hex_digit d = if ltb d 10 then 48 + d else 87 + d

-- `f"{subindex:x}"` for a number below 256.
hex_text : ℕ → Text
unfolding hex_digit
hex_text n = if ltb n 16 then hex_digit n ∷ [] else hex_digit (n / 16) ∷ hex_digit (n % 16) ∷ []

-- The variable that `ODArray.__getitem__` makes after the first item; an item with no default of
-- its own leaves the new one's at None, so both are copies.
unfoldable pub array_item : OdArray → OdVariable → ℕ → OdVariable
unfolding hex_text
array_item a template subindex = record {
  index = a.index;
  subindex = subindex;
  name = template.name ++ (b'_' ∷ hex_text subindex);
  data_type = template.data_type;
  access_type = template.access_type;
  value = none;
  default = template.default;
  value_descriptions = template.value_descriptions;
  bit_definitions = template.bit_definitions;
}

unfoldable pub array_get : OdArray → ℕ → Result OdVariable
unfolding array_item
array_get a subindex = elim (lookup subindex a.subindices) [
  | some v ↦ ok v
  | none ↦
      if ltb 0 subindex && ltb subindex 256
      then elim (lookup 1 a.subindices) [
        | some template ↦ ok (array_item a template subindex)
        | none ↦ err key_error
      ]
      else err key_error
]

-- `Mapping.__contains__`: look it up, and say no on a KeyError.
unfoldable pub array_contains : OdArray → ℕ → Bool
unfolding array_get
array_contains a subindex = elim (array_get a subindex) [ ok v ↦ true | err e ↦ false ]
