-- ===== src/Od/Types.antt =====
-- Data type codes and values (canopen/objectdictionary/datatypes.py), and the fields of ODVariable,
-- ODRecord, ODArray and ObjectDictionary that the modelled code reads. Names are lists of code
-- points. Parent links, units, factors and comments are left out.
use canopen_asyncio.Common.{ℕ, Bool, Option, List, [], ◌∷◌}
use canopen_asyncio.Common.{◌==◌, ◌||◌, false}
use canopen_asyncio.Common.Bytes.{Bytes}
use canopen_asyncio.Common.Monad.{Result}
use canopen_asyncio.Common.Int.{ℤ}
use canopen_asyncio.Common.Dict.{Dict}

abbrev pub Text : Type 0
Text = List ℕ

-- A Python value of an object: an int (a bool is one), a str, a bytes or a float. A float is named
-- by the pattern of its 64 bits.
pub data Value : Type 0 where
  int : ℤ → Value
  str : Text → Value
  bytes : Bytes → Value
  real : ℕ → Value

-- What the interpreter does with floats, with UTF-16 and with `int()` of anything but an int.
pub record Codec : Type 0 where
  pub real_pack : ℕ → Value → Result Bytes
  pub real_unpack : ℕ → Bytes → ℕ
  pub utf16_encode : Text → Option Bytes
  pub utf16_decode : Bytes → Text
  pub int_of : Value → Option ℤ

pub record OdVariable : Type 0 where
  pub index : ℕ
  pub subindex : ℕ
  pub name : Text
  pub data_type : ℕ
  pub access_type : Text
  pub value : Option Value
  pub default : Option Value
  pub value_descriptions : List (ℤ × Text)
  pub bit_definitions : List (Text × List ℕ)

pub record OdRecord : Type 0 where
  pub name : Text
  pub index : ℕ
  pub subindices : Dict OdVariable

pub record OdArray : Type 0 where
  pub name : Text
  pub index : ℕ
  pub subindices : Dict OdVariable

pub data OdObject : Type 0 where
  variable : OdVariable → OdObject
  rec : OdRecord → OdObject
  array : OdArray → OdObject

-- `ObjectDictionary.indices`; look-up by name is not modelled.
pub record ObjectDictionary : Type 0 where
  pub indices : Dict OdObject

-- `c in text`
unfoldable pub has_char : ℕ → Text → Bool
has_char c [] = false
has_char c (x ∷ xs) = c == x || has_char c xs
