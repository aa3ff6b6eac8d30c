-- ===== src/Od/Eds.antt =====
-- The limits of a variable in an EDS file: _calc_bit_length, _signed_int_from_hex and their calls in
-- build_variable (canopen/objectdictionary/eds.py). What `int(text, 0)` reads is a parameter.
pub mod Limits
use canopen_asyncio.Common.{
  ℕ, ◌+◌, ◌-◌, ◌*◌, ◌^◌, Bool, true, false, Option, none, some, ltb, if◌then◌else◌, ◌==◌, ◌||◌,
}
use canopen_asyncio.Common.Int.{ℤ, pos, negsuc, difference}
use canopen_asyncio.Common.Monad.{Result, ok, err, value_error}
use canopen_asyncio.Od.DataType
use canopen_asyncio.Od.Structs.{struct_type, struct_size}
use canopen_asyncio.Od.Variable.{is_integer_type}
use canopen_asyncio.Od.Types.{Text}

-- `a < b` of Python's int.
unfoldable pub int_ltb : ℤ → ℤ → Bool
int_ltb (pos a) (pos b) = ltb a b
int_ltb (pos a) (negsuc b) = false
int_ltb (negsuc a) (pos b) = true
int_ltb (negsuc a) (negsuc b) = ltb b a

-- `number - c`, for a c that is not negative.
unfoldable pub minus : ℤ → ℕ → ℤ
unfolding difference
minus (pos a) c = difference a c
minus (negsuc a) c = negsuc (a + c)

unfoldable pub is_signed_type : ℕ → Bool
is_signed_type t =
    t == DataType.integer8
    || t == DataType.integer16
    || t == DataType.integer24
    || t == DataType.integer32
    || t == DataType.integer40
    || t == DataType.integer48
    || t == DataType.integer56
    || t == DataType.integer64

unfoldable pub calc_bit_length : ℕ → Result ℕ
unfolding is_integer_type struct_type struct_size
calc_bit_length data_type =
    if is_integer_type data_type
    then elim (struct_type data_type) [ some st ↦ ok (struct_size st * 8) | none ↦ err value_error ]
    else err value_error

-- The tests and the result of _signed_int_from_hex, for the number that the text reads.
unfoldable pub signed_int : ℤ → ℕ → Result ℤ
unfolding int_ltb minus
signed_int number bit_length =
    let min_signed = minus (pos 0) (2 ^ (bit_length - 1)) in
    let max_signed = pos (2 ^ (bit_length - 1) - 1) in
    let max_unsigned = pos (2 ^ bit_length - 1) in
    if int_ltb number min_signed
    then err value_error
    else if int_ltb number (pos 0)
    then ok number
    else if int_ltb max_unsigned number
    then err value_error
    else if int_ltb max_signed number
    then ok (minus number (2 ^ bit_length))
    else ok number

module _ (parse_int : Text → Option ℤ) where
  -- `int(text, 0)`
  unfoldable pub int_of_text : Text → Result ℤ
  int_of_text text = elim (parse_int text) [ some number ↦ ok number | none ↦ err value_error ]

  unfoldable pub signed_int_from_hex : Text → ℕ → Result ℤ
  unfolding int_of_text signed_int
  signed_int_from_hex text bit_length = elim (int_of_text text) [
    | ok number ↦ signed_int number bit_length
    | err e ↦ err e
  ]

  unfoldable pub read_limit : ℕ → Text → Result ℤ
  unfolding is_signed_type calc_bit_length signed_int_from_hex int_of_text
  read_limit data_type text =
      if is_signed_type data_type
      then elim (calc_bit_length data_type) [
        | ok bit_length ↦ signed_int_from_hex text bit_length
        | err e ↦ err e
      ]
      else int_of_text text

  -- `var.min` or `var.max`: a limit that raises ValueError is ignored.
  unfoldable pub limit : ℕ → Text → Option ℤ
  unfolding read_limit
  limit data_type text = elim (read_limit data_type text) [ ok number ↦ some number | err e ↦ none ]
