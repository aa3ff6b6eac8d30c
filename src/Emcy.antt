-- ===== src/Emcy.antt =====
-- Emergency messages (canopen/emcy.py): the consumer's log and active list, the producer's frames,
-- and the text of an error code. The callbacks and the wait on a condition are left out.
pub mod Log
use canopen_asyncio.Common.{
  Bool, ◌%◌, ◌/◌, ℕ, ◌+◌, ◌*◌, ◌&&◌, Option, none, some, List, [], ◌∷◌, ◌++◌, length, take,
  replicate, ltb, ◌==◌, if◌then◌else◌, bit_and,
}
use canopen_asyncio.Common.Bytes.{Bytes}
use canopen_asyncio.Common.Monad.{Action, Result, ok, err, struct_error}

-- `EmcyError`
pub record EmcyError : Type 0 where
  pub code : ℕ
  pub register : ℕ
  pub data_field : Bytes
  pub timestamp : ℕ

pub record EmcyConsumer : Type 0 where
  pub log : List EmcyError
  pub active : List EmcyError

-- `EMCY_STRUCT.unpack`, of "<HB5s".
unfoldable pub unpack_emcy : Bytes → ℕ → Result EmcyError
unpack_emcy (lo ∷ hi ∷ register ∷ vendor) timestamp =
    if length vendor == 5
    then ok (record {
      code = lo + 256 * hi;
      register = register;
      data_field = vendor;
      timestamp = timestamp;
    })
    else err struct_error
unpack_emcy _ timestamp = err struct_error

-- `code & 0xFF00 == 0`
unfoldable pub is_error_reset : ℕ → Bool
is_error_reset code = bit_and code 0xFF00 == 0

unfoldable pub on_emcy : Bytes → ℕ → Action EmcyConsumer (Unit {0})
on_emcy payload timestamp c = elim (unpack_emcy payload timestamp) [
  | err e ↦ (err e, c)
  | ok entry ↦ (
    ok tt,
    record {
      log = c.log ++ (entry ∷ []);
      active = if is_error_reset entry.code then [] else c.active ++ (entry ∷ []);
    },
  )
]

-- `EmcyConsumer.reset`
unfoldable pub consumer_reset : EmcyConsumer → EmcyConsumer
consumer_reset c = record { log = []; active = [] }

-- `EMCY_STRUCT.pack`: the vendor field is cut, or filled with zeros, to five bytes.
unfoldable pub pack_emcy : ℕ → ℕ → Bytes → Result Bytes
pack_emcy code register vendor =
    if ltb code 65536 && ltb register 256
    then ok (code % 256 ∷ code / 256 ∷ register ∷ take 5 (vendor ++ replicate 5 0))
    else err struct_error

-- `EmcyProducer.send`: the payload of the frame.
unfoldable pub emcy_send : ℕ → ℕ → Bytes → Result Bytes
emcy_send code register vendor = pack_emcy code register vendor

-- `EmcyProducer.reset`
unfoldable pub emcy_reset : ℕ → Bytes → Result Bytes
emcy_reset register vendor = pack_emcy 0 register vendor

-- The texts of `DESCRIPTIONS`.
pub data Description : Type 0 where
  error_reset generic current voltage temperature device_hardware device_software : Description
  additional_modules monitoring external_error additional_functions device_specific : Description

-- `EmcyError.DESCRIPTIONS`: code, mask, text.
unfoldable pub descriptions : List (ℕ × ℕ × Description)
descriptions =
    (0x0000, 0xFF00, error_reset)
    ∷ (0x1000, 0xFF00, generic)
    ∷ (0x2000, 0xF000, current)
    ∷ (0x3000, 0xF000, voltage)
    ∷ (0x4000, 0xF000, temperature)
    ∷ (0x5000, 0xFF00, device_hardware)
    ∷ (0x6000, 0xF000, device_software)
    ∷ (0x7000, 0xFF00, additional_modules)
    ∷ (0x8000, 0xF000, monitoring)
    ∷ (0x9000, 0xFF00, external_error)
    ∷ (0xF000, 0xFF00, additional_functions)
    ∷ (0xFF00, 0xFF00, device_specific)
    ∷ []

unfoldable pub first_description : ℕ → List (ℕ × ℕ × Description) → Option Description
first_description code [] = none
first_description code ((c, mask, description) ∷ rest) =
    if bit_and code mask == c then some description else first_description code rest

-- `EmcyError.get_desc`: None stands for the empty text.
unfoldable pub get_desc : ℕ → Option Description
get_desc code = first_description code descriptions
