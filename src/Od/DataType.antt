-- ===== src/Od/DataType.antt =====
-- The data type codes of canopen/objectdictionary/datatypes.py.
use canopen_asyncio.Common.{ℕ}

abbrev pub boolean : ℕ
boolean = 0x1

abbrev pub integer8 : ℕ
integer8 = 0x2

abbrev pub integer16 : ℕ
integer16 = 0x3

abbrev pub integer32 : ℕ
integer32 = 0x4

abbrev pub unsigned8 : ℕ
unsigned8 = 0x5

abbrev pub unsigned16 : ℕ
unsigned16 = 0x6

abbrev pub unsigned32 : ℕ
unsigned32 = 0x7

abbrev pub real32 : ℕ
real32 = 0x8

abbrev pub visible_string : ℕ
visible_string = 0x9

abbrev pub octet_string : ℕ
octet_string = 0xA

abbrev pub unicode_string : ℕ
unicode_string = 0xB

abbrev pub domain : ℕ
domain = 0xF

abbrev pub integer24 : ℕ
integer24 = 0x10

abbrev pub real64 : ℕ
real64 = 0x11

abbrev pub integer40 : ℕ
integer40 = 0x12

abbrev pub integer48 : ℕ
integer48 = 0x13

abbrev pub integer56 : ℕ
integer56 = 0x14

abbrev pub integer64 : ℕ
integer64 = 0x15

abbrev pub unsigned24 : ℕ
unsigned24 = 0x16

abbrev pub unsigned40 : ℕ
unsigned40 = 0x18

abbrev pub unsigned48 : ℕ
unsigned48 = 0x19

abbrev pub unsigned56 : ℕ
unsigned56 = 0x1A

abbrev pub unsigned64 : ℕ
unsigned64 = 0x1B
