-- ===== src/Pdo/Words.antt =====
-- The words of a PDO configuration: the COB-ID with its flags, and the entries of the mapping
-- (canopen/pdo/base.py).
use canopen_asyncio.Pdo.Config.{with_cob_id, mapped_entry, mapping_value, rtr_not_allowed}
use canopen_asyncio.Pdo.Saving.{cob_id_value, disabled_value}
use canopen_asyncio.Pdo.{PdoMap, PdoVariable}
use canopen_asyncio.Common.Fields.{or_above, or_below, and_split, or_split, and_ones, pow_pos}
use canopen_asyncio.Common.Bits.{or-zero, and_zero, and_low}
use canopen_asyncio.Common.{
  ℕ, ◌+◌, ◌-◌, ◌*◌, ◌/◌, ◌^◌, ◌<◌, ◌≡◌, ap, ◌∙◌, arith, Bool, true, false, some, bit_and, bit_or,
  if◌then◌else◌,
}

-- The word of a COB-ID with its two flags, as `save` leaves it.
unfoldable pub cob_word : ℕ → Bool → Bool → ℕ
cob_word cob_id enabled rtr_allowed =
    if enabled then cob_id_value cob_id rtr_allowed else disabled_value cob_id rtr_allowed

-- The flags above the 29 bits of the COB-ID.
flags : Bool → Bool → ℕ
flags true true = 0
flags true false = 2
flags false true = 4
flags false false = 6

cob_word-flags :
    (c : ℕ) (enabled rtr_allowed : Bool)
    → c < 2 ^ 29
    → cob_word c enabled rtr_allowed ≡ c + flags enabled rtr_allowed * 2 ^ 29
unfolding cob_word flags cob_id_value disabled_value
cob_word-flags c true true h = or-zero c c (omega arith) ∙ omega arith
cob_word-flags c true false h = or_above 29 c 2 h
cob_word-flags c false true h =
    ap (λ x. bit_or x 0) (or_above 29 c 4 h)
    ∙ or-zero (c + 4 * 2 ^ 29) (c + 4 * 2 ^ 29) (omega arith)
cob_word-flags c false false h =
    ap (λ x. bit_or x rtr_not_allowed) (or_above 29 c 4 h)
    ∙ or_split 29 c 4 0 2 h (omega arith)
    ∙ omega (arith, or-zero c c (omega arith))

module _ (c f : ℕ) (h : c < 2 ^ 29) where
  low_part : bit_and (c + f * 2 ^ 29) 0x1FFFFFFF ≡ c
  low_part = and_low 29 c f 0x1FFFFFFF (omega arith) ∙ and_ones 29 c h

  flag_part : (g : ℕ) → bit_and (c + f * 2 ^ 29) (0 + g * 2 ^ 29) ≡ bit_and f g * 2 ^ 29
  flag_part g = and_split 29 c f 0 g h (omega arith) ∙ omega (arith, and_zero c c (omega arith))

with_cob_id-flags :
    (c : ℕ) (e r : Bool) (m : PdoMap)
    → c < 2 ^ 29
    → with_cob_id (c + flags e r * 2 ^ 29) m
      ≡ record m { cob_id = some c; enabled = e; rtr_allowed = r }
unfolding with_cob_id flags
with_cob_id-flags c true true m h =
    ground (arith, low_part c 0 h, flag_part c 0 h 2, flag_part c 0 h 4)
with_cob_id-flags c true false m h =
    ground (arith, low_part c 2 h, flag_part c 2 h 2, flag_part c 2 h 4)
with_cob_id-flags c false true m h =
    ground (arith, low_part c 4 h, flag_part c 4 h 2, flag_part c 4 h 4)
with_cob_id-flags c false false m h =
    ground (arith, low_part c 6 h, flag_part c 6 h 2, flag_part c 6 h 4)

-- The word says again what it was made of.
pub with_cob_id-cob_word :
    (c : ℕ) (enabled rtr_allowed : Bool) (m : PdoMap)
    → c < 2 ^ 29
    → with_cob_id (cob_word c enabled rtr_allowed) m
      ≡ record m { cob_id = some c; enabled = enabled; rtr_allowed = rtr_allowed }
with_cob_id-cob_word c enabled rtr_allowed m h =
    ap (λ w. with_cob_id w m) (cob_word-flags c enabled rtr_allowed h)
    ∙ with_cob_id-flags c enabled rtr_allowed m h

flags-lt : (e r : Bool) → flags e r < 8
unfolding flags
flags-lt true true = omega arith
flags-lt true false = omega arith
flags-lt false true = omega arith
flags-lt false false = omega arith

pub cob_word-lt :
    (c : ℕ) (enabled rtr_allowed : Bool) → c < 2 ^ 29 → cob_word c enabled rtr_allowed < 256 ^ 4
cob_word-lt c enabled rtr_allowed h =
    omega (arith, cob_word-flags c enabled rtr_allowed h, flags-lt enabled rtr_allowed)

masked : (k a b : ℕ) → a < 2 ^ k → bit_and (a + b * 2 ^ k) (2 ^ k - 1) ≡ a
masked k a b h = and_low k a b (2 ^ k - 1) (omega (arith, pow_pos k)) ∙ and_ones k a h

-- A variable whose index, subindex and length fit their fields.
unfoldable pub IsMappable : PdoVariable → Type 0
IsMappable v = (v.od.index < 2 ^ 16) × (v.subindex < 2 ^ 8) × (v.length < 2 ^ 7)

mapping_value-sum :
    (v : PdoVariable)
    → IsMappable v
    → mapping_value false v ≡ v.length + (v.subindex + v.od.index * 2 ^ 8) * 2 ^ 8
unfolding mapping_value IsMappable
mapping_value-sum v (hi, hs, hl) =
    let i = v.od.index in
    let inner : bit_or (i * 2 ^ 16) (v.subindex * 2 ^ 8) ≡ (v.subindex + i * 2 ^ 8) * 2 ^ 8 =
      or_below 16 (v.subindex * 2 ^ 8) i (omega arith) ∙ omega arith in
    ap (λ x. bit_or x v.length) inner ∙ or_below 8 v.length (v.subindex + i * 2 ^ 8) (omega arith)

mapping_value-hacked :
    (v : PdoVariable)
    → IsMappable v
    → mapping_value true v ≡ v.od.index + (v.subindex + v.length * 2 ^ 8) * 2 ^ 16
unfolding mapping_value IsMappable
mapping_value-hacked v (hi, hs, hl) =
    let i = v.od.index in
    ap (λ x. bit_or x (v.length * 2 ^ 24)) (or_above 16 i v.subindex hi)
    ∙ or_above 24 (i + v.subindex * 2 ^ 16) v.length (omega arith)
    ∙ omega arith

-- The word that is written for a variable, in either order of its fields, is read as the index, the
-- subindex and the length of the variable, where these fit 16, 8 and 7 bits.
pub mapped_entry-mapping_value :
    (curtis_hack : Bool) (v : PdoVariable)
    → IsMappable v
    → mapped_entry curtis_hack (mapping_value curtis_hack v) ≡ (v.od.index, v.subindex, v.length)
unfolding mapped_entry IsMappable
mapped_entry-mapping_value false v h =
    let e = mapping_value-sum v h in
    let i : mapping_value false v / 2 ^ 16 ≡ v.od.index = omega (arith, e, h) in
    let s : mapping_value false v / 2 ^ 8 ≡ v.subindex + v.od.index * 2 ^ 8 = omega (arith, e, h) in
    let l : mapping_value false v ≡ v.length + (v.subindex + v.od.index * 2 ^ 8) * 2 * 2 ^ 7 =
      omega (arith, e) in
    ground (
      arith,
      i,
      ap (λ x. bit_and x 0xFF) s ∙ masked 8 v.subindex v.od.index (h.1),
      ap (λ x. bit_and x 0x7F) l ∙ masked 7 v.length ((v.subindex + v.od.index * 2 ^ 8) * 2) (h.2),
    )
mapped_entry-mapping_value true v h =
    let e = mapping_value-hacked v h in
    let s : mapping_value true v / 2 ^ 16 ≡ v.subindex + v.length * 2 ^ 8 = omega (arith, e, h) in
    let l : mapping_value true v / 2 ^ 24 ≡ v.length + 0 * 2 ^ 7 = omega (arith, e, h) in
    ground (
      arith,
      ap (λ x. bit_and x 0xFFFF) e ∙ masked 16 v.od.index (v.subindex + v.length * 2 ^ 8) (h.0),
      ap (λ x. bit_and x 0xFF) s ∙ masked 8 v.subindex v.length (h.1),
      ap (λ x. bit_and x 0x7F) l ∙ masked 7 v.length 0 (h.2),
    )

pub mapping_value-lt :
    (curtis_hack : Bool) (v : PdoVariable) → IsMappable v → mapping_value curtis_hack v < 256 ^ 4
unfolding IsMappable
mapping_value-lt false v h = omega (arith, h, mapping_value-sum v h)
mapping_value-lt true v h = omega (arith, h, mapping_value-hacked v h)
