-- ===== src/Pdo/Device.antt =====
-- Saving the configuration of a map to a device that keeps what is written (canopen/pdo/base.py).
use canopen_asyncio.Pdo.Reading.{Reads, ReadsAll}
use canopen_asyncio.Pdo.Saving.{write_number, write_item, write_entry, write_entries}
use canopen_asyncio.Pdo.Config.{PdoSession, PdoParameters, on_node, mapping_value}
use canopen_asyncio.Pdo.{PdoVariable}
use canopen_asyncio.Sdo.Base.{
  SdoNode, sdo_item, get_number, get_raw, set_raw, sdo_get_data, sdo_set_data, truncate_data,
  as_number, numbers_from,
}
use canopen_asyncio.Od.Types.{Value, OdVariable, OdObject, Codec}
use canopen_asyncio.Od.Structs.{unsigned, struct_type, pack_unsigned, struct_size}
use canopen_asyncio.Od.Variable.{
  struct_pack, to_int, encode_value, is_writable, encode_raw, bit_length,
}
use canopen_asyncio.Common.Bytes.{Bytes, length-le_bytes, le_bytes}
use canopen_asyncio.Common.Int.{pos}
use canopen_asyncio.Common.Monad.{ok}
use canopen_asyncio.Od.DataType
use canopen_asyncio.Od.Variable.Coding.{struct_type-strings, decode_raw-encode_raw, kept, is_plain}
use canopen_asyncio.Pdo.Words.{IsMappable, mapping_value-lt}
use canopen_asyncio.Common.{
  inl, inr, map, ◌≤◌, ◌++◌, some, ◌==◌, ◌*◌, ◌/◌, ℕ, ◌+◌, ◌<◌, ◌^◌, ◌≡◌, refl, ap, ◌∙◌, arith, true,
  List, [], ◌∷◌, length, Bool, ◌⊎◌, ◌≢◌,
}

-- A device that takes every write and keeps it at its index and subindex.
pub record Device (N : Type 0) (sdo : SdoNode N) : Type 0 where
  pub put : N → ℕ → ℕ → Bytes → N
  pub content : N → ℕ → ℕ → Bytes
  pub upload_lem :
      (index subindex : ℕ) (n : N)
      → sdo.upload index subindex n ≡ (ok (content n index subindex), n)
  pub download_lem :
      (index subindex : ℕ) (b : Bytes) (force : Bool) (n : N)
      → sdo.download index subindex b force n ≡ (ok tt, put n index subindex b)
  pub content-put :
      (index subindex : ℕ) (b : Bytes) (n : N) → content (put n index subindex b) index subindex ≡ b
  pub content-put_other :
      (index subindex index' subindex' : ℕ) (b : Bytes) (n : N)
      → (index' ≢ index) ⊎ (subindex' ≢ subindex)
      → content (put n index subindex b) index' subindex' ≡ content n index' subindex'

times_eight : (k : ℕ) → k * 8 / 8 ≡ k
times_eight k = omega arith

encode_raw-unsigned :
    (codec : Codec) (v : OdVariable) (k value : ℕ)
    → struct_type v.data_type ≡ some (unsigned k)
    → value < 256 ^ k
    → encode_raw codec v (Value.int (pos value)) ≡ ok (le_bytes k value)
unfolding encode_raw encode_value struct_pack to_int pack_unsigned
encode_raw-unsigned codec v k value t small =
    let (visible, unicode, domain_type, octets) = struct_type-strings v.data_type (unsigned k) t in
    ground (arith, t, small)

truncate_data-unsigned :
    (v : OdVariable) (k value : ℕ)
    → struct_type v.data_type ≡ some (unsigned k)
    → truncate_data v (le_bytes k value) ≡ le_bytes k value
unfolding truncate_data bit_length struct_size
truncate_data-unsigned v k value t = ground (arith, t, length-le_bytes k value, times_eight k)

module _ {N : Type 0} (sdo : SdoNode N) (codec : Codec) (d : Device N sdo) where
  pub set_raw-put :
      (v : OdVariable) (k value : ℕ) (n : N)
      → struct_type v.data_type ≡ some (unsigned k)
      → value < 256 ^ k
      → set_raw sdo codec v (Value.int (pos value)) n
        ≡ (ok tt, d.put n v.index v.subindex (le_bytes k value))
  unfolding set_raw sdo_set_data
  set_raw-put v k value n t small = ground (
    arith,
    encode_raw-unsigned codec v k value t small,
    d.download_lem v.index v.subindex (le_bytes k value) (v.data_type == DataType.domain) n,
  )

  pub get_raw-content :
      (v : OdVariable) (k value : ℕ) (n : N)
      → struct_type v.data_type ≡ some (unsigned k)
      → value < 256 ^ k
      → d.content n v.index v.subindex ≡ le_bytes k value
      → get_raw sdo codec v n ≡ (ok (Value.int (pos value)), n)
  unfolding get_raw sdo_get_data kept is_plain
  get_raw-content v k value n t small e = ground (
    arith,
    d.upload_lem v.index v.subindex n,
    e,
    truncate_data-unsigned v k value t,
    decode_raw-encode_raw codec v (unsigned k) (pos value) (le_bytes k value) t refl
        (encode_raw-unsigned codec v k value t small),
  )

  get_number-content :
      (v : OdVariable) (k value : ℕ) (n : N)
      → struct_type v.data_type ≡ some (unsigned k)
      → value < 256 ^ k
      → d.content n v.index v.subindex ≡ le_bytes k value
      → get_number sdo codec v n ≡ (ok value, n)
  unfolding get_number as_number
  get_number-content v k value n t small e = ground (arith, get_raw-content v k value n t small e)

-- An entry of an object that has an unsigned type of `k` bytes, at its index and subindex.
unfoldable pub IsEntry : OdObject → ℕ → ℕ → ℕ → OdVariable → Type 0
IsEntry obj index subindex k v =
    (sdo_item obj subindex ≡ ok v)
    × (v.index ≡ index)
    × (v.subindex ≡ subindex)
    × (struct_type v.data_type ≡ some (unsigned k))

-- The entries of the mapping from a subindex on take the variables in turn.
unfoldable pub Slots : PdoParameters → ℕ → ℕ → List PdoVariable → Type 0
unfolding IsEntry
Slots p index subindex [] = Unit {0}
Slots p index subindex (v ∷ vs) =
    ((entry : OdVariable) × IsEntry p.map_array index subindex 4 entry × (is_writable entry ≡ true))
    × IsMappable v
    × Slots p index (subindex + 1) vs

module _ {N : Type 0} (sdo : SdoNode N) (codec : Codec) (p : PdoParameters) (d : Device N sdo) where
  pub write_number-put :
      (obj : OdObject) (index subindex k value : ℕ) (v : OdVariable) (s : PdoSession N)
      → IsEntry obj index subindex k v
      → value < 256 ^ k
      → write_number sdo codec p v value s
        ≡ (ok tt, record s { node = d.put s.node index subindex (le_bytes k value) })
  unfolding write_number on_node IsEntry
  write_number-put obj index subindex k value v s (found, hi, hs, t) small = ground (
    arith,
    set_raw-put sdo codec d v k value s.node t small,
    ap (λ i. d.put s.node i v.subindex (le_bytes k value)) hi,
    ap (λ j. d.put s.node index j (le_bytes k value)) hs,
  )

  pub write_item-put :
      (obj : OdObject) (index subindex k value : ℕ) (v : OdVariable) (s : PdoSession N)
      → IsEntry obj index subindex k v
      → value < 256 ^ k
      → write_item sdo codec p obj subindex value s
        ≡ (ok tt, record s { node = d.put s.node index subindex (le_bytes k value) })
  unfolding write_item IsEntry
  write_item-put obj index subindex k value v s h small =
      ground (arith, h.0, write_number-put obj index subindex k value v s h small)

  pub Reads-content :
      (obj : OdObject) (index subindex k value : ℕ) (v : OdVariable) (n : N)
      → IsEntry obj index subindex k v
      → value < 256 ^ k
      → d.content n index subindex ≡ le_bytes k value
      → Reads sdo codec p n obj subindex value
  unfolding Reads IsEntry
  Reads-content obj index subindex k value v n (found, hi, hs, t) small e = (
    v,
    found,
    get_number-content sdo codec d v k value n t small
        (ap (λ i. d.content n i v.subindex) hi ∙ ap (λ j. d.content n index j) hs ∙ e),
  )

  -- Those entries, written.
  unfoldable pub put_all : ℕ → ℕ → List PdoVariable → N → N
  put_all index subindex [] n = n
  put_all index subindex (v ∷ vs) n =
      put_all index (subindex + 1) vs
        (d.put n index subindex (le_bytes 4 (mapping_value p.curtis_hack v)))

  pub write_entries-put_all :
      (index subindex : ℕ) (vs : List PdoVariable) (rest : List ℕ) (s : PdoSession N)
      → Slots p index subindex vs
      → write_entries sdo codec p vs (numbers_from subindex (length vs) ++ rest) s
        ≡ (ok tt, record s { node = put_all index subindex vs s.node })
  unfolding write_entries write_entry numbers_from put_all Slots IsEntry
  write_entries-put_all index subindex [] rest s h = refl
  write_entries-put_all index subindex (v ∷ vs) rest s ((entry, at, writable), fits, hs) =
      let value = mapping_value p.curtis_hack v in
      let s1 : PdoSession N = record s { node = d.put s.node index subindex (le_bytes 4 value) } in
      ground (
        arith,
        at.0,
        writable,
        write_number-put p.map_array index subindex 4 value entry s at
            (mapping_value-lt p.curtis_hack v fits),
        write_entries-put_all index (subindex + 1) vs rest s1 hs,
      )

  pub put_all-other :
      (index subindex : ℕ) (vs : List PdoVariable) (n : N) (i j : ℕ)
      → (i ≢ index) ⊎ (j < subindex)
      → d.content (put_all index subindex vs n) i j ≡ d.content n i j
  unfolding put_all
  put_all-other index subindex [] n i j h = refl
  put_all-other index subindex (v ∷ vs) n i j h =
      let b = le_bytes 4 (mapping_value p.curtis_hack v) in
      put_all-other index (subindex + 1) vs (d.put n index subindex b) i j (later h)
      ∙ d.content-put_other index subindex i j b n (apart h)
    where
      later : (i ≢ index) ⊎ (j < subindex) → (i ≢ index) ⊎ (j < subindex + 1)
      later (inl different) = inl different
      later (inr below) = inr (omega (arith, below))

      apart : (i ≢ index) ⊎ (j < subindex) → (i ≢ index) ⊎ (j ≢ subindex)
      apart (inl different) = inl different
      apart (inr below) = inr (λ e. absurd (omega (arith, below, e)))

  -- What is read back from the entries.
  pub ReadsAll-put_all :
      (index subindex : ℕ) (vs : List PdoVariable) (n m : N)
      → Slots p index subindex vs
      → ((j : ℕ)
          → subindex ≤ j
          → d.content m index j ≡ d.content (put_all index subindex vs n) index j)
      → ReadsAll sdo codec p m subindex (map (mapping_value p.curtis_hack) vs)
  unfolding put_all Slots ReadsAll
  ReadsAll-put_all index subindex [] n m h kept_entries = tt
  ReadsAll-put_all index subindex (v ∷ vs) n m ((entry, at, writable), fits, hs) kept_entries =
      let b = le_bytes 4 (mapping_value p.curtis_hack v) in
      let n' = d.put n index subindex b in
      let e : d.content m index subindex ≡ b =
        kept_entries subindex (omega arith)
        ∙ put_all-other index (subindex + 1) vs n' index subindex (inr (omega arith))
        ∙ d.content-put index subindex b n in
      (
        Reads-content p.map_array index subindex 4 (mapping_value p.curtis_hack v) entry m at
            (mapping_value-lt p.curtis_hack v fits) e,
        ReadsAll-put_all index (subindex + 1) vs n' m hs
            (λ j le. kept_entries j (omega (arith, le))),
      )
