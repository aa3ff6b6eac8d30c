-- ===== src/Node/Local/Store.antt =====
-- What `get_data` gives after `set_data` (canopen/node/local.py).
use canopen_asyncio.Common.Bytes.{Bytes}
use canopen_asyncio.Common.Dict.{lookup-insert, lookup, insert, Dict}
use canopen_asyncio.Common.Monad.{Exn, Result-cases, err, ok, Result}
use canopen_asyncio.Od.Types.{OdVariable}
use canopen_asyncio.Node.Local.{
  find_object, set_data, write_object, store, get_data, read_object, stored_or_default, stored,
  try_callbacks, LocalNode,
}
use canopen_asyncio.Common.{
  ◌⊎◌, ◌∙◌, ap, Bool, Option-cases, if◌then◌else◌, ℕ, ◌≡◌, arith, ◌&&◌, ◌==◌, some, false, inl, inr,
  [], ◌∷◌,
}

stored-store :
    (d : Dict (Dict Bytes)) (i s j t : ℕ) (bs : Bytes)
    → stored (store d i s bs) j t ≡ (if j == i && t == s then some bs else stored d j t)
unfolding stored store
stored-store d i s j t bs = elim (Option-cases (lookup i d)) [
  | inl e ↦ ground (arith, lookup-insert j i ((s, bs) ∷ []) d)
  | inr (inner, e) ↦
      ground (arith, lookup-insert j i (insert s bs inner) d, lookup-insert t s bs inner)
]

-- What a write does to the node, and that a failing one leaves the data alone.
unfoldable pub IsWritten : ℕ → ℕ → Bytes → LocalNode → Result (Unit {0}) × LocalNode → Type 0
IsWritten index subindex bs n (r, n') =
    (n'.object_dictionary ≡ n.object_dictionary)
    × (n'.read_callbacks ≡ n.read_callbacks)
    × (n'.codec ≡ n.codec)
    × (n'.data_store
        ≡ elim r [ ok _ ↦ store n.data_store index subindex bs | err e ↦ n.data_store ])

set_data-IsWritten :
    (index subindex : ℕ) (bs : Bytes) (check_writable : Bool) (n : LocalNode)
    → IsWritten index subindex bs n (set_data index subindex bs check_writable n)
unfolding set_data write_object IsWritten
set_data-IsWritten index subindex bs check_writable n =
    (ground arith, ground arith, ground arith, ground arith)

-- Reading and writing look the object up first.
read_stored :
    (n : LocalNode) (index subindex : ℕ) (obj : OdVariable) (bs : Bytes)
    → find_object n.object_dictionary index subindex ≡ ok obj
    → n.read_callbacks ≡ []
    → stored n.data_store index subindex ≡ some bs
    → get_data n index subindex false ≡ ok bs
unfolding get_data read_object try_callbacks stored_or_default
read_stored n index subindex obj bs found silent there = ground arith

written_object :
    (index subindex : ℕ) (bs : Bytes) (check_writable : Bool) (n : LocalNode)
    → (set_data index subindex bs check_writable n).0 ≡ ok tt
    → (obj : OdVariable) × (find_object n.object_dictionary index subindex ≡ ok obj)
unfolding set_data
written_object index subindex bs check_writable n h =
    elim (Result-cases (find_object n.object_dictionary index subindex)) [
      | inl (obj, e) ↦ (obj, e)
      | inr (x, e) ↦ absurd (ground arith)
    ]

module _ (n : LocalNode) (index subindex : ℕ) (bs : Bytes) (check_writable : Bool) where
  -- After a successful write, a node without read callbacks gives the written data back, as it is.
  pub get_data-set_data :
      n.read_callbacks ≡ []
      → (set_data index subindex bs check_writable n).0 ≡ ok tt
      → get_data ((set_data index subindex bs check_writable n).1) index subindex false ≡ ok bs
  unfolding IsWritten
  get_data-set_data silent succeeded =
      let (obj, found) = written_object index subindex bs check_writable n succeeded in
      let (same_od, same_callbacks, same_codec, left) =
        set_data-IsWritten index subindex bs check_writable n in
      read_stored ((set_data index subindex bs check_writable n).1) index subindex obj bs
        (ap (λ od. find_object od index subindex) same_od ∙ found) (same_callbacks ∙ silent)
        (ground (arith, stored-store n.data_store index subindex index subindex bs))

  -- The application's write callbacks leave the node alone, and what its read callbacks answer depends on
  -- their arguments alone. Then a write, successful or not, changes nothing of what any other index or
  -- subindex gives; one that raises changes nothing at all of what the node gives.
  pub get_data-set_data_other :
      (j t : ℕ) (check_readable : Bool)
      → ((j == index && t == subindex) ≡ false)
        ⊎ ((e : Exn) × ((set_data index subindex bs check_writable n).0 ≡ err e))
      → get_data ((set_data index subindex bs check_writable n).1) j t check_readable
        ≡ get_data n j t check_readable
  unfolding get_data read_object stored_or_default IsWritten
  get_data-set_data_other j t check_readable apart =
      let (same_od, same_callbacks, same_codec, left) =
        set_data-IsWritten index subindex bs check_writable n in
      let untouched : stored ((set_data index subindex bs check_writable n).1.data_store) j t
          ≡ stored n.data_store j t =
        elim apart [
          | inl elsewhere ↦ elim (Result-cases ((set_data index subindex bs check_writable n).0)) [
            | inl (u, e) ↦ ground (arith, stored-store n.data_store index subindex j t bs)
            | inr (x, e) ↦ ground arith
          ]
          | inr (x, e) ↦ ground arith
        ] in
      ground arith
