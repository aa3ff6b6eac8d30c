-- ===== src/Pdo/Maps/Numbers.antt =====
-- The numbers under which a map of a node is found (canopen/pdo/base.py).
use canopen_asyncio.Pdo.Maps.{
  FoundMap, PdoMaps, default_cob_id, find_maps, open_maps, by_offset, get_map,
}
use canopen_asyncio.Od.Types.{ObjectDictionary}
use canopen_asyncio.Od.Dictionary.{od_contains}
use canopen_asyncio.Common.Dict.{Dict, lookup, insert, lookup-insert}
use canopen_asyncio.Common.Monad.{Result-cases, ok}
use canopen_asyncio.Common.{
  ◌⊎◌, ℕ, zero, suc, ◌+◌, ◌-◌, ◌<◌, ◌≤◌, ◌≡◌, ◌∙◌, ap, sym, arith, true, ◌==◌, some, Option,
  Bool-cases, inl, inr, [],
}

after :
    (left map_no key : ℕ)
    → (key ≤ map_no) ⊎ (map_no + suc left < key)
    → (key ≤ map_no + 1) ⊎ (map_no + 1 + left < key)
after left map_no key (inl h) = inl (omega (arith, h))
after left map_no key (inr h) = inr (omega (arith, h))

module _ (od : ObjectDictionary) (com_offset map_offset : ℕ) (cob_base : Option ℕ)
    (node_id : ℕ) where
  -- The map with number `map_no + 1`.
  unfoldable pub numbered_map : ℕ → FoundMap
  numbered_map map_no = record {
    com_index = com_offset + map_no;
    map_index = map_offset + map_no;
    predefined_cob_id = default_cob_id cob_base map_no node_id;
  }

  -- Numbers that the loop does not reach keep their map.
  find_maps-beside :
      (left map_no key : ℕ) (maps found : Dict FoundMap)
      → find_maps od com_offset map_offset cob_base node_id left map_no maps ≡ ok found
      → (key ≤ map_no) ⊎ (map_no + left < key)
      → lookup key found ≡ lookup key maps
  unfolding find_maps numbered_map
  find_maps-beside zero map_no key maps found e h = ap (λ m. lookup key m) (sym (ground (arith, e)))
  find_maps-beside (suc left) map_no key maps found e h =
      let added = insert (map_no + 1) (numbered_map map_no) maps in
      let later : (key ≤ map_no + 1) ⊎ (map_no + 1 + left < key) = after left map_no key h in
      elim (Bool-cases (od_contains od (com_offset + map_no))) [
        | inr missing ↦
            find_maps-beside left (map_no + 1) key maps found (ground (arith, e, missing)) later
        | inl present ↦ elim (Bool-cases (od_contains od (map_offset + map_no))) [
          | inr missing ↦ absurd (ground (arith, e, present, missing))
          | inl mapped ↦
              find_maps-beside left (map_no + 1) key added found
                (ground (arith, e, present, mapped)) later
              ∙ lookup-insert key (map_no + 1) (numbered_map map_no) maps
              ∙ ground (arith, h)
        ]
      ]

  -- A map whose parameters the dictionary has is found under its number.
  find_maps-at :
      (left map_no n : ℕ) (maps found : Dict FoundMap)
      → find_maps od com_offset map_offset cob_base node_id left map_no maps ≡ ok found
      → map_no ≤ n
      → n < map_no + left
      → od_contains od (com_offset + n) ≡ true
      → lookup (n + 1) found ≡ some (numbered_map n)
  unfolding find_maps numbered_map
  find_maps-at zero map_no n maps found e low high present = absurd (omega (arith, low, high))
  find_maps-at (suc left) map_no n maps found e low high present =
      let added = insert (map_no + 1) (numbered_map map_no) maps in
      elim (Bool-cases (map_no == n)) [
        | inr before ↦
            let lower : map_no + 1 ≤ n = ground (arith, before, low) in
            elim (Bool-cases (od_contains od (com_offset + map_no))) [
              | inr missing ↦
                  find_maps-at left (map_no + 1) n maps found (ground (arith, e, missing)) lower
                    (omega (arith, high)) present
              | inl here ↦ elim (Bool-cases (od_contains od (map_offset + map_no))) [
                | inr missing ↦ absurd (ground (arith, e, here, missing))
                | inl mapped ↦
                    find_maps-at left (map_no + 1) n added found (ground (arith, e, here, mapped))
                      lower (omega (arith, high)) present
              ]
            ]
        | inl now ↦
            let same : map_no ≡ n = ground (arith, now) in
            let here : od_contains od (com_offset + map_no) ≡ true =
              ap (λ k. od_contains od (com_offset + k)) same ∙ present in
            elim (Bool-cases (od_contains od (map_offset + map_no))) [
              | inr missing ↦ absurd (ground (arith, e, here, missing))
              | inl mapped ↦
                  ap (λ k. lookup (k + 1) found) (sym same)
                  ∙ find_maps-beside left (map_no + 1) (map_no + 1) added found
                      (ground (arith, e, here, mapped)) (inl (omega arith))
                  ∙ lookup-insert (map_no + 1) (map_no + 1) (numbered_map map_no) maps
                  ∙ ground arith
                  ∙ ap (λ k. some (numbered_map k)) same
            ]
      ]

  open_maps-maps :
      (p : PdoMaps)
      → open_maps od com_offset map_offset cob_base node_id ≡ ok p
      → 0 < com_offset
      → (find_maps od com_offset map_offset cob_base node_id 512 0 [] ≡ ok p.maps)
        × (p.com_offset ≡ com_offset)
        × (p.map_offset ≡ map_offset)
  unfolding open_maps
  open_maps-maps p e some_offset =
      elim (Result-cases (find_maps od com_offset map_offset cob_base node_id 512 0 [])) [
        | inl (maps, f) ↦ (
          ground (arith, e, f, some_offset),
          ground (arith, e, f, some_offset),
          ground (arith, e, f, some_offset),
        )
        | inr (x, f) ↦ absurd (ground (arith, e, f, some_offset))
      ]

  -- The offsets of the parameters are above 512, and those of the mappings follow after them. Where the
  -- maps of a node could be made, each of the 512 whose communication parameters the dictionary has is
  -- found under its number, under the index of its mapping and under that of its parameters alike, with
  -- its own two objects and its default COB-ID.
  pub get_map-open_maps :
      (p : PdoMaps) (n : ℕ)
      → open_maps od com_offset map_offset cob_base node_id ≡ ok p
      → 512 < com_offset
      → com_offset + 512 ≤ map_offset
      → n < 512
      → od_contains od (com_offset + n) ≡ true
      → (get_map p (n + 1) ≡ ok (numbered_map n))
        × (get_map p (map_offset + n) ≡ ok (numbered_map n))
        × (get_map p (com_offset + n) ≡ ok (numbered_map n))
  unfolding get_map by_offset
  get_map-open_maps p n e high apart small present =
      let (f, c, m) = open_maps-maps p e (omega (arith, high)) in
      let at = find_maps-at 512 0 n [] p.maps f (omega arith) (omega (arith, small)) present in
      let no_mapping =
        find_maps-beside 512 0 (map_offset + n) [] p.maps f (inr (omega (arith, high, apart))) in
      let no_parameter =
        find_maps-beside 512 0 (com_offset + n) [] p.maps f (inr (omega (arith, high))) in
      let by_mapping : map_offset + n + 1 - map_offset ≡ n + 1 = omega arith in
      let by_parameter : com_offset + n + 1 - com_offset ≡ n + 1 = omega arith in
      (
        ground (arith, at),
        ground (arith, m, no_mapping, ap (λ k. lookup k p.maps) by_mapping ∙ at, high, apart),
        ground (
          arith,
          c,
          m,
          no_parameter,
          ap (λ k. lookup k p.maps) by_parameter ∙ at,
          high,
          apart,
          small,
        ),
      )
