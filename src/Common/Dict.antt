-- ===== src/Common/Dict.antt =====
-- Dicts with number keys, as lists of entries in the order in which the keys came.
use canopen_asyncio.Common.Tests.{◌==◌, if◌then◌else◌}
use Prim.Native.Nat.{ℕ}
use mathlib.Core.Path.{◌≡◌, refl}
use mathlib.Core.Bool.{Bool, true, false}
use mathlib.Core.Option.{Option, none, some}
use mathlib.Core.List.{List, [], ◌∷◌}
use native.Mathlib.Omega.{arith}

abbrev pub Dict {ℓ} : Type ℓ → Type ℓ
Dict V = List (ℕ × V)

module _ {ℓ} {V : Type ℓ} where
  -- Assignment to a key keeps the place that the key has.
  abbrev pub insert : ℕ → V → Dict V → Dict V
  insert key value [] = (key, value) ∷ []
  insert key value ((other, old) ∷ entries) =
      if key == other then (key, value) ∷ entries else (other, old) ∷ insert key value entries

  -- `del`, with no effect where the key is missing.
  abbrev pub erase : ℕ → Dict V → Dict V
  erase key [] = []
  erase key ((other, old) ∷ entries) =
      if key == other then entries else (other, old) ∷ erase key entries

  -- `get`
  abbrev pub lookup : ℕ → Dict V → Option V
  lookup key [] = none
  lookup key ((other, value) ∷ entries) = if key == other then some value else lookup key entries

  -- Whether the key is in the dict.
  abbrev pub contains : ℕ → Dict V → Bool
  contains key entries = elim (lookup key entries) [ some value ↦ true | none ↦ false ]

  pub lookup-insert :
      (asked key : ℕ) (value : V) (entries : Dict V)
      → lookup asked (insert key value entries)
        ≡ (if asked == key then some value else lookup asked entries)
  lookup-insert asked key value [] = refl
  lookup-insert asked key value ((other, old) ∷ entries) =
      ground (arith, lookup-insert asked key value entries)
