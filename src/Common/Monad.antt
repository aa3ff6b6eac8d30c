-- ===== src/Common/Monad.antt =====
-- Exceptions and mutable state: an action takes the state and returns a value or an exception with
-- the state as it was left, since what was written before a `raise` stays written.
use canopen_asyncio.Common.Tests.{if◌then◌else◌}
use Prim.Native.Nat.{ℕ}
use mathlib.Core.Bool.{Bool}
use mathlib.Core.Path.{◌≡◌, refl}
use mathlib.Core.Logic.{◌⊎◌, inl, inr}

-- The exceptions that the modelled code raises or catches.
pub data Exn : Type 0 where
  sdo_aborted : ℕ → Exn
  sdo_communication key_error type_error value_error struct_error : Exn
  index_error overflow_error attribute_error runtime_error assertion_error blocking_io_error : Exn
  od_error lss_error can_error nmt_error : Exn
  -- No exception of the program: the loop does not end.
  diverged : Exn

pub data Result (A : Type 0) : Type 0 where
  ok : A → Result A
  err : Exn → Result A

abbrev pub Action : Type 0 → Type 0 → Type 0
Action S A = S → Result A × S

module _ {S A : Type 0} where
  abbrev pub pure : A → Action S A
  pure a s = (ok a, s)

  abbrev pub raise : Exn → Action S A
  raise e s = (err e, s)

  abbrev pub gets : (S → A) → Action S A
  gets f s = (ok (f s), s)

  -- An outcome that leaves the state alone.
  abbrev pub lift : Result A → Action S A
  lift r s = (r, s)

abbrev pub modify : {S : Type 0} → (S → S) → Action S (Unit {0})
modify f s = (ok tt, f s)

infixl 5 ◌>>=◌ ◌>>◌
abbrev pub ◌>>=◌ : {S A B : Type 0} → Action S A → (A → Action S B) → Action S B
◌>>=◌ m f s = let (r, s') = m s in elim r [ ok a ↦ f a s' | err e ↦ (err e, s') ]

abbrev pub ◌>>◌ : {S A B : Type 0} → Action S A → Action S B → Action S B
m >> k = m >>= λ _. k

-- `if not c: raise e`
abbrev pub require : {S : Type 0} → Bool → Exn → Action S (Unit {0})
require c e s = (if c then ok tt else err e, s)

abbrev pub raise_if : {S : Type 0} → Bool → Exn → Action S (Unit {0})
raise_if c e s = (if c then err e else ok tt, s)

-- `try: m / except ...`: the handler sees the exception and the state that was left.
abbrev pub catch : {S A : Type 0} → Action S A → (Exn → Action S A) → Action S A
catch m h s = let (r, s') = m s in elim r [ ok a ↦ (ok a, s') | err e ↦ h e s' ]

pub Result-cases : {A : Type 0} (r : Result A) → ((a : A) × (r ≡ ok a)) ⊎ ((e : Exn) × (r ≡ err e))
Result-cases (ok a) = inl (a, refl)
Result-cases (err e) = inr (e, refl)

-- A successful first step hands its value and state on.
pub >>=-ok :
    {S A B : Type 0} (m : Action S A) (f : A → Action S B) (s : S) {a : A} {s' : S}
    → m s ≡ (ok a, s')
    → (m >>= f) s ≡ f a s'
>>=-ok m f s e = λ i. (let (r, t) = e i in elim r [ ok a ↦ f a t | err x ↦ (err x, t) ])

pub >>=-err :
    {S A B : Type 0} (m : Action S A) (f : A → Action S B) (s : S) {x : Exn} {s' : S}
    → m s ≡ (err x, s')
    → (m >>= f) s ≡ (err x, s')
>>=-err m f s e = λ i. (let (r, t) = e i in elim r [ ok a ↦ f a t | err y ↦ (err y, t) ])
