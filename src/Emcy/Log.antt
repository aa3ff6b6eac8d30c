-- ===== src/Emcy/Log.antt =====
-- The log and the active errors of a consumer (canopen/emcy.py).
use canopen_asyncio.Common.Bytes.{Bytes}
use canopen_asyncio.Common.Monad.{Result-cases, ok}
use canopen_asyncio.Emcy.{
  emcy_send, pack_emcy, on_emcy, is_error_reset, unpack_emcy, EmcyConsumer, EmcyError,
}
use canopen_asyncio.Common.{
  ◌∙◌, ap, suc, zero, length-take, length-append, inr, inl, ◌-◌, replicate, if◌then◌else◌, ℕ, ◌+◌,
  ◌*◌, ◌/◌, ◌%◌, ◌≤◌, List, [], ◌∷◌, ◌++◌, ◌≡◌, refl, arith, length, take,
}

-- What has arrived since the last error reset.
unfoldable pub since_reset : List EmcyError → List EmcyError → List EmcyError
since_reset acc [] = acc
since_reset acc (e ∷ es) =
    let keep = since_reset (acc ++ (e ∷ [])) es in
    let restart = since_reset [] es in if is_error_reset e.code then restart else keep

-- The consumer after a run of frames, each with its time; the exceptions are the callers'.
unfoldable pub on_emcys : List (Bytes × ℕ) → EmcyConsumer → EmcyConsumer
on_emcys [] c = c
on_emcys ((payload, timestamp) ∷ rest) c =
    let (r, c') = on_emcy payload timestamp c in on_emcys rest c'

-- The active errors are those that the log has since its last error reset.
unfoldable pub IsTracked : EmcyConsumer → Type 0
IsTracked c = c.active ≡ since_reset [] c.log

since_reset-append :
    (acc es : List EmcyError) (e : EmcyError)
    → since_reset acc (es ++ (e ∷ []))
      ≡ (if is_error_reset e.code then [] else since_reset acc es ++ (e ∷ []))
unfolding since_reset
since_reset-append acc [] e = refl
since_reset-append acc (d ∷ es) e =
    ground (arith, since_reset-append [] es e, since_reset-append (acc ++ (d ∷ [])) es e)

on_emcy-IsTracked :
    (payload : Bytes) (timestamp : ℕ) (c : EmcyConsumer)
    → IsTracked c
    → IsTracked ((on_emcy payload timestamp c).1)
unfolding on_emcy IsTracked
on_emcy-IsTracked payload timestamp c h = elim (Result-cases (unpack_emcy payload timestamp)) [
  | inl (entry, e) ↦ ground (arith, since_reset-append [] c.log entry)
  | inr (x, e) ↦ ground arith
]

-- Whatever frames arrive, malformed ones included, the active errors are those logged since the last
-- error reset in the log, if they were before.
pub on_emcys-IsTracked :
    (frames : List (Bytes × ℕ)) (c : EmcyConsumer) → IsTracked c → IsTracked (on_emcys frames c)
unfolding on_emcys
on_emcys-IsTracked [] c h = h
on_emcys-IsTracked ((payload, timestamp) ∷ rest) c h =
    on_emcys-IsTracked rest ((on_emcy payload timestamp c).1)
      (on_emcy-IsTracked payload timestamp c h)

take-replicate : (n m : ℕ) (a : ℕ) → n ≤ m → take n (replicate m a) ≡ replicate n a
take-replicate zero m a h = refl
take-replicate (suc n) zero a h = elim h [ ]
take-replicate (suc n) (suc m) a h = ap (λ r. a ∷ r) (take-replicate n m a (omega arith))

-- Cutting a list that was filled up fills it up to that length.
take-filled :
    (n m : ℕ) (xs : List ℕ) (a : ℕ)
    → length xs ≤ n
    → n ≤ length xs + m
    → take n (xs ++ replicate m a) ≡ xs ++ replicate (n - length xs) a
take-filled n m [] a h k =
    take-replicate n m a (omega arith) ∙ ap (λ j. replicate j a) (omega arith)
take-filled zero m (x ∷ xs) a h k = elim h [ ]
take-filled (suc n) m (x ∷ xs) a h k =
    ap (λ r. x ∷ r) (take-filled n m xs a (omega arith) (omega arith))
    ∙ ap (λ j. x ∷ (xs ++ replicate j a)) (omega arith)

unpack_emcy-pack_emcy :
    (code register timestamp : ℕ) (vendor payload : Bytes)
    → length vendor ≤ 5
    → pack_emcy code register vendor ≡ ok payload
    → unpack_emcy payload timestamp
      ≡ ok (record {
        code = code;
        register = register;
        data_field = vendor ++ replicate (5 - length vendor) 0;
        timestamp = timestamp;
      })
unfolding pack_emcy unpack_emcy
unpack_emcy-pack_emcy code register timestamp vendor payload short sent =
    let filled = take-filled 5 5 vendor 0 short (omega arith) in
    let whole : length (take 5 (vendor ++ replicate 5 0)) ≡ 5 =
      omega
        (arith, length-take 5 (vendor ++ replicate 5 0), length-append vendor (replicate 5 0)) in
    let value : code % 256 + 256 * (code / 256) ≡ code = omega arith in
    ground (arith, filled, whole, value)

-- A frame that a producer makes of a code, a register and vendor data of at most five bytes is logged
-- by the consumer with that code, register and data, filled up with zeros; it is active afterwards
-- unless its code is one of an error reset, which empties the active list.
pub on_emcy-emcy_send :
    (code register timestamp : ℕ) (vendor payload : Bytes) (c : EmcyConsumer)
    → length vendor ≤ 5
    → emcy_send code register vendor ≡ ok payload
    → let entry : EmcyError = record {
      code = code;
      register = register;
      data_field = vendor ++ replicate (5 - length vendor) 0;
      timestamp = timestamp;
    } in
      on_emcy payload timestamp c ≡ (
        ok tt,
        record {
          log = c.log ++ (entry ∷ []);
          active = if is_error_reset code then [] else c.active ++ (entry ∷ []);
        },
      )
unfolding on_emcy emcy_send
on_emcy-emcy_send code register timestamp vendor payload c short sent =
    ground (arith, unpack_emcy-pack_emcy code register timestamp vendor payload short sent)
