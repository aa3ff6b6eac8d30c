-- ===== src/Network/Dispatch.antt =====
-- The dispatch of a received message (canopen/network.py).
use canopen_asyncio.Common.Bytes.{Bytes}
use canopen_asyncio.Common.Dict.{lookup-insert, insert, lookup}
use canopen_asyncio.Common.Monad.{err, ok, Result, Result-cases, Action}
use canopen_asyncio.Network.{
  notify, dispatch_subscribers, scan_message, dispatch_callbacks, on_error, Network, list_of,
  unsubscribe, remove_first, put_list,
}
use canopen_asyncio.Common.{
  ◌∙◌, ap, none, some, inr, inl, ℕ, zero, suc, ◌+◌, ◌<◌, true, List, [], ◌∷◌, ◌++◌, ◌≡◌, refl,
  arith, drop, length,
}

drop-suc :
    (k : ℕ) (xs : List ℕ) (c : ℕ) (rest : List ℕ) → drop k xs ≡ c ∷ rest → drop (k + 1) xs ≡ rest
drop-suc zero xs c rest e = ground (arith, e)
drop-suc (suc k) [] c rest e = absurd (ground (arith, e))
drop-suc (suc k) (x ∷ xs) c rest e =
    let later : suc k + 1 ≡ suc (k + 1) = omega arith in
    ap (λ m. drop m (x ∷ xs)) later ∙ drop-suc k xs c rest e

-- What a callback raised is kept.
unfoldable pub keep_error : {W : Type 0} → Result (Unit {0}) → Network W → Network W
keep_error (ok u) n = n
keep_error (err e) n = record n { exceptions = n.exceptions ++ (e ∷ []) }

module _ {W : Type 0} (run : ℕ → Action (Network W) (Unit {0})) where
  -- The callbacks of a list, one after the other, whatever they raise.
  unfoldable pub after_calls : List ℕ → Network W → Network W
  unfolding keep_error
  after_calls [] n = n
  after_calls (c ∷ cs) n = after_calls cs (keep_error ((run c n).0) ((run c n).1))

  -- The callbacks leave the list objects and FILTER_ERRORS as they are.
  unfoldable pub IsSteady : Type 0
  IsSteady =
      (c : ℕ) (n : Network W)
      → ((run c n).1.lists ≡ n.lists) × ((run c n).1.filter_errors ≡ n.filter_errors)

  -- From a position on, a dispatch then calls what is behind it.
  dispatch_callbacks-filtered :
      (steady : IsSteady) (cs : List ℕ) (fuel list position : ℕ) (n : Network W)
      → n.filter_errors ≡ true
      → drop position (list_of list n) ≡ cs
      → length cs < fuel
      → dispatch_callbacks run none fuel list position n ≡ (ok tt, after_calls cs n)
  unfolding dispatch_callbacks after_calls on_error list_of IsSteady keep_error
  dispatch_callbacks-filtered steady cs zero list position n h at enough =
      absurd (omega (arith, enough))
  dispatch_callbacks-filtered steady [] (suc fuel) list position n h at enough = ground (arith, at)
  dispatch_callbacks-filtered steady (c ∷ cs) (suc fuel) list position n h at enough =
      let (same_lists, same_filter) = steady c n in
      let same_list : list_of list ((run c n).1) ≡ list_of list n =
        ap (λ lists. list_of list (record n { lists = lists })) same_lists in
      let left : drop (position + 1) (list_of list ((run c n).1)) ≡ cs =
        ap (λ cs. drop (position + 1) cs) same_list ∙ drop-suc position (list_of list n) c cs at in
      let ih = dispatch_callbacks-filtered steady cs fuel list (position + 1) in
      elim (Result-cases ((run c n).0)) [
        | inl (u, e) ↦
            ground (arith, at, ih ((run c n).1) (same_filter ∙ h) left (omega (arith, enough)))
        | inr (x, e) ↦ ground (
          arith,
          at,
          same_filter,
          ih (keep_error (err x) ((run c n).1)) (same_filter ∙ h) left (omega (arith, enough)),
        )
      ]

module _ {W : Type 0} (run : ℕ → ℕ → Bytes → ℕ → Action (Network W) (Unit {0}))
    (fuel can_id timestamp : ℕ) (payload : Bytes) (n : Network W) (list : ℕ) where
  -- A message arrives whose ID has a list, with FILTER_ERRORS, and no callback changes a list of
  -- callbacks or FILTER_ERRORS; they may send messages, which takes the kept exceptions out. Then `notify`
  -- returns, for any fuel above the length of the list: every callback of the list was called, once for
  -- each place and in its order, on what those before it left, even if these raised; each exception was
  -- kept, behind those that were kept when it was raised; and the scanner has seen the ID.
  pub notify-filtered :
      IsSteady (λ c. run c can_id payload timestamp)
      → n.filter_errors ≡ true
      → lookup can_id n.subscribers ≡ some list
      → length (list_of list n) < fuel
      → let after = after_calls (λ c. run c can_id payload timestamp) (list_of list n) n in
        notify run fuel can_id payload timestamp n
        ≡ (ok tt, record after { nodes = scan_message can_id after.nodes })
  unfolding notify dispatch_subscribers
  notify-filtered steady filtered there enough = ground (
    arith,
    there,
    dispatch_callbacks-filtered (λ c. run c can_id payload timestamp) steady (list_of list n) fuel
        list 0 n filtered refl enough,
  )

  -- The first of two callbacks that listen for an ID takes itself off the list when it is called. Then the
  -- other one, which is still subscribed, is not called for this message, whatever it does.
  pub notify-unsubscribed :
      (c d : ℕ)
      → lookup can_id n.subscribers ≡ some list
      → list_of list n ≡ c ∷ d ∷ []
      → run c can_id payload timestamp n ≡ unsubscribe can_id (some c) n
      → notify run (suc (suc fuel)) can_id payload timestamp n ≡ (
        ok tt,
        record n { lists = insert list (d ∷ []) n.lists; nodes = scan_message can_id n.nodes },
      )
  unfolding notify dispatch_subscribers dispatch_callbacks unsubscribe list_of remove_first put_list
  notify-unsubscribed c d there two leaves =
      let gone : unsubscribe can_id (some c) n ≡ (ok tt, put_list list (d ∷ []) n) =
        ground (arith, there, two) in
      let left : list_of list (put_list list (d ∷ []) n) ≡ d ∷ [] =
        ground (arith, lookup-insert list list (d ∷ []) n.lists) in
      ground (arith, there, two, leaves, gone, left)
