-- ===== src/Network/Subscribers.antt =====
-- The table of subscribers, and the scanner's list (canopen/network.py).
use canopen_asyncio.Common.Monad.{ok, Result-cases}
use canopen_asyncio.Common.Dict.{lookup, insert, Dict}
use canopen_asyncio.Network.{
  forget, set_default, put_list, list_of, unsubscribe, subscribe, Network, remove_first, is_in,
}
use canopen_asyncio.Common.{
  some, none, Option, Option-cases, inr, inl, All, Bool-cases, ◌≤◌, if◌then◌else◌, ◌==◌, ℕ, ◌+◌,
  false, List, [], ◌∷◌, ◌++◌, ◌≡◌, refl, arith,
}

-- How often a callback stands in a list.
unfoldable pub count : ℕ → List ℕ → ℕ
count x [] = 0
count x (y ∷ ys) = (if x == y then 1 else 0) + count x ys

-- No callback is in a list twice.
unfoldable pub IsOnce : List ℕ → Type 0
IsOnce cs = (x : ℕ) → count x cs ≤ 1

count-absent : (x : ℕ) (cs : List ℕ) → is_in x cs ≡ false → count x cs ≡ 0
unfolding is_in count
count-absent x [] h = refl
count-absent x (y ∷ ys) h = ground (arith, count-absent x ys)

count-append :
    (x y : ℕ) (cs : List ℕ) → count x (cs ++ (y ∷ [])) ≡ count x cs + (if x == y then 1 else 0)
unfolding count
count-append x y [] = ground arith
count-append x y (c ∷ cs) = omega (arith, count-append x y cs)

pub add-IsOnce :
    (x : ℕ) (cs : List ℕ) → IsOnce cs → IsOnce (if is_in x cs then cs else cs ++ (x ∷ []))
unfolding IsOnce
add-IsOnce x cs h y = elim (Bool-cases (is_in x cs)) [
  | inl there ↦ ground (arith, h y)
  | inr absent ↦ ground (arith, h y, count-append y x cs, count-absent x cs absent)
]

added-IsOnce : (x : ℕ) (cs : List ℕ) → is_in x cs ≡ false → IsOnce cs → IsOnce (cs ++ (x ∷ []))
unfolding IsOnce
added-IsOnce x cs absent h y = ground (arith, h y, count-append y x cs, count-absent x cs absent)

count-remove_first :
    (x y : ℕ) (cs ds : List ℕ) → remove_first x cs ≡ ok ds → count y ds ≤ count y cs
unfolding remove_first count
count-remove_first x y [] ds h = absurd (ground arith)
count-remove_first x y (c ∷ cs) ds h = elim (Result-cases (remove_first x cs)) [
  | inl (rest, e) ↦ ground (arith, count-remove_first x y cs rest e)
  | inr (r, e) ↦ ground arith
]

-- The lists of the table, in any place.
unfoldable pub IsTable : Dict (List ℕ) → Type 0
IsTable subs = All (λ entry. IsOnce (entry.1)) subs

nil-IsOnce : IsOnce []
unfolding IsOnce count
nil-IsOnce x = omega arith

-- What a list object holds.
unfoldable pub callbacks_in : ℕ → Dict (List ℕ) → List ℕ
callbacks_in list lists = elim (lookup list lists) [ some cs ↦ cs | none ↦ [] ]

callbacks_in-IsOnce : (k : ℕ) (d : Dict (List ℕ)) → IsTable d → IsOnce (callbacks_in k d)
unfolding IsTable callbacks_in
callbacks_in-IsOnce k [] h = nil-IsOnce
callbacks_in-IsOnce k ((j, cs) ∷ d) (hc, hd) = elim (Bool-cases (k == j)) [
  | inl here ↦ ground (arith, hc)
  | inr apart ↦ ground (arith, callbacks_in-IsOnce k d hd)
]

insert-IsTable :
    (k : ℕ) (cs : List ℕ) (d : Dict (List ℕ)) → IsOnce cs → IsTable d → IsTable (insert k cs d)
unfolding IsTable
insert-IsTable k cs [] hc h = (hc, tt)
insert-IsTable k cs ((j, ds) ∷ d) hc (hd, h) = elim (Bool-cases (k == j)) [
  | inl here ↦ rw (here) (hc, h)
  | inr apart ↦ rw (apart) (hd, insert-IsTable k cs d hc h)
]

remove_first-IsOnce : (x : ℕ) (cs ds : List ℕ) → remove_first x cs ≡ ok ds → IsOnce cs → IsOnce ds
unfolding IsOnce
remove_first-IsOnce x cs ds e h y = omega (arith, h y, count-remove_first x y cs ds e)

module _ {W : Type 0} where
  -- In no list object a callback stands twice.
  unfoldable pub IsSound : Network W → Type 0
  IsSound n = IsTable n.lists

  list_of-IsOnce : (list : ℕ) (n : Network W) → IsSound n → IsOnce (list_of list n)
  unfolding IsSound list_of callbacks_in
  list_of-IsOnce list n h = callbacks_in-IsOnce list n.lists h

  set_default-IsSound :
      (can_id : ℕ) (n : Network W) → IsSound n → IsSound ((set_default can_id n).1)
  unfolding IsSound set_default
  set_default-IsSound can_id n h = elim (Option-cases (lookup can_id n.subscribers)) [
    | inl absent ↦ ground (arith, absent, insert-IsTable n.next_list [] n.lists nil-IsOnce h)
    | inr (list, there) ↦ ground (arith, there, h)
  ]

  put_list-IsSound :
      (list : ℕ) (cs : List ℕ) (n : Network W)
      → IsOnce cs
      → IsSound n
      → IsSound (put_list list cs n)
  unfolding IsSound put_list
  put_list-IsSound list cs n once h = insert-IsTable list cs n.lists once h

  subscribe-IsSound :
      (can_id callback : ℕ) (n : Network W) → IsSound n → IsSound ((subscribe can_id callback n).1)
  unfolding subscribe
  subscribe-IsSound can_id callback n h =
      let list = (set_default can_id n).0 in
      let n' = (set_default can_id n).1 in
      let sound = set_default-IsSound can_id n h in
      let once = list_of-IsOnce list n' sound in
      elim (Bool-cases (is_in callback (list_of list n'))) [
        | inl there ↦ rw (there) sound
        | inr absent ↦ ground (
          arith,
          absent,
          put_list-IsSound list (list_of list n' ++ (callback ∷ [])) n'
              (added-IsOnce callback (list_of list n') absent once) sound,
        )
      ]

  unsubscribe-IsSound :
      (can_id : ℕ) (callback : Option ℕ) (n : Network W)
      → IsSound n
      → IsSound ((unsubscribe can_id callback n).1)
  unfolding unsubscribe forget IsSound put_list
  unsubscribe-IsSound can_id callback n h = elim (Option-cases (lookup can_id n.subscribers)) [
    | inl absent ↦ ground (arith, absent, h)
    | inr (list, there) ↦ elim (Option-cases callback) [
      | inl all ↦ ground (arith, there, all, h)
      | inr (c, one) ↦ elim (Result-cases (remove_first c (list_of list n))) [
        | inr (x, failed) ↦ ground (arith, there, one, failed, h)
        | inl ([], last) ↦ ground (arith, there, one, last, put_list-IsSound list [] n nil-IsOnce h)
        | inl (d ∷ rest, left) ↦ ground (
          arith,
          there,
          one,
          left,
          put_list-IsSound list (d ∷ rest) n
              (remove_first-IsOnce c (list_of list n) (d ∷ rest) left (list_of-IsOnce list n h)) h,
        )
      ]
    ]
  ]

-- A call of `subscribe` or `unsubscribe`.
pub data Change : Type 0 where
  subscribed : ℕ → ℕ → Change
  unsubscribed : ℕ → Option ℕ → Change

module _ {W : Type 0} where
  -- The network after such calls; an exception goes to the caller.
  unfoldable pub changed : List Change → Network W → Network W
  changed [] n = n
  changed (subscribed can_id callback ∷ rest) n = changed rest ((subscribe can_id callback n).1)
  changed (unsubscribed can_id callback ∷ rest) n = changed rest ((unsubscribe can_id callback n).1)

  -- Whatever calls of subscribe and unsubscribe are made, failing ones included, no callback is twice
  -- in a list of callbacks, if none was before.
  pub changed-IsSound : (cs : List Change) (n : Network W) → IsSound n → IsSound (changed cs n)
  unfolding changed
  changed-IsSound [] n h = h
  changed-IsSound (subscribed can_id callback ∷ rest) n h =
      changed-IsSound rest ((subscribe can_id callback n).1) (subscribe-IsSound can_id callback n h)
  changed-IsSound (unsubscribed can_id callback ∷ rest) n h =
      changed-IsSound rest ((unsubscribe can_id callback n).1)
        (unsubscribe-IsSound can_id callback n h)
