-- ===== src/Network.antt =====
-- The network (canopen/network.py): subscribers, the dispatch of received messages, errors of
-- callbacks, and the node scanner. The lists of callbacks are objects in a store, since a dispatch goes
-- through the list itself, which the callbacks may change. A callback is named by a number, `run` says
-- what it does to the network and to the rest of the program. Coroutines, connecting, periodic tasks and
-- the node table are left out.
pub mod Subscribers
pub mod Scanner
pub mod Dispatch
use canopen_asyncio.Common.{
  ◌+◌, suc, zero, drop, ℕ, Bool, true, false, not, ◌&&◌, Option, none, some, List, [], ◌∷◌, ◌++◌,
  ◌==◌, if◌then◌else◌, bit_and,
}
use canopen_asyncio.Common.Bytes.{Bytes}
use canopen_asyncio.Common.Dict.{Dict, lookup, insert, erase}
use canopen_asyncio.Common.Monad.{
  diverged, runtime_error, Action, Result, Exn, ok, err, modify, ◌>>◌, key_error, value_error,
}

-- `NodeScanner.nodes`
abbrev pub Nodes : Type 0
Nodes = List ℕ

unfoldable pub is_in : ℕ → List ℕ → Bool
is_in x [] = false
is_in x (y ∷ ys) = if x == y then true else is_in x ys

-- `NodeScanner.SERVICES`
unfoldable pub services : List ℕ
services = 0x700 ∷ 0x580 ∷ 0x180 ∷ 0x280 ∷ 0x380 ∷ 0x480 ∷ 0x80 ∷ []

-- `NodeScanner.on_message_received`
unfoldable pub scan_message : ℕ → Nodes → Nodes
scan_message can_id nodes =
    let service = bit_and can_id 0x780 in
    let node_id = bit_and can_id 0x7F in
    if not (is_in node_id nodes) && not (node_id == 0) && is_in service services
    then nodes ++ (node_id ∷ [])
    else nodes

-- `Network`, with the rest of the program as `world`.
pub record Network (W : Type 0) : Type 0 where
  -- The list object of each ID, and the contents of the list objects.
  pub subscribers : Dict ℕ
  pub lists : Dict (List ℕ)
  pub next_list : ℕ
  pub exceptions : List Exn
  pub filter_errors : Bool
  pub nodes : Nodes
  pub world : W

-- `list.remove`, which raises ValueError.
unfoldable pub remove_first : ℕ → List ℕ → Result (List ℕ)
remove_first x [] = err value_error
remove_first x (y ∷ ys) =
    if x == y then ok ys else elim (remove_first x ys) [ ok zs ↦ ok (y ∷ zs) | err e ↦ err e ]

module _ {W : Type 0} where
  -- The callbacks that a list object holds.
  unfoldable pub list_of : ℕ → Network W → List ℕ
  list_of list n = elim (lookup list n.lists) [ some cs ↦ cs | none ↦ [] ]

  unfoldable pub put_list : ℕ → List ℕ → Network W → Network W
  put_list list cs n = record n { lists = insert list cs n.lists }

  -- `self.subscribers.setdefault(can_id, list())`, and the list object then.
  unfoldable pub set_default : ℕ → Network W → ℕ × Network W
  set_default can_id n = elim (lookup can_id n.subscribers) [
    | some list ↦ (list, n)
    | none ↦ (
      n.next_list,
      record n {
        subscribers = insert can_id n.next_list n.subscribers;
        lists = insert n.next_list [] n.lists;
        next_list = n.next_list + 1;
      },
    )
  ]

  unfoldable pub subscribe : ℕ → ℕ → Action (Network W) (Unit {0})
  unfolding set_default list_of put_list
  subscribe can_id callback n =
      let (list, n') = set_default can_id n in
      let cs = list_of list n' in
      (ok tt, if is_in callback cs then n' else put_list list (cs ++ (callback ∷ [])) n')

  -- `del self.subscribers[can_id]`; the list object stays as it is.
  unfoldable pub forget : ℕ → Network W → Network W
  forget can_id n = record n { subscribers = erase can_id n.subscribers }

  -- None stands for all callbacks of the ID.
  unfoldable pub unsubscribe : ℕ → Option ℕ → Action (Network W) (Unit {0})
  unfolding list_of put_list forget
  unsubscribe can_id callback n = elim (lookup can_id n.subscribers) [
    | none ↦ (err key_error, n)
    | some list ↦ elim callback [
      | none ↦ (ok tt, forget can_id n)
      | some c ↦ elim (remove_first c (list_of list n)) [
        | err e ↦ (err e, n)
        | ok [] ↦ (ok tt, forget can_id (put_list list [] n))
        | ok (d ∷ rest) ↦ (ok tt, put_list list (d ∷ rest) n)
      ]
    ]
  ]

  -- `on_error`: None leaves the choice to FILTER_ERRORS.
  unfoldable pub on_error : Exn → Option Bool → Action (Network W) (Unit {0})
  on_error e (some true) n = (ok tt, n)
  on_error e (some false) n = (err e, n)
  on_error e none n =
      if n.filter_errors
      then (ok tt, record n { exceptions = n.exceptions ++ (e ∷ []) })
      else (err e, n)

  -- `dispatch_callbacks`, on callbacks that are no coroutines: the loop goes through the list object by
  -- position, as it is at each step. The fuel bounds its rounds.
  unfoldable pub dispatch_callbacks :
      (ℕ → Action (Network W) (Unit {0})) → Option Bool → ℕ → ℕ → ℕ → Action (Network W) (Unit {0})
  unfolding list_of
  dispatch_callbacks run ignore_errors zero list position n = (err diverged, n)
  dispatch_callbacks run ignore_errors (suc fuel) list position n =
      elim (drop position (list_of list n)) [
        | [] ↦ (ok tt, n)
        | c ∷ behind ↦
            let (r, n') = run c n in
            elim r [
              | ok _ ↦ dispatch_callbacks run ignore_errors fuel list (position + 1) n'
              | err e ↦
                  (on_error e ignore_errors
                      >> dispatch_callbacks run ignore_errors fuel list (position + 1))
                    n'
            ]
      ]

  -- The callbacks of a message's ID, if it has a list.
  unfoldable pub dispatch_subscribers :
      (ℕ → Action (Network W) (Unit {0})) → ℕ → ℕ → Action (Network W) (Unit {0})
  dispatch_subscribers run fuel can_id n = elim (lookup can_id n.subscribers) [
    | none ↦ (ok tt, n)
    | some list ↦ dispatch_callbacks run none fuel list 0 n
  ]

  -- `notify`
  unfoldable pub notify :
      (ℕ → ℕ → Bytes → ℕ → Action (Network W) (Unit {0}))
      → ℕ
      → ℕ
      → Bytes
      → ℕ
      → Action (Network W) (Unit {0})
  notify run fuel can_id payload timestamp = do
    dispatch_subscribers (λ c. run c can_id payload timestamp) fuel can_id
    modify (λ n. record n { nodes = scan_message can_id n.nodes })

  -- `check`: the exceptions are taken out, and one of them is raised. An ExceptionGroup stands as
  -- `runtime_error`; the notifier's exception is an argument.
  unfoldable pub check : Option Exn → Action (Network W) (Unit {0})
  check notifier n =
      let n' = record n { exceptions = [] } in
      let es = n.exceptions ++ elim notifier [ none ↦ [] | some e ↦ e ∷ [] ] in
      elim es [ [] ↦ (ok tt, n') | e ∷ [] ↦ (err e, n') | e ∷ d ∷ rest ↦ (err runtime_error, n') ]
