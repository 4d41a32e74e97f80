-- ===== src/Queue.antt =====
-- core/simple_queue.go: a linked queue under one mutex, with a condition variable. An item lives in
-- a heap, the list `items`; a pointer is an index and nil is `none`. New items are put at the end.
pub mod Refinement
pub mod Waiting
mod Tests
use truenas_incus_ctl.Base.{
  ℕ, Bool, true, false, List, [], ◌∷◌, ◌++◌, Option, none, some, length, get_elem?, zero, suc,
}

pub record QueueItem (T : Type 0) : Type 0 where
  pub value : T
  pub next : Option ℕ

pub record SimpleQueue (T : Type 0) : Type 0 where
  pub items : List (QueueItem T)
  pub head : Option ℕ
  pub tail : Option ℕ

module _ {T : Type 0} where
  pub make_simple_queue : SimpleQueue T
  make_simple_queue = record { items = []; head = none; tail = none }

  -- `q.tail.next = newItem`
  pub set_next : List (QueueItem T) → ℕ → ℕ → List (QueueItem T)
  set_next [] t new = []
  set_next (x ∷ xs) zero new = record x { next = some new } ∷ xs
  set_next (x ∷ xs) (suc t) new = x ∷ set_next xs t new

  pub link_tail : List (QueueItem T) → Option ℕ → ℕ → List (QueueItem T)
  unfolding set_next
  link_tail items none new = items
  link_tail items (some t) new = set_next items t new

  -- The flag says whether the condition variable is broadcast.
  pub add : SimpleQueue T → T → SimpleQueue T × Bool
  unfolding link_tail
  add q elem =
      let new = length q.items in
      let items = link_tail q.items q.tail new ++ record { value = elem; next = none } ∷ [] in
      elim q.head [
        | none ↦ (record { items = items; head = some new; tail = some new }, true)
        | some h ↦ (record { items = items; head = some h; tail = some new }, false)
      ]

  -- `item := q.head; q.head = q.head.next`; a pointer that leads nowhere would be a fault.
  pub advance : SimpleQueue T → Option (QueueItem T) → Option T × SimpleQueue T
  advance q none = (none, q)
  advance q (some item) = (some item.value, record q { head = item.next })

  -- The two results `value, ok` are an `Option`.
  pub poll : SimpleQueue T → Option T × SimpleQueue T
  unfolding advance
  poll q = elim q.head [ none ↦ (none, q) | some h ↦ advance q (get_elem? q.items h) ]

  -- One round of the loop in `Take` that waits: `none` when the head is nil and the thread sleeps.
  pub take : SimpleQueue T → Option (T × SimpleQueue T)
  unfolding advance
  take q = elim q.head [
    | none ↦ none
    | some h ↦ elim (get_elem? q.items h) [
      | none ↦ none
      | some item ↦ some (item.value, record q { head = item.next })
    ]
  ]
