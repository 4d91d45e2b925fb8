-- ===== src/CommandQueue/Locked.antt =====
-- The statements of `queue_push`, `queue_pop` and `queue_is_empty` of
-- C_chat_lib/common/src/command_queue.c, one at a time, in any number of threads that share a queue.
--
-- A thread stands before the statement that its point names; a point carries the local variables
-- that are live there. A `calloc` that fails ends `queue_push` at once and is no step.
pub mod Invariant
pub mod Frame
pub mod Keeping
pub mod Linking
pub mod Writes
pub mod Holding
pub mod Moves
pub mod Linear
use mogakso.CommandQueue.Chain.{Cells, IsQueue}
use mogakso.CommandQueue.{CommandQueue}
use mogakso.Common.{
  ◌==◌, if◌then◌else◌, ℕ, ◌+◌, ◌-◌, ◌≡◌, ◌≢◌, ◌⊎◌, Bool, Option, none, some, List, [], ◌∷◌, ◌++◌,
}
use mogakso.CommandQueue.Nodes.{Ptr, null, Node, Store, write}

pub data Point (D : Type 0) : Type 0 where
  outside : Point D
  filled : (new_node : Ptr) (d : Option D) → Point D  -- the mutex is not held yet
  push_locked push_linked push_moved push_counted : (new_node : Ptr) (d : Option D) → Point D
  pop_locked pop_empty : Point D
  pop_first : (first_node : Ptr) → Point D
  pop_data pop_unlinked pop_counted pop_moved : (first_node : Ptr) (d : Option D) → Point D
  pop_unlocked : (first_node : Ptr) (d : Option D) → Point D  -- before `free`
  check_locked : Point D
  checked : (empty : Bool) → Point D
  crashed : Point D  -- a node was used that is not there

-- The heap, the queue and its mutex. `cells` lists the nodes behind the dummy, `pushed` and `popped`
-- the data in the order in which they were linked and unlinked; no statement reads these three.
pub record Memory (D : Type 0) : Type 0 where
  pub store : Store D
  pub queue : CommandQueue
  pub owner : Option ℕ
  pub cells : Cells D
  pub pushed : List (Option D)
  pub popped : List (Option D)

pub record Users (D : Type 0) : Type 0 where
  pub mem : Memory D
  pub points : ℕ → Point D

module _ {D : Type 0} where
  abbrev pub behind : Cells D → Cells D
  behind [] = []
  behind (_ ∷ cs) = cs

  -- The dummy and the nodes behind it.
  abbrev pub whole : Memory D → Cells D
  whole m = (m.queue.fake_head, none) ∷ m.cells

  -- A statement of thread `i`.
  pub data Statement (i : ℕ) (m : Memory D) : Point D → Memory D → Point D → Type 0 where
    calloc_node :
        (d : Option D) (fresh : Ptr)
        → fresh ≢ null
        → m.store fresh ≡ none
        → Statement i m outside
            (record m { store = write m.store fresh (some (record { item = d; link = null })) })
            (filled fresh d)
    push_lock :
        {p : Ptr} {d : Option D}
        → m.owner ≡ none
        → Statement i m (filled p d) (record m { owner = some i }) (push_locked p d)
    link_node :
        {p : Ptr} {d : Option D} (n : Node D)
        → m.store m.queue.tail ≡ some n
        → Statement i m
            (push_locked p d)
            (record m {
              store = write m.store m.queue.tail (some (record n { link = p }));
              cells = m.cells ++ (p, d) ∷ [];
              pushed = m.pushed ++ d ∷ [];
            })
            (push_linked p d)
    link_fault :
        {p : Ptr} {d : Option D}
        → m.store m.queue.tail ≡ none
        → Statement i m (push_locked p d) m crashed
    move_tail :
        {p : Ptr} {d : Option D}
        → Statement i m
            (push_linked p d)
            (record m { queue = record m.queue { tail = p } })
            (push_moved p d)
    count_up :
        {p : Ptr} {d : Option D}
        → Statement i m
            (push_moved p d)
            (record m { queue = record m.queue { size = m.queue.size + 1 } })
            (push_counted p d)
    push_unlock :
        {p : Ptr} {d : Option D}
        → Statement i m (push_counted p d) (record m { owner = none }) outside
    pop_lock : m.owner ≡ none → Statement i m outside (record m { owner = some i }) pop_locked
    read_first :
        (n : Node D)
        → m.store m.queue.fake_head ≡ some n
        → n.link ≢ null
        → Statement i m pop_locked m (pop_first n.link)
    read_null :
        (n : Node D)
        → m.store m.queue.fake_head ≡ some n
        → n.link ≡ null
        → Statement i m pop_locked m pop_empty
    head_fault : m.store m.queue.fake_head ≡ none → Statement i m pop_locked m crashed
    null_unlock : Statement i m pop_empty (record m { owner = none }) outside
    read_data :
        {p : Ptr} (n : Node D)
        → m.store p ≡ some n
        → Statement i m (pop_first p) m (pop_data p n.item)
    data_fault : {p : Ptr} → m.store p ≡ none → Statement i m (pop_first p) m crashed
    unlink :
        {p : Ptr} {d : Option D} (h n : Node D)
        → m.store m.queue.fake_head ≡ some h
        → m.store p ≡ some n
        → Statement i m
            (pop_data p d)
            (record m {
              store = write m.store m.queue.fake_head (some (record h { link = n.link }));
              cells = behind m.cells;
              popped = m.popped ++ d ∷ [];
            })
            (pop_unlinked p d)
    unlink_fault :
        {p : Ptr} {d : Option D}
        → (m.store m.queue.fake_head ≡ none) ⊎ (m.store p ≡ none)
        → Statement i m (pop_data p d) m crashed
    count_down :
        {p : Ptr} {d : Option D}
        → Statement i m
            (pop_unlinked p d)
            (record m { queue = record m.queue { size = m.queue.size - 1 } })
            (pop_counted p d)
    move_back :
        {p : Ptr} {d : Option D}
        → Statement i m
            (pop_counted p d)
            (record m {
              queue = record m.queue {
                tail = if m.queue.tail == p then m.queue.fake_head else m.queue.tail;
              };
            })
            (pop_moved p d)
    pop_unlock :
        {p : Ptr} {d : Option D}
        → Statement i m (pop_moved p d) (record m { owner = none }) (pop_unlocked p d)
    free_node :
        {p : Ptr} {d : Option D} (n : Node D)
        → m.store p ≡ some n
        → Statement i m (pop_unlocked p d) (record m { store = write m.store p none }) outside
    free_fault :
        {p : Ptr} {d : Option D} → m.store p ≡ none → Statement i m (pop_unlocked p d) m crashed
    check_lock : m.owner ≡ none → Statement i m outside (record m { owner = some i }) check_locked
    read_size : Statement i m check_locked m (checked (m.queue.size == 1))
    check_unlock :
        {empty : Bool} → Statement i m (checked empty) (record m { owner = none }) outside

  pub data Act (s : Users D) : Users D → Type 0 where
    by_thread :
        (i : ℕ) {m : Memory D} {p : Point D}
        → Statement i s.mem (s.points i) m p
        → Act s (record { mem = m; points = λ j. if i == j then p else s.points j })

  -- A queue without contents, that no thread uses yet.
  abbrev pub unused : Store D → CommandQueue → Users D
  unused s q = record {
    mem = record { store = s; queue = q; owner = none; cells = []; pushed = []; popped = [] };
    points = λ i. outside;
  }

  pub data Reachable (s : Store D) (q : CommandQueue) : Users D → Type 0 where
    unshared : IsQueue s q [] → Reachable s q (unused s q)
    and_then : {t u : Users D} → Reachable s q t → Act t u → Reachable s q u
