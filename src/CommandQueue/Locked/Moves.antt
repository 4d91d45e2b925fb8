-- ===== src/CommandQueue/Locked/Moves.antt =====
-- Every statement of `queue_push`, `queue_pop` and `queue_is_empty` keeps what holds between the
-- threads.
use mogakso.CommandQueue.Locked.Holding.{enter-Keeps, leave-Keeps, set-Keeps}
use mogakso.CommandQueue.Locked.Writes.{own_at, calloc-Keeps, free-Keeps, link-Keeps, unlink-Keeps}
use mogakso.CommandQueue.Locked.{
  Point, outside, pop_locked, pop_empty, pop_first, pop_data, check_locked, Memory, Statement,
  calloc_node, push_lock, link_node, link_fault, move_tail, count_up, push_unlock, pop_lock,
  read_first, read_null, head_fault, null_unlock, read_data, data_fault, unlink, unlink_fault,
  count_down, move_back, pop_unlock, free_node, free_fault, check_lock, read_size, check_unlock,
  unused,
}
use mogakso.CommandQueue.Locked.Invariant.{tail_back, Inside, Keeps}
use mogakso.CommandQueue.Locked.Linking.{tail-ends, head-reads, head-there, first-there}
use mogakso.CommandQueue.Locked.Keeping.{at-Inside}
use mogakso.Common.{ℕ, ◌+◌, ◌-◌, ◌≡◌, refl, sym, ap, subst, ◌≢◌, inl, inr, Option, some}
use mogakso.CommandQueue.Locked.Frame.{put}
use mogakso.CommandQueue.Chain.{IsQueue}
use mogakso.CommandQueue.Nodes.{Ptr, null, Node}

module _ {D : Type 0} where
  -- `queue_pop` reads the dummy's link, and the first node.
  first_read :
      (m : Memory D) (n : Node D)
      → IsQueue m.store m.queue m.cells
      → m.store m.queue.fake_head ≡ some n
      → n.link ≢ null
      → Inside m.store m.queue m.cells (pop_first n.link)
  first_read m n is e ne = elim (head-reads n is.chain e) [
    | inl (z, nil) ↦ absurd (ne z)
    | inr (link, found) ↦ (is, found)
  ]

  null_read :
      (m : Memory D) (n : Node D)
      → IsQueue m.store m.queue m.cells
      → m.store m.queue.fake_head ≡ some n
      → n.link ≡ null
      → Inside m.store m.queue m.cells pop_empty
  null_read m n is e z = elim (head-reads n is.chain e) [
    | inl (link, nil) ↦ (is, nil)
    | inr (ne, found) ↦ absurd (ne z)
  ]

  first_held :
      (m : Memory D) (p : Ptr) (d : Option D)
      → Inside m.store m.queue m.cells (pop_data p d)
      → (next : Ptr) × (m.store p ≡ some (record { item = d; link = next }))
  first_held m p d (is, (ds, cells_eq)) =
      first-there (subst (IsQueue m.store m.queue) cells_eq is).chain

  data_read :
      (m : Memory D) (p : Ptr) (n : Node D)
      → Inside m.store m.queue m.cells (pop_first p)
      → m.store p ≡ some n
      → Inside m.store m.queue m.cells (pop_data p n.item)
  data_read m p n (is, (d, ds, cells_eq)) e =
      let (next, there) = first_held m p d (is, (ds, cells_eq)) in
      let node : n ≡ record { item = d; link = next } = cc in
      subst (λ x. Inside m.store m.queue m.cells (pop_data p x)) (sym (ap (λ x. x.item) node))
        (is, (ds, cells_eq))

  -- A statement of a thread keeps what holds between the threads.
  pub move-Keeps :
      (m : Memory D) (points : ℕ → Point D) (i : ℕ) (p0 : Point D) {m' : Memory D} {p' : Point D}
      → Statement i m p0 m' p'
      → points i ≡ p0
      → Keeps m points
      → Keeps m' (put points i p')
  move-Keeps m points i p0 (calloc_node d fresh ne unused) at inv =
      calloc-Keeps m points i d fresh ne unused at inv
  move-Keeps m points i p0 (push_lock free) at inv =
      enter-Keeps m points i p0 _ at free inv (λ a e. e) (own_at m points i p0 at inv) (λ is. is)
  move-Keeps m points i p0 (link_node {p} {d} n e) at inv = link-Keeps m points i p d n e at inv
  move-Keeps m points i p0 (link_fault e) at inv =
      absurd (cc ((tail-ends m.store m.queue m.cells (at-Inside m points i p0 at refl inv)).1, e))
  move-Keeps m points i p0 (move_tail {p}) at inv =
      set-Keeps m points p m.queue.size i p0 _ at refl inv (λ a e. e) tt
        (at-Inside m points i p0 at refl inv)
  move-Keeps m points i p0 count_up at inv =
      set-Keeps m points m.queue.tail (m.queue.size + 1) i p0 _ at refl inv (λ a e. e) tt
        (at-Inside m points i p0 at refl inv)
  move-Keeps m points i p0 push_unlock at inv =
      leave-Keeps m points i p0 outside at refl refl inv (λ a e. e) tt
        (at-Inside m points i p0 at refl inv)
  move-Keeps m points i p0 (pop_lock free) at inv =
      enter-Keeps m points i p0 pop_locked at free inv (λ a e. e) tt (λ is. is)
  move-Keeps m points i p0 (read_first n e ne) at inv =
      set-Keeps m points m.queue.tail m.queue.size i p0 _ at refl inv (λ a z. z) tt
        (first_read m n (at-Inside m points i p0 at refl inv) e ne)
  move-Keeps m points i p0 (read_null n e z) at inv =
      set-Keeps m points m.queue.tail m.queue.size i p0 pop_empty at refl inv (λ a w. w) tt
        (null_read m n (at-Inside m points i p0 at refl inv) e z)
  move-Keeps m points i p0 (head_fault e) at inv =
      absurd (cc ((head-there (at-Inside m points i p0 at refl inv).chain).1, e))
  move-Keeps m points i p0 null_unlock at inv =
      leave-Keeps m points i p0 outside at refl refl inv (λ a e. e) tt
        (at-Inside m points i p0 at refl inv).0
  move-Keeps m points i p0 (read_data {p} n e) at inv =
      set-Keeps m points m.queue.tail m.queue.size i p0 _ at refl inv (λ a z. z) tt
        (data_read m p n (at-Inside m points i p0 at refl inv) e)
  move-Keeps m points i p0 (data_fault {p} e) at inv =
      let (is, (d, ds, cells_eq)) = at-Inside m points i p0 at refl inv in
      absurd (cc ((first_held m p d (is, (ds, cells_eq))).1, e))
  move-Keeps m points i p0 (unlink {p} {d} h n e f) at inv =
      unlink-Keeps m points i p d h n e f at inv
  move-Keeps m points i p0 (unlink_fault {p} {d} e) at inv =
      let inside = at-Inside m points i p0 at refl inv in
      let (n, head) = head-there inside.0.chain in
      let (next, there) = first_held m p d inside in
      absurd (elim e [ inl gone ↦ cc (head, gone) | inr gone ↦ cc (there, gone) ])
  move-Keeps m points i p0 count_down at inv =
      set-Keeps m points m.queue.tail (m.queue.size - 1) i p0 _ at refl inv (λ a e. e)
        (own_at m points i p0 at inv) (at-Inside m points i p0 at refl inv)
  move-Keeps m points i p0 (move_back {p}) at inv =
      set-Keeps m points (tail_back m.queue p).tail m.queue.size i p0 _ at refl inv (λ a e. e)
        (own_at m points i p0 at inv) (at-Inside m points i p0 at refl inv)
  move-Keeps m points i p0 pop_unlock at inv =
      leave-Keeps m points i p0 _ at refl refl inv (λ a e. e) (own_at m points i p0 at inv)
        (at-Inside m points i p0 at refl inv)
  move-Keeps m points i p0 (free_node {p} {d} n e) at inv = free-Keeps m points i p d at inv
  move-Keeps m points i p0 (free_fault e) at inv = absurd (cc ((own_at m points i p0 at inv).1, e))
  move-Keeps m points i p0 (check_lock free) at inv =
      enter-Keeps m points i p0 check_locked at free inv (λ a e. e) tt (λ is. is)
  move-Keeps m points i p0 read_size at inv =
      set-Keeps m points m.queue.tail m.queue.size i p0 _ at refl inv (λ a e. e) tt
        (at-Inside m points i p0 at refl inv, refl)
  move-Keeps m points i p0 check_unlock at inv =
      leave-Keeps m points i p0 outside at refl refl inv (λ a e. e) tt
        (at-Inside m points i p0 at refl inv).0
