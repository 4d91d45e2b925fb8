-- ===== src/CommandQueue/Locked/Holding.antt =====
-- Taking the mutex, giving it back, and writing the queue's fields in between.
use mogakso.CommandQueue.Locked.Writes.{plain-Touches}
use mogakso.CommandQueue.Locked.Invariant.{owned, OwnsNode, holds, Inside, Keeps}
use mogakso.CommandQueue.Locked.Keeping.{hold-Keeps, unlock-Keeps, lock-Keeps}
use mogakso.Common.{ℕ, ◌≡◌, refl, true, false, none, some}
use mogakso.CommandQueue.Locked.Frame.{put}
use mogakso.CommandQueue.Locked.{Point, Memory, whole}
use mogakso.CommandQueue.Chain.{IsQueue}
use mogakso.CommandQueue.Nodes.{Ptr}

module _ {D : Type 0} where
  -- The thread takes the mutex.
  pub enter-Keeps :
      (m : Memory D) (points : ℕ → Point D) (i : ℕ) (p0 p' : Point D)
      → points i ≡ p0
      → m.owner ≡ none
      → Keeps m points
      → ((a : Ptr) → owned p' ≡ some a → owned p0 ≡ some a)
      → OwnsNode m.store (whole m) p'
      → (IsQueue m.store m.queue m.cells → Inside m.store m.queue m.cells p')
      → Keeps (record m { owner = some i }) (put points i p')
  enter-Keeps m points i p0 p' at free inv less own enter =
      lock-Keeps m points i p0 p' at free inv
        (plain-Touches m points m.queue.tail m.queue.size (some i) p0 p' inv less own) enter

  -- It gives the mutex back.
  pub leave-Keeps :
      (m : Memory D) (points : ℕ → Point D) (i : ℕ) (p0 p' : Point D)
      → points i ≡ p0
      → holds p0 ≡ true
      → holds p' ≡ false
      → Keeps m points
      → ((a : Ptr) → owned p' ≡ some a → owned p0 ≡ some a)
      → OwnsNode m.store (whole m) p'
      → IsQueue m.store m.queue m.cells
      → Keeps (record m { owner = none }) (put points i p')
  leave-Keeps m points i p0 p' at h h' inv less own is =
      unlock-Keeps m points i p0 p' at h h' inv
        (plain-Touches m points m.queue.tail m.queue.size none p0 p' inv less own) is

  -- Holding the mutex, it writes the tail and the size, or reads.
  pub set-Keeps :
      (m : Memory D) (points : ℕ → Point D) (tail : Ptr) (size i : ℕ) (p0 p' : Point D)
      → points i ≡ p0
      → holds p0 ≡ true
      → Keeps m points
      → ((a : Ptr) → owned p' ≡ some a → owned p0 ≡ some a)
      → OwnsNode m.store (whole m) p'
      → Inside m.store (record m.queue { tail = tail; size = size }) m.cells p'
      → Keeps (record m { queue = record m.queue { tail = tail; size = size } }) (put points i p')
  set-Keeps m points tail size i p0 p' at h inv less own inside =
      hold-Keeps m (record m { queue = record m.queue { tail = tail; size = size } }) points i p0 p'
        at h refl inv (plain-Touches m points tail size m.owner p0 p' inv less own) inside
