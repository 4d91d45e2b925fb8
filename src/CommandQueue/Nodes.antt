-- ===== src/CommandQueue/Nodes.antt =====
-- The heap of queue nodes.
use mogakso.Common.{
  ◌==◌, if◌then◌else◌, eq→==, ne→==_false, Run, done, fault, ℕ, ◌≡◌, refl, ◌≢◌, Option, none, some,
}

abbrev pub Ptr : Type 0
Ptr = ℕ

abbrev pub null : Ptr
null = 0

-- `queue_node_t`: its data and its successor.
pub record Node (D : Type 0) : Type 0 where
  pub item : Option D
  pub link : Ptr

abbrev pub Store : Type 0 → Type 0
Store D = Ptr → Option (Node D)

unfoldable pub write : {D : Type 0} → Store D → Ptr → Option (Node D) → Store D
write s p c a = if a == p then c else s a

-- Reading a node: a fault where there is none.
unfoldable pub load : {D : Type 0} → Store D → Ptr → Run (Node D)
load s p = elim (s p) [ none ↦ fault | some n ↦ done n ]

module _ {D : Type 0} where
  pub load-holds : (s : Store D) (p : Ptr) (n : Node D) → s p ≡ some n → load s p ≡ done n
  unfolding load
  load-holds s p n e = rw (e, load)

  pub write-same : (s : Store D) (p : Ptr) (c : Option (Node D)) → write s p c p ≡ c
  unfolding write
  write-same s p c = rw (eq→== p p refl)

  pub write-other :
      (s : Store D) (p : Ptr) (c : Option (Node D)) (a : Ptr) → a ≢ p → write s p c a ≡ s a
  unfolding write
  write-other s p c a ne = rw (ne→==_false a p ne)
