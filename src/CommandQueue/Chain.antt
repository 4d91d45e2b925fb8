-- ===== src/CommandQueue/Chain.antt =====
-- The shape of a queue in the heap: from the dummy node the links lead through distinct nodes to the
-- tail, and the data of the nodes behind the dummy are the contents.
use mogakso.Common.{
  ◌==◌, length, ◌+◌, ◌≡◌, ◌≢◌, Bool, true, false, ◌||◌, Option, none, some, List, [], ◌∷◌, arith,
}
use mogakso.CommandQueue.Nodes.{Ptr, null, Node, Store, write}
use mogakso.CommandQueue.{CommandQueue}

-- Addresses with what the nodes there hold.
abbrev pub Cells : Type 0 → Type 0
Cells D = List (Ptr × Option D)

abbrev pub has : {D : Type 0} → Ptr → Cells D → Bool
has a [] = false
has a ((p, _) ∷ cs) = a == p || has a cs

-- A node at `p` that holds `d`, the nodes `cs` behind it, and the last of them all.
pub data Chain {D : Type 0} (s : Store D) : Ptr → Option D → Cells D → Ptr → Type 0 where
  last :
      {p : Ptr} {d : Option D}
      → p ≢ null
      → s p ≡ some (record { item = d; link = null })
      → Chain s p d [] p
  more :
      {p q l : Ptr} {d e : Option D} {cs : Cells D}
      → p ≢ null
      → s p ≡ some (record { item = d; link = q })
      → has p ((q, e) ∷ cs) ≡ false
      → Chain s q e cs l
      → Chain s p d ((q, e) ∷ cs) l

pub record IsQueue {D : Type 0} (s : Store D) (q : CommandQueue) (cs : Cells D) : Type 0 where
  pub chain : Chain s q.fake_head none cs q.tail
  pub count : q.size ≡ length cs + 1

abbrev pub contents : {D : Type 0} → Cells D → List (Option D)
contents [] = []
contents ((_, d) ∷ cs) = d ∷ contents cs

module _ {D : Type 0} {s : Store D} where
  pub not_null : {p l : Ptr} {d : Option D} {cs : Cells D} → Chain s p d cs l → p ≢ null
  not_null (last ne e) = ne
  not_null (more ne e out c) = ne

  -- The tail is one of the chain's nodes.
  pub has-tail :
      {p l : Ptr} {d : Option D} {cs : Cells D} → Chain s p d cs l → has l ((p, d) ∷ cs) ≡ true
  has-tail (last ne e) = ground arith
  has-tail (more {p} {l} ne e out c) = ground (arith, has-tail c)

  -- A chain survives a write elsewhere.
  pub frame-write :
      {p l : Ptr} {d : Option D} {cs : Cells D} (a : Ptr) (n : Option (Node D))
      → has a ((p, d) ∷ cs) ≡ false
      → Chain s p d cs l
      → Chain (write s a n) p d cs l
  unfolding write
  frame-write a n h (last ne e) = last ne (ground arith)
  frame-write a n h (more ne e out c) =
      more ne (ground arith) out (frame-write a n (ground arith) c)

  -- An unused address is none of the chain's.
  pub unused-has :
      {p l : Ptr} {d : Option D} {cs : Cells D} (a : Ptr)
      → s a ≡ none
      → Chain s p d cs l
      → has a ((p, d) ∷ cs) ≡ false
  unused-has a free (last ne e) = ground arith
  unused-has a free (more ne e out c) = ground (arith, unused-has a free c)
