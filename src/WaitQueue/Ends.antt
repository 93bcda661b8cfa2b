-- ===== src/WaitQueue/Ends.antt =====
-- The ends of a queue, as object_wait_queue_head and object_wait_queue_tail give them.
use viengoos.Common.{ℕ, ◌≡◌, refl, Bool, true, false, Option, none, some, List, [], ◌∷◌, ◌++◌}
use viengoos.WaitQueue.{World, queue_head, tail_from, queue_tail, queue_next}
use viengoos.WaitQueue.Chain.{linked, last_or, before_last, alone, Chain, IsQueue}

abbrev pub first_of : List ℕ → Option ℕ
first_of [] = none
first_of (m ∷ ms) = some m

abbrev pub last_of : List ℕ → Option ℕ
last_of [] = none
last_of (m ∷ ms) = some (last_or m ms)

pub queue_head-first :
    (w : World) (object : ℕ) (ms : List ℕ)
    → IsQueue w object ms
    → queue_head w object ≡ some (first_of ms)
unfolding queue_head
queue_head-first w object [] q = rw q refl
queue_head-first w object (m ∷ ms) (p, f, h, d, (at, c)) = rw (p, h, at) refl

-- The last messenger of a chain of two or more.
pub Chain-last :
    (w : World) (object : ℕ) (first : Bool) (before x : ℕ) (xs : List ℕ)
    → Chain w object first before (x ∷ xs)
    → w.messenger (last_or x xs)
      ≡ some (linked object (alone first xs) (before_last before x xs) [])
Chain-last w object first before x [] c = c.0
Chain-last w object first before x (y ∷ []) c = c.1.0
Chain-last w object first before x (y ∷ z ∷ zs) c = Chain-last w object false x y (z ∷ zs) c.1

pub queue_tail-last :
    (w : World) (object : ℕ) (ms : List ℕ)
    → IsQueue w object ms
    → queue_tail w object ≡ some (last_of ms)
unfolding queue_tail tail_from
queue_tail-last w object [] q = rw (queue_head-first w object [] q) refl
queue_tail-last w object (m ∷ []) q = rw (queue_head-first w object (m ∷ []) q, q.4.0) refl
queue_tail-last w object (m ∷ x ∷ xs) q =
    rw
      (
        queue_head-first w object (m ∷ x ∷ xs) q,
        q.4.0,
        Chain-last w object true (last_or x xs) m (x ∷ xs) q.4,
      )
      refl

-- object_wait_queue_next of a messenger that has one behind it.
pub queue_next-linked :
    (w : World) (object m : ℕ) (first : Bool) (before b : ℕ) (bs : List ℕ)
    → Chain w object first before (m ∷ b ∷ bs)
    → queue_next w m ≡ some (some b)
unfolding queue_next
queue_next-linked w object m first before b bs (at, (at', c)) = rw (at, at') refl

-- What is behind a messenger anywhere in a queue.
Chain-behind :
    (w : World) (object m : ℕ) (first : Bool) (before : ℕ) (ks ms : List ℕ)
    → Chain w object first before (ks ++ m ∷ ms)
    → (first' : Bool) × (before' : ℕ) × Chain w object first' before' (m ∷ ms)
Chain-behind w object m first before [] ms c = (first, before, c)
Chain-behind w object m first before (x ∷ xs) ms (_, c) = Chain-behind w object m false x xs ms c

Chain-next :
    (w : World) (object m : ℕ) (first : Bool) (before : ℕ) (ms : List ℕ)
    → Chain w object first before (m ∷ ms)
    → queue_next w m ≡ some (first_of ms)
unfolding queue_next
Chain-next w object m first before [] (at, _) = rw at refl
Chain-next w object m first before (b ∷ bs) c = queue_next-linked w object m first before b bs c

-- object_wait_queue_next gives the messenger that follows, or NULL.
pub queue_next-first :
    (w : World) (object m : ℕ) (ks ms : List ℕ)
    → IsQueue w object (ks ++ m ∷ ms)
    → queue_next w m ≡ some (first_of ms)
queue_next-first w object m [] ms q = Chain-next w object m true (last_or m ms) ms q.4
queue_next-first w object m (x ∷ xs) ms q =
    let (first, before, c) =
      Chain-behind w object m true (last_or x (xs ++ m ∷ ms)) (x ∷ xs) ms q.4 in
    Chain-next w object m first before ms c
