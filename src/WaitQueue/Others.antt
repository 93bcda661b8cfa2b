-- ===== src/WaitQueue/Others.antt =====
-- The queues of other objects: two queues have no messenger in common, so that a change of the
-- messengers of one leaves the other.
use viengoos.Common.{ℕ, ◌≡◌, ◌≢◌, sym, ◌∙◌, subst, Bool, true, false, some, List, [], ◌∷◌, All}
use viengoos.WaitQueue.{Waiter, World}
use viengoos.WaitQueue.Chain.{linked, last_or, Chain, IsQueue, Chain-same, Chain-free}

-- From a common messenger on two chains are the same, up to the object.
Chain-meet :
    (w : World) (object o m : ℕ) (first first' : Bool) (before before' : ℕ) (ms os : List ℕ)
    → Chain w object first before (m ∷ ms)
    → Chain w o first' before' (m ∷ os)
    → object ≡ o
Chain-meet w object o m first first' before before' [] [] (at, _) (at', _) =
    let e : some (linked object first before []) ≡ some (linked o first' before' []) =
      sym at ∙ at' in
    cc
Chain-meet w object o m first first' before before' [] (y ∷ ys) (at, _) (at', _) =
    let e : some (linked object first before []) ≡ some (linked o first' before' (y ∷ ys)) =
      sym at ∙ at' in
    cc
Chain-meet w object o m first first' before before' (x ∷ xs) [] (at, _) (at', _) =
    let e : some (linked object first before (x ∷ xs)) ≡ some (linked o first' before' []) =
      sym at ∙ at' in
    cc
Chain-meet w object o m first first' before before' (x ∷ xs) (y ∷ ys) (at, c) (at', c') =
    let e : some (linked object first before (x ∷ xs)) ≡ some (linked o first' before' (y ∷ ys)) =
      sym at ∙ at' in
    let same : y ≡ x = cc in
    Chain-meet w object o x false false m m xs ys c
      (subst (λ z. Chain w o false m (z ∷ ys)) same c')

not-Chain :
    (w : World) (object o m : ℕ) (first first' : Bool) (before before' : ℕ) (ms os : List ℕ)
    → object ≢ o
    → Chain w object first before (m ∷ ms)
    → Chain w o first' before' os
    → All (λ x. m ≢ x) os
not-Chain w object o m first first' before before' ms [] ne c c' = tt
not-Chain w object o m first first' before before' ms (y ∷ ys) ne c c' = (
  λ e. ne (
      Chain-meet w object o m first first' before before' ms ys c
        (subst (λ z. Chain w o first' before' (z ∷ ys)) (sym e) c')),
  not-Chain w object o m first false before y ms ys ne c c'.1,
)

pub Chain-disjoint :
    (w : World) (object o : ℕ) (first first' : Bool) (before before' : ℕ) (ms os : List ℕ)
    → object ≢ o
    → Chain w object first before ms
    → Chain w o first' before' os
    → All (λ m. All (λ x. m ≢ x) os) ms
Chain-disjoint w object o first first' before before' [] os ne c c' = tt
Chain-disjoint w object o first first' before before' (m ∷ ms) os ne c c' = (
  not-Chain w object o m first first' before before' ms os ne c c',
  Chain-disjoint w object o false first' m before' ms os ne c.1 c',
)

-- Only the messengers `ms` are changed.
abbrev pub Keeps : World → World → List ℕ → Type 0
Keeps w w' ms = (x : ℕ) → All (λ m. m ≢ x) ms → w'.messenger x ≡ w.messenger x

-- The fields of all objects but this one are left.
pub record KeepsObjects (w w' : World) (object : ℕ) : Type 0 where
  pub found : (o : ℕ) → w'.found o ≡ w.found o
  pub flag : (o : ℕ) → object ≢ o → w'.wait_queue_p o ≡ w.wait_queue_p o
  pub head : (o : ℕ) → object ≢ o → w'.wait_queue o ≡ w.wait_queue o

-- Every other object has the queue that it had.
abbrev pub Others : World → World → ℕ → Type 0
Others w w' object = (o : ℕ) (os : List ℕ) → object ≢ o → IsQueue w o os → IsQueue w' o os

column :
    (x : ℕ) (xs ms : List ℕ)
    → All (λ m. All (λ y. m ≢ y) (x ∷ xs)) ms
    → All (λ m. m ≢ x) ms × All (λ m. All (λ y. m ≢ y) xs) ms
column x xs [] all = (tt, tt)
column x xs (m ∷ ms) ((ne, nes), all) = let (a, b) = column x xs ms all in ((ne, a), (nes, b))

All-Keeps :
    (w w' : World) (ms os : List ℕ)
    → Keeps w w' ms
    → All (λ m. All (λ y. m ≢ y) os) ms
    → All (λ x. w'.messenger x ≡ w.messenger x) os
All-Keeps w w' ms [] keeps all = tt
All-Keeps w w' ms (x ∷ xs) keeps all =
    let (a, b) = column x xs ms all in (keeps x a, All-Keeps w w' ms xs keeps b)

-- A change of the queue of one object, where the messengers changed are those of its queue, and
-- one that did not wait or is in the queue.
pub Others_lem :
    (w w' : World) (object : ℕ) (changed : List ℕ)
    → Keeps w w' changed
    → KeepsObjects w w' object
    → ((o : ℕ) (os : List ℕ) → object ≢ o → IsQueue w o os → All (λ m. All (λ y. m ≢ y) os) changed)
    → Others w w' object
Others_lem w w' object changed keeps objects apart o [] ne q = objects.flag o ne ∙ q
Others_lem w w' object changed keeps objects apart o (x ∷ xs) ne (p, f, h, d, c) = (
  objects.flag o ne ∙ p,
  objects.found o ∙ f,
  objects.head o ne ∙ h,
  d,
  Chain-same w w' o true (last_or x xs) (x ∷ xs)
      (All-Keeps w w' changed (x ∷ xs) keeps (apart o (x ∷ xs) ne (p, f, h, d, c))) c,
)

-- Where the changed messengers are those of the queue.
pub apart_queue :
    (w : World) (object : ℕ) (ms : List ℕ)
    → IsQueue w object ms
    → (o : ℕ) (os : List ℕ) → object ≢ o
    → IsQueue w o os
    → All (λ m. All (λ y. m ≢ y) os) ms
apart_queue w object [] q o os ne q' = tt
apart_queue w object (m ∷ ms) q o [] ne q' = apart_empty (m ∷ ms)
  where
    apart_empty : (ms : List ℕ) → All (λ m. All (λ y. m ≢ y) []) ms
    apart_empty [] = tt
    apart_empty (x ∷ xs) = (tt, apart_empty xs)
apart_queue w object (m ∷ ms) q o (x ∷ xs) ne q' =
    Chain-disjoint w object o true true (last_or m ms) (last_or x xs) (m ∷ ms) (x ∷ xs) ne q.4 q'.4

-- And one that does not wait.
pub apart_free :
    (w : World) (m : ℕ) (v : Waiter) (o : ℕ) (os : List ℕ)
    → w.messenger m ≡ some v
    → v.wait_queue_p ≡ false
    → IsQueue w o os
    → All (λ y. m ≢ y) os
apart_free w m v o [] e free q = tt
apart_free w m v o (x ∷ xs) e free q = Chain-free w m o v true (last_or x xs) (x ∷ xs) e free q.4
