-- ===== src/WaitQueue/Enqueue.antt =====
-- A messenger is put in front of a queue (object_wait_queue_push) or behind it
-- (object_wait_queue_enqueue).
use mathlib.Core.List.{append-nil}
use viengoos.Common.{
  ℕ, ◌≡◌, ◌≢◌, refl, sym, ◌∙◌, subst, arith, true, false, some, List, [], ◌∷◌, ◌++◌, All,
}
use viengoos.WaitQueue.{
  Waiter, World, store, set_wait_queue_p, set_wait_queue, start_queue, push_before, push,
  enqueue_after, enqueue,
}
use viengoos.WaitQueue.Chain.{
  linked, last_or, alone, before_last, Chain, IsQueue, Chain-free, Chain-head, Chain-store,
  Chain-split, Chain-join, Front-store, Front-cut, Front-last, store_self, store_ne, last_or-append,
  Distinct-snoc,
}
use viengoos.WaitQueue.Ends.{queue_head-first, queue_tail-last}
use viengoos.WaitQueue.Others.{KeepsObjects, Others, Others_lem, apart_queue, apart_free}

-- The object has the queue `ms`, and all other objects have theirs.
pub record Changed (w w' : World) (object : ℕ) (ms : List ℕ) : Type 0 where
  pub queue : IsQueue w' object ms
  pub others : Others w w' object
  pub found : (o : ℕ) → w'.found o ≡ w.found o

-- A messenger that exists and does not wait.
pub record IsFree (w : World) (m : ℕ) : Type 0 where
  pub fields : Waiter
  pub exists : w.messenger m ≡ some fields
  pub free : fields.wait_queue_p ≡ false

start_queue-Changed :
    (w : World) (object m : ℕ)
    → IsFree w m
    → w.found object ≡ true
    → Changed w (start_queue w object m) object (m ∷ [])
unfolding start_queue store set_wait_queue set_wait_queue_p
start_queue-Changed w object m free found = record {
  queue = (ground arith, found, ground arith, (tt, tt), (ground arith, tt));
  others =
      Others_lem w (start_queue w object m) object (m ∷ [])
        (λ x ne. let other = ne.0 in ground arith)
        (record { found = λ o. refl; flag = λ o ne. ground arith; head = λ o ne. ground arith })
        (λ o os ne q. (apart_free w m free.fields o os free.exists free.free q, tt));
  found = λ o. refl;
}

push_before-Changed :
    (w : World) (object m h : ℕ) (rest : List ℕ)
    → IsFree w m
    → IsQueue w object (h ∷ rest)
    → (w' : World) × (push_before w object m (some h) ≡ some w')
      × Changed w w' object (m ∷ h ∷ rest)
unfolding push_before set_wait_queue store
push_before-Changed w object m h rest free q =
    let (p, found, head, (apart, d), c) = q in
    let l = last_or h rest in
    let new = Chain-free w m object free.fields true l (h ∷ rest) free.exists free.free c in
    let w₁ = store w h (linked object false m rest) in
    let w₂ = store w₁ m (linked object true l (h ∷ rest)) in
    let c₁ = Chain-head w h object true false l m rest apart c in
    let c₂ = Chain-store w₁ m _ object false m (h ∷ rest) new c₁ in
    (
      set_wait_queue w₂ object m,
      rw (c.0) refl,
      record {
        queue = (p, found, ground arith, (new, (apart, d)), (store_self w₁ m _, c₂));
        others =
            Others_lem w (set_wait_queue w₂ object m) object (m ∷ h ∷ rest)
              (λ x ne. store_ne w₁ m x _ ne.0 ∙ store_ne w h x _ ne.1.0)
              (record { found = λ o. refl; flag = λ o ne. refl; head = λ o ne. ground arith })
              (λ o os ne q'. (
                apart_free w m free.fields o os free.exists free.free q',
                apart_queue w object (h ∷ rest) q o os ne q',
              ));
        found = λ o. refl;
      },
    )

-- For a messenger that does not wait and an object that is found, object_wait_queue_push passes
-- its asserts, and then the object has the well-formed queue with the messenger in front of
-- those that waited, and the queues of all other objects are as they were.
pub push_cases :
    (w : World) (object m : ℕ) (ms : List ℕ)
    → IsFree w m
    → w.found object ≡ true
    → IsQueue w object ms
    → (w' : World) × (push w object m ≡ some w') × Changed w w' object (m ∷ ms)
unfolding push push_before
push_cases w object m [] free found q = (
  start_queue w object m,
  rw (free.exists, free.free, queue_head-first w object [] q) refl,
  start_queue-Changed w object m free found,
)
push_cases w object m (h ∷ rest) free found q =
    let (w', done, changed) = push_before-Changed w object m h rest free q in
    (w', rw (free.exists, free.free, queue_head-first w object (h ∷ rest) q) done, changed)

-- The world after the messenger `m` was put behind the queue.
abbrev behind : World → ℕ → ℕ → ℕ → List ℕ → World
behind w object m h rest =
    store
      (store (store w h (linked object true m rest)) (last_or h rest)
        (linked object (alone true rest) (before_last m h rest) (m ∷ [])))
      m (linked object false (last_or h rest) [])

behind-KeepsObjects :
    (w : World) (object m h : ℕ) (rest : List ℕ) → KeepsObjects w (behind w object m h rest) object
unfolding store
behind-KeepsObjects w object m h rest = record {
  found = λ o. refl;
  flag = λ o ne. refl;
  head = λ o ne. refl;
}

-- The object's own fields.
abbrev pub Starts : World → ℕ → ℕ → Type 0
Starts w object h =
    (w.wait_queue_p object ≡ true) × (w.found object ≡ true) × (w.wait_queue object ≡ h)

behind_fields :
    (w : World) (object m h : ℕ) (rest : List ℕ)
    → Starts w object h
    → Starts (behind w object m h rest) object h
unfolding store
behind_fields w object m h rest s = s

All-last : (m h : ℕ) (rest : List ℕ) → All (λ x. m ≢ x) (h ∷ rest) → m ≢ last_or h rest
All-last m h [] ne = ne.0
All-last m h (x ∷ xs) ne = All-last m x xs ne.1

All-last_of : (x h : ℕ) (rest : List ℕ) → All (λ m. m ≢ x) (h ∷ rest) → last_or h rest ≢ x
All-last_of x h [] ne = ne.0
All-last_of x h (y ∷ ys) ne = All-last_of x y ys ne.1

enqueue_after-Changed :
    (w : World) (object m h : ℕ) (rest : List ℕ)
    → IsFree w m
    → IsQueue w object (h ∷ rest)
    → (enqueue_after w object m (some (last_or h rest)) ≡ some (behind w object m h rest))
      × Changed w (behind w object m h rest) object (h ∷ rest ++ m ∷ [])
unfolding enqueue_after
enqueue_after-Changed w object m h rest free q =
    let (p, found, head, d, c) = q in
    let l = last_or h rest in
    let new = Chain-free w m object free.fields true l (h ∷ rest) free.exists free.free c in
    let w₁ = store w h (linked object true m rest) in
    let c₁ = Chain-head w h object true true l m rest d.0 c in
    let whole : Chain w₁ object true m (h ∷ rest ++ []) =
      subst (λ ms. Chain w₁ object true m (h ∷ ms)) (sym (append-nil rest)) c₁ in
    let (front, _) = Chain-split w₁ object true m h rest [] whole in
    let cut = Front-cut w₁ object true m h rest [] (m ∷ []) d front in
    let w₂ = store w₁ l (linked object (alone true rest) (before_last m h rest) (m ∷ [])) in
    let last = linked object false l [] in
    let c₃ =
      Chain-join (store w₂ m last) object true m h rest (m ∷ [])
        (Front-store w₂ m last object true m (h ∷ rest) (m ∷ []) new cut)
        (store_self w₂ m last, tt) in
    let fields = behind_fields w object m h rest (p, found, head) in
    (
      rw (queue_head-first w object (h ∷ rest) q, c.0, Front-last w₁ object true m h rest [] front)
          refl,
      record {
        queue = (
          fields.0,
          fields.1,
          fields.2,
          Distinct-snoc m (h ∷ rest) d new,
          subst (λ b. Chain (behind w object m h rest) object true b (h ∷ rest ++ m ∷ []))
              (sym (last_or-append h rest m [])) c₃,
        );
        others =
            Others_lem w (behind w object m h rest) object (m ∷ h ∷ rest)
              (λ x ne.
                store_ne w₂ m x last ne.0
                ∙ store_ne w₁ l x _ (All-last_of x h rest ne.1)
                ∙ store_ne w h x _ ne.1.0)
              (behind-KeepsObjects w object m h rest)
              (λ o os ne q'. (
                apart_free w m free.fields o os free.exists free.free q',
                apart_queue w object (h ∷ rest) q o os ne q',
              ));
        found = (behind-KeepsObjects w object m h rest).found;
      },
    )

-- For a messenger that does not wait and an object that is found, object_wait_queue_enqueue
-- passes its asserts, and then the object has the well-formed queue with the messenger behind
-- those that waited, and the queues of all other objects are as they were.
pub enqueue_cases :
    (w : World) (object m : ℕ) (ms : List ℕ)
    → IsFree w m
    → w.found object ≡ true
    → IsQueue w object ms
    → (w' : World) × (enqueue w object m ≡ some w') × Changed w w' object (ms ++ m ∷ [])
unfolding enqueue enqueue_after
enqueue_cases w object m [] free found q = (
  start_queue w object m,
  rw (free.exists, free.free, queue_tail-last w object [] q) refl,
  start_queue-Changed w object m free found,
)
enqueue_cases w object m (h ∷ rest) free found q =
    let (done, changed) = enqueue_after-Changed w object m h rest free q in
    (
      behind w object m h rest,
      rw (free.exists, free.free, queue_tail-last w object (h ∷ rest) q) done,
      changed,
    )
