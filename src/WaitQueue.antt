-- ===== src/WaitQueue.antt =====
-- The queues of messengers that wait on an object: viengoos/object.c, with the fields of
-- viengoos/messenger.h and of the object's folio. Messengers and objects are named by their oids. A
-- failed assert, or an object that is not found where the code wants one, is `none`.
pub mod Chain
pub mod Apart
pub mod Others
pub mod Ends
pub mod Enqueue
pub mod Cut
pub mod Unlink
pub mod Links
mod Tests
use viengoos.Common.{
  ℕ, Bool, true, false, not, Option, none, some, ◌==◌, ◌>>=◌, ◌>>◌, assert, if◌then◌else◌,
}

-- The fields of a messenger by which it is queued.
pub record Waiter : Type 0 where
  pub wait_queue_p : Bool
  pub wait_queue_head : Bool
  pub wait_queue_tail : Bool
  pub next : ℕ
  pub prev : ℕ

-- The messengers; the objects that `object_find` finds; and, for each object, the fields of its
-- folio that say whether messengers wait on it, and which one is the first.
pub record World : Type 0 where
  pub messenger : ℕ → Option Waiter
  pub found : ℕ → Bool
  pub wait_queue_p : ℕ → Bool
  pub wait_queue : ℕ → ℕ

-- A write of a messenger's fields.
unfoldable pub store : World → ℕ → Waiter → World
store w m v = record w { messenger = λ x. if m == x then some v else w.messenger x }

-- folio_object_wait_queue_p_set
unfoldable pub set_wait_queue_p : World → ℕ → Bool → World
set_wait_queue_p w object b = record w {
  wait_queue_p = λ x. if object == x then b else w.wait_queue_p x;
}

-- folio_object_wait_queue_set
unfoldable pub set_wait_queue : World → ℕ → ℕ → World
set_wait_queue w object m = record w { wait_queue = λ x. if object == x then m else w.wait_queue x }

-- object_wait_queue_head; NULL is `some none`
unfoldable pub queue_head : World → ℕ → Option (Option ℕ)
queue_head w object =
    let h = w.wait_queue object in
    let first =
      w.messenger h >>= λ m. assert m.wait_queue_p >> (assert m.wait_queue_head >> some (some h)) in
    if w.wait_queue_p object then first else some none

-- object_wait_queue_tail, once the head is known
unfoldable pub tail_from : World → Option ℕ → Option (Option ℕ)
tail_from w none = some none
tail_from w (some h) = w.messenger h >>= λ m.
    let last = w.messenger m.prev >>= λ t.
    assert t.wait_queue_p >> (assert t.wait_queue_tail >> some (some m.prev)) in
    if m.wait_queue_tail then some (some h) else last

-- object_wait_queue_tail
unfoldable pub queue_tail : World → ℕ → Option (Option ℕ)
unfolding queue_head tail_from
queue_tail w object = queue_head w object >>= tail_from w

-- object_wait_queue_next
unfoldable pub queue_next : World → ℕ → Option (Option ℕ)
queue_next w m = w.messenger m >>= λ me.
    let following = w.messenger me.next >>= λ n.
    assert n.wait_queue_p >> (assert (not n.wait_queue_head) >> some (some me.next)) in
    if me.wait_queue_tail then some none else following

-- object_wait_queue_prev
unfoldable pub queue_prev : World → ℕ → Option (Option ℕ)
queue_prev w m = w.messenger m >>= λ me.
    let preceding = w.messenger me.prev >>= λ p.
    assert p.wait_queue_p >> (assert (not p.wait_queue_tail) >> some (some me.prev)) in
    if me.wait_queue_head then some none else preceding

-- The first messenger on an object.
unfoldable pub start_queue : World → ℕ → ℕ → World
start_queue w object m =
    store (set_wait_queue (set_wait_queue_p w object true) object m) m (record {
      wait_queue_p = true;
      wait_queue_head = true;
      wait_queue_tail = true;
      next = object;
      prev = m;
    })

-- object_wait_queue_push, once the head is known
unfoldable pub push_before : World → ℕ → ℕ → Option ℕ → Option World
push_before w object m none = some (start_queue w object m)
push_before w object m (some oldhead) = w.messenger oldhead >>= λ old.
    assert old.wait_queue_head
    >> some (
        set_wait_queue
          (store (store w oldhead (record old { wait_queue_head = false; prev = m })) m (record {
            wait_queue_p = true;
            wait_queue_head = true;
            wait_queue_tail = false;
            next = oldhead;
            prev = old.prev;
          }))
          object m)

-- object_wait_queue_push
unfoldable pub push : World → ℕ → ℕ → Option World
push w object m = w.messenger m >>= λ me.
    assert (not me.wait_queue_p) >> (queue_head w object >>= push_before w object m)

-- object_wait_queue_enqueue, once the tail is known
unfoldable pub enqueue_after : World → ℕ → ℕ → Option ℕ → Option World
enqueue_after w object m none = some (start_queue w object m)
enqueue_after w object m (some oldtail) = queue_head w object >>= λ h. h >>= λ head.
    w.messenger head >>= λ first.
    let w₁ = store w head (record first { prev = m }) in
    w₁.messenger oldtail >>= λ old.
    assert old.wait_queue_tail
    >> some (
        store (store w₁ oldtail (record old { wait_queue_tail = false; next = m })) m (record {
          wait_queue_p = true;
          wait_queue_head = false;
          wait_queue_tail = true;
          next = object;
          prev = oldtail;
        }))

-- object_wait_queue_enqueue
unfoldable pub enqueue : World → ℕ → ℕ → Option World
enqueue w object m = w.messenger m >>= λ me.
    assert (not me.wait_queue_p) >> (queue_tail w object >>= enqueue_after w object m)

-- The messenger is the only one on the object.
unfoldable pub unlink_only : World → ℕ → ℕ → Waiter → Option World
unlink_only w object m me =
    w.messenger me.prev >>= λ p. assert (me.prev == m) >> some (set_wait_queue_p w object false)

-- The messenger is the last one on the object, and not the first.
unfoldable pub unlink_last : World → ℕ → ℕ → Waiter → Option World
unlink_last w object m me = queue_head w object >>= λ h. h >>= λ head. w.messenger head >>= λ first.
    assert (first.prev == m)
    >> (let w₁ = store w head (record first { prev = me.prev }) in
        w₁.messenger me.prev >>= λ p.
        some (store w₁ me.prev (record p { wait_queue_tail = true; next = me.next })))

-- The messenger is a tail.
unfoldable pub unlink_tail : World → ℕ → Waiter → Option World
unfolding unlink_only unlink_last
unlink_tail w m me =
    let object = me.next in
    assert (w.found object)
    >> (assert (w.wait_queue_p object)
        >> (queue_tail w object >>= λ t. t >>= λ tail.
            assert (tail == m)
            >> (if me.wait_queue_head
                then unlink_only w object m me
                else unlink_last w object m me)))

-- The messenger is the first one on the object, and not the last.
unfoldable pub unlink_first : World → ℕ → ℕ → Waiter → Waiter → Option World
unlink_first w m n me last =
    let object = last.next in
    assert (w.found object)
    >> (queue_head w object >>= λ h. h >>= λ head.
        assert (head == m)
        >> (w.messenger n >>= λ following. some (
            store (set_wait_queue w object me.next) n
              (record following { wait_queue_head = true; prev = me.prev }))))

-- The messenger is neither the first nor the last one.
unfoldable pub unlink_middle : World → ℕ → ℕ → Waiter → Waiter → Option World
unlink_middle w m n me before =
    let w₁ = store w me.prev (record before { next = me.next }) in
    w₁.messenger n >>= λ following. some (store w₁ n (record following { prev = me.prev }))

-- The messenger is not a tail.
unfoldable pub unlink_inner : World → ℕ → Waiter → Option World
unfolding unlink_first unlink_middle
unlink_inner w m me = queue_next w m >>= λ following. following >>= λ n.
    w.messenger me.prev >>= λ p.
    if me.wait_queue_head then unlink_first w m n me p else unlink_middle w m n me p

-- object_wait_queue_unlink
unfoldable pub unlink : World → ℕ → Option World
unfolding unlink_tail unlink_inner
unlink w m = w.messenger m >>= λ me.
    assert me.wait_queue_p
    >> ((if me.wait_queue_tail then unlink_tail w m me else unlink_inner w m me) >>= λ w'.
        w'.messenger m >>= λ left. some (store w' m (record left { wait_queue_p = false })))
