-- ===== src/WaitQueue/Unlink.antt =====
-- A messenger is taken out of its queue (object_wait_queue_unlink).
use mathlib.Core.List.{append-nil}
use viengoos.Common.{
  ℕ, ◌≡◌, ◌≢◌, refl, sym, ap, ◌∙◌, arith, true, false, some, List, [], ◌∷◌, ◌++◌, ◌==◌,
}
use viengoos.WaitQueue.Apart.{All-split, All-last, Distinct-join, Apart-head, Apart-last}
use viengoos.WaitQueue.Chain.{
  linked, last_or, alone, before_last, IsQueue, Chain-head, Chain-store, Chain-split, Chain-join,
  Front-store, Front-cut, Front-last, store_self, store_ne, last_or-append,
}
use viengoos.WaitQueue.Cut.{Cut-IsQueue, Keeps-cut, stores-KeepsObjects, joined-IsQueue}
use viengoos.WaitQueue.Ends.{queue_head-first, queue_tail-last, queue_next-linked, Chain-last}
use viengoos.WaitQueue.Enqueue.{Changed, IsFree}
use viengoos.WaitQueue.Others.{Others_lem, apart_queue}
use viengoos.WaitQueue.{
  Waiter, World, store, set_wait_queue_p, set_wait_queue, unlink_only, unlink_last, unlink_first,
  unlink_middle, unlink_tail, unlink_inner, unlink,
}

same_true : (m : ℕ) → (m == m) ≡ true
same_true m = ground arith

-- The messenger as it is left.
abbrev pub idle : Waiter → Waiter
idle v = record v { wait_queue_p = false }

-- The messenger no longer waits; its other fields are as they were.
pub record Left (w w' : World) (m : ℕ) : Type 0 where
  pub fields : Waiter
  pub before : w.messenger m ≡ some fields
  pub after : w'.messenger m ≡ some (idle fields)

-- The end of object_wait_queue_unlink, once the neighbours are linked.
abbrev pub Unlinked : World → ℕ → ℕ → List ℕ → Type 0
Unlinked w m object ms =
    (w' : World) × (unlink w m ≡ some w') × Changed w w' object ms × Left w w' m

idle-Left :
    (w w₁ : World) (m : ℕ) (v : Waiter) → w.messenger m ≡ some v → Left w (store w₁ m (idle v)) m
idle-Left w w₁ m v e = record { fields = v; before = e; after = store_self w₁ m (idle v) }

pub Left-IsFree : (w w' : World) (m : ℕ) → Left w w' m → IsFree w' m
Left-IsFree w w' m l = record { fields = idle l.fields; exists = l.after; free = refl }

from_tail :
    (w w₁ : World) (m : ℕ) (v u : Waiter)
    → w.messenger m ≡ some v
    → v.wait_queue_p ≡ true
    → v.wait_queue_tail ≡ true
    → unlink_tail w m v ≡ some w₁
    → w₁.messenger m ≡ some u
    → unlink w m ≡ some (store w₁ m (idle u))
unfolding unlink
from_tail w w₁ m v u e p t run left = rw (e, p, t, run, left) refl

from_inner :
    (w w₁ : World) (m : ℕ) (v u : Waiter)
    → w.messenger m ≡ some v
    → v.wait_queue_p ≡ true
    → v.wait_queue_tail ≡ false
    → unlink_inner w m v ≡ some w₁
    → w₁.messenger m ≡ some u
    → unlink w m ≡ some (store w₁ m (idle u))
unfolding unlink
from_inner w w₁ m v u e p t run left = rw (e, p, t, run, left) refl

unlink_alone : (w : World) (object m : ℕ) → IsQueue w object (m ∷ []) → Unlinked w m object []
unfolding unlink_tail unlink_only set_wait_queue_p store
unlink_alone w object m q =
    let (p, found, head, d, (at, _)) = q in
    let v = linked object true m [] in
    let w₁ = set_wait_queue_p w object false in
    (
      store w₁ m (idle v),
      from_tail w w₁ m v v at refl refl
          (rw (found, p, queue_tail-last w object (m ∷ []) q, same_true m, at) refl) at,
      record {
        queue = ground arith;
        others =
            Others_lem w (store w₁ m (idle v)) object (m ∷ [])
              (λ x ne. store_ne w₁ m x (idle v) ne.0)
              (record { found = λ o. refl; flag = λ o ne. ground arith; head = λ o ne. refl })
              (apart_queue w object (m ∷ []) q);
        found = λ o. refl;
      },
      idle-Left w w₁ m v at,
    )

unlink_head :
    (w : World) (object m b : ℕ) (bs : List ℕ)
    → IsQueue w object (m ∷ b ∷ bs)
    → Unlinked w m object (b ∷ bs)
unfolding unlink_inner unlink_first set_wait_queue store
unlink_head w object m b bs q =
    let (p, found, head, (ne, d), (at, c)) = q in
    let l = last_or b bs in
    let v = linked object true l (b ∷ bs) in
    let w₁ = set_wait_queue w object b in
    let w₂ = store w₁ b (linked object true l bs) in
    let w₃ = store w₂ m (idle v) in
    let c₂ = Chain-head w₁ b object false true m l bs d.0 c in
    (
      w₃,
      from_inner w w₂ m v v at refl refl
          (rw
            (
              queue_next-linked w object m true l b bs (at, c),
              Chain-last w object false m b bs c,
              found,
              queue_head-first w object (m ∷ b ∷ bs) q,
              same_true m,
              c.0,
            )
            refl)
          (store_ne w₁ b m _ (λ e. ne.0 (sym e)) ∙ at),
      record {
        queue = (p, found, ground arith, d, Chain-store w₂ m (idle v) object true l (b ∷ bs) ne c₂);
        others =
            Others_lem w w₃ object (m ∷ b ∷ bs)
              (λ x other. store_ne w₂ m x (idle v) other.0 ∙ store_ne w₁ b x _ other.1.0)
              (record { found = λ o. refl; flag = λ o ne. refl; head = λ o ne. ground arith })
              (apart_queue w object (m ∷ b ∷ bs) q);
        found = λ o. refl;
      },
      idle-Left w w₂ m v at,
    )

unlink_between :
    (w : World) (object x : ℕ) (xs : List ℕ) (m b : ℕ) (bs : List ℕ)
    → IsQueue w object (x ∷ xs ++ m ∷ b ∷ bs)
    → Unlinked w m object (x ∷ xs ++ b ∷ bs)
unfolding unlink_inner unlink_middle
unlink_between w object x xs m b bs q =
    let cut = Cut-IsQueue w object x xs m (b ∷ bs) q in
    let l = last_or x xs in
    let v = linked object false l (b ∷ bs) in
    let joined = linked object (alone true xs) (before_last cut.before x xs) (b ∷ bs) in
    let w₁ = store w l joined in
    let w₂ = store w₁ b (linked object false l bs) in
    let w₃ = store w₂ m (idle v) in
    let l_back = Apart-last x xs (b ∷ bs) cut.apart in
    let l_m : l ≢ m = λ e. All-last (λ z. m ≢ z) x xs cut.not_front (sym e) in
    let (b_front, _) = Apart-head (x ∷ xs) b bs cut.apart in
    let front₁ =
      Front-cut w object true cut.before x xs (m ∷ b ∷ bs) (b ∷ bs) cut.distinct_front cut.front in
    let front₂ =
      Front-store w₁ b (linked object false l bs) object true cut.before (x ∷ xs) (b ∷ bs) b_front
        front₁ in
    let front₃ =
      Front-store w₂ m (idle v) object true cut.before (x ∷ xs) (b ∷ bs) cut.not_front front₂ in
    let back₁ = Chain-store w l joined object false m (b ∷ bs) l_back cut.back in
    let back₂ = Chain-head w₁ b object false false m l bs cut.distinct_back.0 back₁ in
    let back₃ = Chain-store w₂ m (idle v) object false l (b ∷ bs) cut.not_back back₂ in
    let whole = Chain-join w₃ object true cut.before x xs (b ∷ bs) front₃ back₃ in
    (
      w₃,
      from_inner w w₂ m v v cut.at refl refl
          (rw
            (
              queue_next-linked w object m false l b bs (cut.at, cut.back),
              Front-last w object true cut.before x xs (m ∷ b ∷ bs) cut.front,
              store_ne w l b joined l_back.0,
              cut.back.0,
            )
            refl)
          (store_ne w₁ b m _ (λ e. cut.not_back.0 (sym e)) ∙ store_ne w l m joined l_m ∙ cut.at),
      record {
        queue =
            joined-IsQueue w object x xs (b ∷ bs) l b m cut.before joined (linked object false l bs)
              (idle v) (q.0, q.1, q.2)
              (Distinct-join (x ∷ xs) (b ∷ bs) cut.distinct_front cut.distinct_back cut.apart)
              (cut.ends ∙ sym (last_or-append x xs b bs)) whole;
        others =
            Others_lem w w₃ object (x ∷ xs ++ m ∷ b ∷ bs)
              (Keeps-cut w x xs m b bs joined (linked object false l bs) (idle v))
              (stores-KeepsObjects w object l b m joined (linked object false l bs) (idle v))
              (apart_queue w object (x ∷ xs ++ m ∷ b ∷ bs) q);
        found =
            (stores-KeepsObjects w object l b m joined (linked object false l bs) (idle v)).found;
      },
      idle-Left w w₂ m v cut.at,
    )

unlink_end :
    (w : World) (object x : ℕ) (xs : List ℕ) (m : ℕ)
    → IsQueue w object (x ∷ xs ++ m ∷ [])
    → Unlinked w m object (x ∷ xs ++ [])
unfolding unlink_tail unlink_last
unlink_end w object x xs m q =
    let cut = Cut-IsQueue w object x xs m [] q in
    let l = last_or x xs in
    let v = linked object false l [] in
    let (_, _, _, (x_rest, _), c) = q in
    let first = linked object true l (xs ++ m ∷ []) in
    let w₁ = store w x first in
    let c₁ = Chain-head w x object true true (last_or x (xs ++ m ∷ [])) l (xs ++ m ∷ []) x_rest c in
    let (front₁, _) = Chain-split w₁ object true l x xs (m ∷ []) c₁ in
    let ended = linked object (alone true xs) (before_last l x xs) [] in
    let w₂ = store w₁ l ended in
    let w₃ = store w₂ m (idle v) in
    let front₂ = Front-cut w₁ object true l x xs (m ∷ []) [] cut.distinct_front front₁ in
    let front₃ = Front-store w₂ m (idle v) object true l (x ∷ xs) [] cut.not_front front₂ in
    let whole = Chain-join w₃ object true l x xs [] front₃ tt in
    let l_m : l ≢ m = λ e. All-last (λ z. m ≢ z) x xs cut.not_front (sym e) in
    let m_last : last_or x (xs ++ m ∷ []) ≡ m = last_or-append x xs m [] in
    (
      w₃,
      from_tail w w₂ m v v cut.at refl refl
          (rw
            (
              q.1,
              q.0,
              queue_tail-last w object (x ∷ xs ++ m ∷ []) q,
              m_last,
              same_true m,
              queue_head-first w object (x ∷ xs ++ m ∷ []) q,
              c.0,
              m_last,
              same_true m,
              Front-last w₁ object true l x xs (m ∷ []) front₁,
            )
            refl)
          (store_ne w₁ l m ended l_m
            ∙ store_ne w x m first (λ e. cut.not_front.0 (sym e))
            ∙ cut.at),
      record {
        queue =
            joined-IsQueue w object x xs [] x l m l first ended (idle v) (q.0, q.1, q.2)
              (Distinct-join (x ∷ xs) [] cut.distinct_front tt cut.apart)
              (ap (last_or x) (sym (append-nil xs))) whole;
        others =
            Others_lem w w₃ object (x ∷ xs ++ m ∷ [])
              (λ y ne.
                let (nf, (nm, _)) = All-split (λ z. z ≢ y) (x ∷ xs) (m ∷ []) ne in
                store_ne w₂ m y (idle v) nm
                ∙ store_ne w₁ l y ended (All-last (λ z. z ≢ y) x xs nf)
                ∙ store_ne w x y first nf.0)
              (stores-KeepsObjects w object x l m first ended (idle v))
              (apart_queue w object (x ∷ xs ++ m ∷ []) q);
        found = (stores-KeepsObjects w object x l m first ended (idle v)).found;
      },
      idle-Left w w₂ m v cut.at,
    )

-- For a messenger anywhere in the well-formed queue of an object, object_wait_queue_unlink
-- passes its asserts, and then that object has the well-formed queue of the other messengers in
-- their order, the queues of all other objects are as they were, and of the messenger only
-- wait_queue_p has changed, which is now false.
pub unlink_cases :
    (w : World) (object m : ℕ) (as_ bs : List ℕ)
    → IsQueue w object (as_ ++ m ∷ bs)
    → Unlinked w m object (as_ ++ bs)
unlink_cases w object m [] [] q = unlink_alone w object m q
unlink_cases w object m [] (b ∷ bs) q = unlink_head w object m b bs q
unlink_cases w object m (x ∷ xs) [] q = unlink_end w object x xs m q
unlink_cases w object m (x ∷ xs) (b ∷ bs) q = unlink_between w object x xs m b bs q
