-- ===== src/WaitQueue/Cut.antt =====
-- A queue cut at one of its messengers, and put together again without it.
use viengoos.Common.{ℕ, ◌≡◌, ◌≢◌, refl, ◌∙◌, subst, true, false, some, List, ◌∷◌, ◌++◌, All}
use viengoos.WaitQueue.Apart.{Apart, All-split, All-last, Distinct-split, Apart-head}
use viengoos.WaitQueue.Chain.{
  linked, last_or, Distinct, Chain, Front, IsQueue, Chain-split, store_ne, last_or-append,
}
use viengoos.WaitQueue.Enqueue.{Starts}
use viengoos.WaitQueue.Others.{Keeps, KeepsObjects}
use viengoos.WaitQueue.{Waiter, World, store}

-- The parts of a queue, around one of its messengers that is not the first.
pub record Cut (w : World) (object x : ℕ) (xs : List ℕ) (m : ℕ) (bs : List ℕ) : Type 0 where
  pub before : ℕ
  pub ends : before ≡ last_or m bs
  pub front : Front w object true before (x ∷ xs) (m ∷ bs)
  pub at : w.messenger m ≡ some (linked object false (last_or x xs) bs)
  pub back : Chain w object false m bs
  pub distinct_front : Distinct (x ∷ xs)
  pub distinct_back : Distinct bs
  pub apart : Apart (x ∷ xs) bs
  pub not_front : All (λ y. m ≢ y) (x ∷ xs)
  pub not_back : All (λ y. m ≢ y) bs

pub Cut-IsQueue :
    (w : World) (object x : ℕ) (xs : List ℕ) (m : ℕ) (bs : List ℕ)
    → IsQueue w object (x ∷ xs ++ m ∷ bs)
    → Cut w object x xs m bs
Cut-IsQueue w object x xs m bs (p, found, head, d, c) =
    let (front, (at, back)) =
      Chain-split w object true (last_or x (xs ++ m ∷ bs)) x xs (m ∷ bs) c in
    let (df, (nb, db), all_apart) = Distinct-split (x ∷ xs) (m ∷ bs) d in
    let (nf, apart) = Apart-head (x ∷ xs) m bs all_apart in
    record {
      before = last_or x (xs ++ m ∷ bs);
      ends = last_or-append x xs m bs;
      front = front;
      at = at;
      back = back;
      distinct_front = df;
      distinct_back = db;
      apart = apart;
      not_front = nf;
      not_back = nb;
    }

-- A write of the neighbours and of the messenger leaves all messengers outside of the queue.
pub Keeps-cut :
    (w : World) (x : ℕ) (xs : List ℕ) (m b : ℕ) (bs : List ℕ) (u v t : Waiter)
    → Keeps w (store (store (store w (last_or x xs) u) b v) m t) (x ∷ xs ++ m ∷ b ∷ bs)
Keeps-cut w x xs m b bs u v t y ne =
    let (nf, (nm, (nb, _))) = All-split (λ z. z ≢ y) (x ∷ xs) (m ∷ b ∷ bs) ne in
    store_ne (store (store w (last_or x xs) u) b v) m y t nm
    ∙ store_ne (store w (last_or x xs) u) b y v nb
    ∙ store_ne w (last_or x xs) y u (All-last (λ z. z ≢ y) x xs nf)

stores_Starts :
    (w : World) (object h a b m : ℕ) (u v t : Waiter)
    → Starts w object h
    → Starts (store (store (store w a u) b v) m t) object h
unfolding store
stores_Starts w object h a b m u v t s = s

pub stores-KeepsObjects :
    (w : World) (object a b m : ℕ) (u v t : Waiter)
    → KeepsObjects w (store (store (store w a u) b v) m t) object
unfolding store
stores-KeepsObjects w object a b m u v t = record {
  found = λ o. refl;
  flag = λ o ne. refl;
  head = λ o ne. refl;
}

-- The parts of a queue that was made by three writes.
pub joined-IsQueue :
    (w : World) (object x : ℕ) (xs ms : List ℕ) (a b m before : ℕ) (u v t : Waiter)
    → Starts w object x
    → Distinct (x ∷ xs ++ ms)
    → before ≡ last_or x (xs ++ ms)
    → Chain (store (store (store w a u) b v) m t) object true before (x ∷ xs ++ ms)
    → IsQueue (store (store (store w a u) b v) m t) object (x ∷ xs ++ ms)
joined-IsQueue w object x xs ms a b m before u v t s d e c =
    let w' = store (store (store w a u) b v) m t in
    let s' = stores_Starts w object x a b m u v t s in
    (s'.0, s'.1, s'.2, d, subst (λ z. Chain w' object true z (x ∷ xs ++ ms)) e c)
