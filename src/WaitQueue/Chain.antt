-- ===== src/WaitQueue/Chain.antt =====
-- What the queue of an object is: its messengers in order, doubly linked, the first one with the
-- last one before it and the last one with the object after it.
use viengoos.Common.{
  ℕ, ◌≡◌, ◌≢◌, refl, sym, ap, ◌∙◌, arith, Bool, true, false, some, List, [], ◌∷◌, ◌++◌, All,
}
use viengoos.WaitQueue.{Waiter, World, store}

abbrev pub is_empty : List ℕ → Bool
is_empty [] = true
is_empty (m ∷ ms) = false

-- The first of the messengers, or the object.
abbrev pub first_or : ℕ → List ℕ → ℕ
first_or object [] = object
first_or object (m ∷ ms) = m

abbrev pub last_or : ℕ → List ℕ → ℕ
last_or m [] = m
last_or m (x ∷ xs) = last_or x xs

abbrev pub Distinct : List ℕ → Type 0
Distinct [] = Unit
Distinct (m ∷ ms) = All (λ x. m ≢ x) ms × Distinct ms

-- The fields of a messenger, `first` if it is the head, after `before` and with `ms` behind it.
abbrev pub linked : ℕ → Bool → ℕ → List ℕ → Waiter
linked object first before ms = record {
  wait_queue_p = true;
  wait_queue_head = first;
  wait_queue_tail = is_empty ms;
  next = first_or object ms;
  prev = before;
}

-- The messengers are linked in this order.
abbrev pub Chain : World → ℕ → Bool → ℕ → List ℕ → Type 0
Chain w object first before [] = Unit
Chain w object first before (m ∷ ms) =
    (w.messenger m ≡ some (linked object first before ms)) × Chain w object false m ms

-- The object has the queue `ms`.
abbrev pub IsQueue : World → ℕ → List ℕ → Type 0
IsQueue w object [] = w.wait_queue_p object ≡ false
IsQueue w object (m ∷ ms) =
    (w.wait_queue_p object ≡ true)
    × (w.found object ≡ true)
    × (w.wait_queue object ≡ m)
    × Distinct (m ∷ ms)
    × Chain w object true (last_or m ms) (m ∷ ms)

pub store_self : (w : World) (m : ℕ) (v : Waiter) → (store w m v).messenger m ≡ some v
unfolding store
store_self w m v = ground arith

pub store_ne :
    (w : World) (m x : ℕ) (v : Waiter) → m ≢ x → (store w m v).messenger x ≡ w.messenger x
unfolding store
store_ne w m x v ne = ground arith

-- A chain depends on the fields of its messengers only.
pub Chain-same :
    (w w' : World) (object : ℕ) (first : Bool) (before : ℕ) (ms : List ℕ)
    → All (λ x. w'.messenger x ≡ w.messenger x) ms
    → Chain w object first before ms
    → Chain w' object first before ms
Chain-same w w' object first before [] same c = tt
Chain-same w w' object first before (m ∷ ms) (e, same) (at, c) =
    (e ∙ at, Chain-same w w' object false m ms same c)

pub All-store :
    (w : World) (m : ℕ) (v : Waiter) (ms : List ℕ)
    → All (λ x. m ≢ x) ms
    → All (λ x. (store w m v).messenger x ≡ w.messenger x) ms
All-store w m v [] ne = tt
All-store w m v (x ∷ xs) (e, ne) = (store_ne w m x v e, All-store w m v xs ne)

-- A write of a messenger that is not in the chain.
pub Chain-store :
    (w : World) (m : ℕ) (v : Waiter) (object : ℕ) (first : Bool) (before : ℕ) (ms : List ℕ)
    → All (λ x. m ≢ x) ms
    → Chain w object first before ms
    → Chain (store w m v) object first before ms
Chain-store w m v object first before ms ne c =
    Chain-same w (store w m v) object first before ms (All-store w m v ms ne) c

-- The head of a chain is given another place in it.
pub Chain-head :
    (w : World) (m object : ℕ) (first first' : Bool) (before before' : ℕ) (ms : List ℕ)
    → All (λ x. m ≢ x) ms
    → Chain w object first before (m ∷ ms)
    → Chain (store w m (linked object first' before' ms)) object first' before' (m ∷ ms)
Chain-head w m object first first' before before' ms ne (at, c) =
    (store_self w m _, Chain-store w m _ object false m ms ne c)

-- A messenger that does not wait is in no chain.
pub Chain-free :
    (w : World) (m object : ℕ) (v : Waiter) (first : Bool) (before : ℕ) (ms : List ℕ)
    → w.messenger m ≡ some v
    → v.wait_queue_p ≡ false
    → Chain w object first before ms
    → All (λ x. m ≢ x) ms
Chain-free w m object v first before [] e free c = tt
Chain-free w m object v first before (x ∷ xs) e free (at, c) =
    (differ, Chain-free w m object v false x xs e free c)
  where
    differ : m ≢ x
    differ same =
        let both : some v ≡ some (linked object first before xs) =
          sym e ∙ ap w.messenger same ∙ at in
        cc

-- The messengers `front` are linked in this order, with `ms` behind them.
abbrev pub Front : World → ℕ → Bool → ℕ → List ℕ → List ℕ → Type 0
Front w object first before [] ms = Unit
Front w object first before (x ∷ xs) ms =
    (w.messenger x ≡ some (linked object first before (xs ++ ms))) × Front w object false x xs ms

-- The place of a last messenger: whether it is the first one too, and what is before it.
abbrev pub alone : Bool → List ℕ → Bool
alone first [] = first
alone first (x ∷ xs) = false

abbrev pub before_last : ℕ → ℕ → List ℕ → ℕ
before_last before x [] = before
before_last before x (y ∷ ys) = before_last x y ys

pub Chain-split :
    (w : World) (object : ℕ) (first : Bool) (before x : ℕ) (xs ms : List ℕ)
    → Chain w object first before (x ∷ xs ++ ms)
    → Front w object first before (x ∷ xs) ms × Chain w object false (last_or x xs) ms
Chain-split w object first before x [] ms (at, c) = ((at, tt), c)
Chain-split w object first before x (y ∷ ys) ms (at, c) =
    let (f, rest) = Chain-split w object false x y ys ms c in ((at, f), rest)

pub Chain-join :
    (w : World) (object : ℕ) (first : Bool) (before x : ℕ) (xs ms : List ℕ)
    → Front w object first before (x ∷ xs) ms
    → Chain w object false (last_or x xs) ms
    → Chain w object first before (x ∷ xs ++ ms)
Chain-join w object first before x [] ms (at, _) c = (at, c)
Chain-join w object first before x (y ∷ ys) ms (at, f) c =
    (at, Chain-join w object false x y ys ms f c)

pub Front-store :
    (w : World) (m : ℕ) (v : Waiter) (object : ℕ) (first : Bool) (before : ℕ) (front ms : List ℕ)
    → All (λ x. m ≢ x) front
    → Front w object first before front ms
    → Front (store w m v) object first before front ms
Front-store w m v object first before [] ms ne f = tt
Front-store w m v object first before (x ∷ xs) ms (ne, nes) (at, f) =
    (store_ne w m x v ne ∙ at, Front-store w m v object false x xs ms nes f)

pub Front-last :
    (w : World) (object : ℕ) (first : Bool) (before x : ℕ) (xs ms : List ℕ)
    → Front w object first before (x ∷ xs) ms
    → w.messenger (last_or x xs)
      ≡ some (linked object (alone first xs) (before_last before x xs) ms)
Front-last w object first before x [] ms (at, _) = at
Front-last w object first before x (y ∷ []) ms (_, f) = f.0
Front-last w object first before x (y ∷ z ∷ zs) ms (_, f) =
    Front-last w object false x y (z ∷ zs) ms f

last_differs : (x y : ℕ) (ys : List ℕ) → All (λ z. x ≢ z) (y ∷ ys) → last_or y ys ≢ x
last_differs x y [] (ne, _) e = ne (sym e)
last_differs x y (z ∷ zs) (_, ne) e = last_differs x z zs ne e

-- What comes behind the last messenger of the front is exchanged.
pub Front-cut :
    (w : World) (object : ℕ) (first : Bool) (before x : ℕ) (xs ms ms' : List ℕ)
    → Distinct (x ∷ xs)
    → Front w object first before (x ∷ xs) ms
    → Front
        (store w (last_or x xs) (linked object (alone first xs) (before_last before x xs) ms'))
        object
        first
        before
        (x ∷ xs)
        ms'
Front-cut w object first before x [] ms ms' d f = (store_self w x _, tt)
Front-cut w object first before x (y ∷ []) ms ms' (ne, d) (at, f) =
    (store_ne w y x _ (last_differs x y [] ne) ∙ at, Front-cut w object false x y [] ms ms' d f)
Front-cut w object first before x (y ∷ z ∷ zs) ms ms' (ne, d) (at, f) = (
  store_ne w (last_or y (z ∷ zs)) x _ (last_differs x y (z ∷ zs) ne) ∙ at,
  Front-cut w object false x y (z ∷ zs) ms ms' d f,
)

pub last_or-append :
    (x : ℕ) (xs : List ℕ) (y : ℕ) (ys : List ℕ) → last_or x (xs ++ y ∷ ys) ≡ last_or y ys
last_or-append x [] y ys = refl
last_or-append x (z ∷ zs) y ys = last_or-append z zs y ys

All-snoc :
    (m : ℕ) (x : ℕ) (xs : List ℕ) → All (λ y. x ≢ y) xs → m ≢ x → All (λ y. x ≢ y) (xs ++ m ∷ [])
All-snoc m x [] a ne = (λ e. ne (sym e), tt)
All-snoc m x (y ∷ ys) (a, as_) ne = (a, All-snoc m x ys as_ ne)

pub Distinct-snoc :
    (m : ℕ) (ms : List ℕ) → Distinct ms → All (λ x. m ≢ x) ms → Distinct (ms ++ m ∷ [])
Distinct-snoc m [] d new = (tt, tt)
Distinct-snoc m (x ∷ xs) (a, d) (ne, new) = (All-snoc m x xs a ne, Distinct-snoc m xs d new)
