-- ===== src/WaitQueue/Links.antt =====
-- The links of a messenger that object_wait_queue_unlink took out of its queue, and what
-- messenger_load_internal (viengoos/messenger.c) asserts of them.
use viengoos.Common.{
  ℕ, ◌≡◌, ◌≢◌, sym, ◌∙◌, arith, Bool, true, false, some, List, [], ◌∷◌, ◌++◌, All, ◌==◌, ◌&&◌,
}
use viengoos.WaitQueue.Chain.{linked, first_or, IsQueue}
use viengoos.WaitQueue.Cut.{Cut-IsQueue}
use viengoos.WaitQueue.Unlink.{idle, Left, unlink_cases}
use viengoos.WaitQueue.{Waiter, World, unlink}

-- `! source->wait_queue.next` and `! source->wait_queue.prev`, which messenger_load_internal asserts
unfoldable pub links_clear : Waiter → Bool
links_clear v = v.next == 0 && v.prev == 0

links_remain :
    (w w' : World) (object m : ℕ) (first : Bool) (before : ℕ) (bs : List ℕ)
    → first_or object bs ≢ 0
    → w.messenger m ≡ some (linked object first before bs)
    → Left w w' m
    → (v : Waiter) × (w'.messenger m ≡ some v) × (links_clear v ≡ false)
unfolding links_clear
links_remain w w' object m first before bs ne at l =
    let same : some l.fields ≡ some (linked object first before bs) = sym l.before ∙ at in
    let next : l.fields.next ≡ first_or object bs = cc in (idle l.fields, l.after, ground arith)

Chain-fields :
    (w : World) (object m : ℕ) (as_ bs : List ℕ)
    → IsQueue w object (as_ ++ m ∷ bs)
    → (first : Bool) × (before : ℕ) × (w.messenger m ≡ some (linked object first before bs))
Chain-fields w object m [] bs q = (true, _, q.4.0)
Chain-fields w object m (x ∷ xs) bs q = (false, _, (Cut-IsQueue w object x xs m bs q).at)

-- After object_wait_queue_unlink of a messenger in the queue of an object, where neither the
-- object nor a messenger behind it has the oid 0, the messenger does not meet the asserts of
-- messenger_load_internal that its links are 0.
pub unlink-links_clear :
    (w : World) (object m : ℕ) (as_ bs : List ℕ)
    → IsQueue w object (as_ ++ m ∷ bs)
    → object ≢ 0
    → All (λ b. b ≢ 0) bs
    → (w' : World) × (v : Waiter) × (unlink w m ≡ some w')
      × (w'.messenger m ≡ some v)
      × (links_clear v ≡ false)
unlink-links_clear w object m as_ bs q ne nes =
    let (w', done, _, left) = unlink_cases w object m as_ bs q in
    let (first, before, at) = Chain-fields w object m as_ bs q in
    let (v, e, f) = links_remain w w' object m first before bs (nonzero bs nes) at left in
    (w', v, done, e, f)
  where
    nonzero : (bs : List ℕ) → All (λ b. b ≢ 0) bs → first_or object bs ≢ 0
    nonzero [] nes = ne
    nonzero (b ∷ bs) nes = nes.0
