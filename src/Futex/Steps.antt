-- ===== src/Futex/Steps.antt =====
-- What the loop of `wake` has done when it ends, put together from its turns.
use mathlib.Core.List.{append-nil, append_assoc}
use viengoos.Common.{
  ℕ, suc, Bool, ◌&&◌, ◌==◌, ◌+◌, ◌<◌, ◌≡◌, ◌≢◌, refl, sym, ap, ap₂, ◌∙◌, subst, arith, true, false,
  List, [], ◌∷◌, ◌++◌, All, length, drop,
}
use viengoos.Futex.Plan.{
  filter, take, without, filter-same, without-same, take-nil, drop-nil, without-zero, without-skip,
  without-hit, filter-hit,
}
use viengoos.Futex.Standing.{
  SameWait, Standing, SameWait_trans, Standing_still, Standing_then, suffix_all, all_append-without,
}
use viengoos.Futex.{Waiters, Request, Progress}
use viengoos.WaitQueue.Chain.{IsQueue}

-- The messenger waits for the futex at the offset.
unfoldable pub waits_at : Waiters → ℕ → ℕ → Bool
waits_at s offset m = s.waits_for_futex m && s.wait_reason_arg m == offset

pub SameWait-waits_at :
    (s t : Waiters) (offset : ℕ) (xs : List ℕ)
    → All (SameWait s t) xs
    → All (λ x. waits_at t offset x ≡ waits_at s offset x) xs
unfolding waits_at
SameWait-waits_at s t offset [] h = tt
SameWait-waits_at s t offset (x ∷ xs) (h, hs) =
    (rw (h.0, h.1) refl, SameWait-waits_at s t offset xs hs)

-- The queue of the first object, `ks` of which the loop has passed; and that of the second object,
-- where the request is `two`-fold: where messengers may be moved.
pub record Stage (two : Type 0) (r : Request) (p : Progress) (ks ms qs : List ℕ) : Type 0 where
  pub first : IsQueue p.waiters.world r.object1 (ks ++ ms)
  pub second : two → IsQueue p.waiters.world r.object2 qs
  pub found : two → p.waiters.world.found r.object2 ≡ true

-- The loop, from `p` with the messengers `ms` before it, ends with `p'`, where it may wake `k` more
-- messengers and move `moves`.
pub record Woke (quiet : ℕ → Type 0) (two : Type 0) (r : Request) (p p' : Progress)
    (ks ms qs : List ℕ) (k moves : ℕ) : Type 0 where
  pub first :
      Standing p.waiters p'.waiters r.object1
        (ks ++ without (waits_at p.waiters r.offset1) (k + moves) ms)
  pub second :
      two
      → IsQueue p'.waiters.world r.object2
          (qs ++ take moves (drop k (filter (waits_at p.waiters r.offset1) ms)))
  pub woken : p'.woken ≡ p.woken ++ take k (filter (waits_at p.waiters r.offset1) ms)
  pub count :
      p'.count ≡ p.count + length (take (k + moves) (filter (waits_at p.waiters r.offset1) ms))
  pub others :
      (o : ℕ) (os : List ℕ)
      → quiet o
      → r.object1 ≢ o
      → (two → r.object2 ≢ o)
      → IsQueue p.waiters.world o os
      → Standing p.waiters p'.waiters o os

pub Woke-end :
    (quiet : ℕ → Type 0) (two : Type 0) (r : Request) (p : Progress) (ks qs : List ℕ) (k moves : ℕ)
    → Stage two r p ks [] qs
    → Woke quiet two r p p ks [] qs k moves
unfolding filter without
Woke-end quiet two r p ks qs k moves s = record {
  first = Standing_still p.waiters r.object1 (ks ++ []) s.first;
  second = λ u. rw (drop-nil k, take-nil moves, append-nil qs) (s.second u);
  woken = rw (take-nil k, append-nil p.woken) refl;
  count = rw (take-nil (k + moves)) (omega arith);
  others = λ o os h n1 n2 q. Standing_still p.waiters o os q;
}

pub Woke-skip :
    (quiet : ℕ → Type 0) (two : Type 0) (r : Request) (p p' : Progress) (m : ℕ) (ks ms qs : List ℕ)
    (k moves : ℕ)
    → waits_at p.waiters r.offset1 m ≡ false
    → 0 < k + moves
    → Woke quiet two r p p' (ks ++ m ∷ []) ms qs k moves
    → Woke quiet two r p p' ks (m ∷ ms) qs k moves
unfolding filter
Woke-skip quiet two r p p' m ks ms qs k moves e more w =
    let f = waits_at p.waiters r.offset1 in
    record {
      first =
          subst (λ l. Standing p.waiters p'.waiters r.object1 l)
            (append_assoc ks (m ∷ []) (without f (k + moves) ms)
              ∙ ap (λ l. ks ++ l) (sym (without-skip f (k + moves) m ms e more)))
            w.first;
      second = λ u. rw e (w.second u);
      woken = rw e w.woken;
      count = rw e w.count;
      others = w.others;
    }

-- The messengers after the one that was woken or moved are chosen as before.
same_ones :
    (p p₁ : Progress) (offset : ℕ) (ks ms : List ℕ)
    → All (SameWait p.waiters p₁.waiters) (ks ++ ms)
    → All (λ x. waits_at p₁.waiters offset x ≡ waits_at p.waiters offset x) ms
same_ones p p₁ offset ks ms same =
    SameWait-waits_at p.waiters p₁.waiters offset ms
      (suffix_all (SameWait p.waiters p₁.waiters) ks ms same)

-- What is left on the first object stands.
left_first :
    (r : Request) (p p₁ p' : Progress) (ks ms : List ℕ) (n : ℕ)
    → All (SameWait p.waiters p₁.waiters) (ks ++ ms)
    → Standing p₁.waiters p'.waiters r.object1 (ks ++ without (waits_at p₁.waiters r.offset1) n ms)
    → Standing p.waiters p'.waiters r.object1 (ks ++ without (waits_at p.waiters r.offset1) n ms)
left_first r p p₁ p' ks ms n same h =
    let f = waits_at p.waiters r.offset1 in
    let g = waits_at p₁.waiters r.offset1 in
    let k =
      subst (λ l. Standing p₁.waiters p'.waiters r.object1 (ks ++ l))
        (without-same g f n ms (same_ones p p₁ r.offset1 ks ms same)) h in
    record {
      queue = k.queue;
      reasons =
          SameWait_trans p.waiters p₁.waiters p'.waiters (ks ++ without f n ms)
            (all_append-without (SameWait p.waiters p₁.waiters) f n ks ms same) k.reasons;
    }

-- One messenger was woken, and the loop may stop.
pub woken_first :
    (quiet : ℕ → Type 0) (two : Type 0) (r : Request) (p p₁ p' : Progress) (m : ℕ)
    (ks ms qs : List ℕ) (k moves : ℕ)
    → waits_at p.waiters r.offset1 m ≡ true
    → All (SameWait p.waiters p₁.waiters) (ks ++ ms)
    → p₁.woken ≡ p.woken ++ m ∷ []
    → p₁.count ≡ p.count + 1
    → ((o : ℕ) (os : List ℕ)
        → quiet o
        → r.object1 ≢ o
        → IsQueue p.waiters.world o os
        → Standing p.waiters p₁.waiters o os)
    → Woke quiet two r p₁ p' ks ms qs k moves
    → Woke quiet two r p p' ks (m ∷ ms) qs (suc k) moves
woken_first quiet two r p p₁ p' m ks ms qs k moves e same woken count others w =
    let f = waits_at p.waiters r.offset1 in
    let g = waits_at p₁.waiters r.offset1 in
    let sum : suc k + moves ≡ suc (k + moves) = omega arith in
    let hit = filter-hit f m ms e in
    let left = filter-same g f ms (same_ones p p₁ r.offset1 ks ms same) in
    record {
      first =
          rw (sum, without-hit f (k + moves) m ms e)
            (left_first r p p₁ p' ks ms (k + moves) same w.first);
      second = λ u. rw hit (
          subst (λ l. IsQueue p'.waiters.world r.object2 (qs ++ take moves (drop k l))) left
            (w.second u));
      woken =
          w.woken
          ∙ ap₂ (λ a l. a ++ take k l) woken left
          ∙ append_assoc p.woken (m ∷ []) (take k (filter f ms))
          ∙ ap (λ l. p.woken ++ take (suc k) l) (sym hit);
      count =
          rw (sum, hit) (omega (arith, w.count, count, ap (λ l. length (take (k + moves) l)) left));
      others = λ o os h n1 n2 q.
          Standing_then p.waiters p₁.waiters p'.waiters o os (others o os h n1 q)
            (w.others o os h n1 n2);
    }

-- One messenger was moved, and the loop may stop.
pub moved_first :
    (quiet : ℕ → Type 0) (two : Type 0) (r : Request) (p p₁ p' : Progress) (m : ℕ)
    (ks ms qs : List ℕ) (moves : ℕ)
    → two
    → waits_at p.waiters r.offset1 m ≡ true
    → All (SameWait p.waiters p₁.waiters) (ks ++ ms)
    → p₁.woken ≡ p.woken
    → p₁.count ≡ p.count + 1
    → ((o : ℕ) (os : List ℕ)
        → r.object1 ≢ o
        → r.object2 ≢ o
        → IsQueue p.waiters.world o os
        → Standing p.waiters p₁.waiters o os)
    → Woke quiet two r p₁ p' ks ms (qs ++ m ∷ []) 0 moves
    → Woke quiet two r p p' ks (m ∷ ms) qs 0 (suc moves)
moved_first quiet two r p p₁ p' m ks ms qs moves u e same woken count others w =
    let f = waits_at p.waiters r.offset1 in
    let g = waits_at p₁.waiters r.offset1 in
    let sum : 0 + suc moves ≡ suc (0 + moves) = omega arith in
    let hit = filter-hit f m ms e in
    let left = filter-same g f ms (same_ones p p₁ r.offset1 ks ms same) in
    record {
      first =
          subst (λ l. Standing p.waiters p'.waiters r.object1 (ks ++ l))
            (sym (without-hit f (0 + moves) m ms e) ∙ ap (λ n. without f n (m ∷ ms)) (sym sum))
            (left_first r p p₁ p' ks ms (0 + moves) same w.first);
      second = λ _.
          subst (λ l. IsQueue p'.waiters.world r.object2 l)
            (append_assoc qs (m ∷ []) (take moves (filter g ms))
              ∙ ap (λ l. qs ++ m ∷ take moves l) left
              ∙ ap (λ l. qs ++ take (suc moves) l) (sym hit))
            (w.second u);
      woken = w.woken ∙ ap (λ l. l ++ []) woken;
      count =
          rw (sum, hit) (omega (arith, w.count, count, ap (λ l. length (take (0 + moves) l)) left));
      others = λ o os h n1 n2 q.
          Standing_then p.waiters p₁.waiters p'.waiters o os (others o os n1 (n2 u) q)
            (w.others o os h n1 n2);
    }

-- The loop ends here.
pub Woke-stop :
    (quiet : ℕ → Type 0) (two : Type 0) (r : Request) (p : Progress) (ks ms qs : List ℕ)
    → Stage two r p ks ms qs
    → Woke quiet two r p p ks ms qs 0 0
Woke-stop quiet two r p ks ms qs s = record {
  first =
      subst (λ l. Standing p.waiters p.waiters r.object1 (ks ++ l)) (sym (without-zero _ ms))
        (Standing_still p.waiters r.object1 (ks ++ ms) s.first);
  second = λ u. subst (IsQueue p.waiters.world r.object2) (sym (append-nil qs)) (s.second u);
  woken = sym (append-nil p.woken);
  count = omega arith;
  others = λ o os h n1 n2 q. Standing_still p.waiters o os q;
}
