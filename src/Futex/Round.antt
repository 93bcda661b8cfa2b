-- ===== src/Futex/Round.antt =====
-- One turn of the loop of `wake`, and those after it.
use mathlib.Core.List.{append_assoc}
use viengoos.Common.{
  ℕ, suc, ◌+◌, ◌≤◌, ◌<◌, ◌≡◌, refl, sym, ap, ◌∙◌, subst, subst₂, dec_lt, arith, true, false, ◌&&◌,
  Option, some, List, [], ◌∷◌, ◌++◌, ltb, ◌==◌, if◌then◌else◌,
}
use viengoos.Futex.Steps.{waits_at, Stage, Woke, Woke-skip, woken_first, moved_first, Woke-stop}
use viengoos.Futex.Turn.{Waked, Moved}
use viengoos.Futex.{Reply, Waiters, Request, Progress, matches, wake_one, requeue_one, wake_loop}
use viengoos.WaitQueue.Chain.{IsQueue}
use viengoos.WaitQueue.Ends.{first_of, queue_next-first}
use viengoos.WaitQueue.{queue_next}

-- The loop, where `k` messengers may be woken and `moves` moved.
abbrev pub Ends :
    Reply
    → (ℕ → Type 0)
    → Type 0
    → ℕ
    → Request
    → Progress
    → List ℕ
    → List ℕ
    → List ℕ
    → ℕ
    → ℕ
    → Type 0
Ends reply quiet two fuel r p ks ms qs k moves =
    (p' : Progress) × (wake_loop reply fuel r p (first_of ms) ≡ some p')
    × Woke quiet two r p p' ks ms qs k moves

matches-waits_at : (s : Waiters) (offset m : ℕ) → matches s offset m ≡ waits_at s offset m
unfolding matches waits_at
matches-waits_at s offset m = refl

turn_skip :
    (reply : Reply) (fuel : ℕ) (r : Request) (p : Progress) (m : ℕ) (next : Option ℕ)
    → queue_next p.waiters.world m ≡ some next
    → matches p.waiters r.offset1 m ≡ false
    → wake_loop reply (suc fuel) r p (some m) ≡ wake_loop reply fuel r p next
unfolding wake_loop
turn_skip reply fuel r p m next e f = rw (e, f) refl

turn_wake :
    (reply : Reply) (fuel : ℕ) (r : Request) (p q : Progress) (m : ℕ) (next : Option ℕ)
    → queue_next p.waiters.world m ≡ some next
    → matches p.waiters r.offset1 m ≡ true
    → ltb p.count r.to_wake ≡ true
    → wake_one reply p m ≡ some q
    → wake_loop reply (suc fuel) r p (some m) ≡ (
        if q.count == r.to_wake && q.to_requeue == 0 then some q else wake_loop reply fuel r q next)
unfolding wake_loop
turn_wake reply fuel r p q m next e f l done = rw (e, f, l, done) refl

turn_move :
    (reply : Reply) (fuel : ℕ) (r : Request) (p q : Progress) (m : ℕ) (next : Option ℕ)
    → queue_next p.waiters.world m ≡ some next
    → matches p.waiters r.offset1 m ≡ true
    → ltb p.count r.to_wake ≡ false
    → requeue_one r p m ≡ some q
    → wake_loop reply (suc fuel) r p (some m)
      ≡ (if q.to_requeue == 0 then some q else wake_loop reply fuel r q next)
unfolding wake_loop
turn_move reply fuel r p q m next e f l done = rw (e, f, l, done) refl

-- What the loop does after a messenger was woken, if there is more to do.
pub after_wake :
    (reply : Reply) (quiet : ℕ → Type 0) (two : Type 0) (fuel : ℕ) (r : Request) (p q : Progress)
    (m : ℕ) (ks ms qs : List ℕ) (k moves : ℕ)
    → Stage two r p ks (m ∷ ms) qs
    → waits_at p.waiters r.offset1 m ≡ true
    → wake_one reply p m ≡ some q
    → Waked quiet two r p q m ks ms qs
    → p.count + suc k ≡ r.to_wake
    → p.to_requeue ≡ moves
    → (0 < k + moves → Ends reply quiet two fuel r q ks ms qs k moves)
    → Ends reply quiet two (suc fuel) r p ks (m ∷ ms) qs (suc k) moves
after_wake reply quiet two fuel r p q m ks ms qs k moves s hit done w a b further =
    let next = queue_next-first p.waiters.world r.object1 m ks ms s.first in
    let below : ltb p.count r.to_wake ≡ true = ground arith in
    let turn =
      turn_wake reply fuel r p q m (first_of ms) next (matches-waits_at p.waiters r.offset1 m ∙ hit)
        below done in
    let first = λ (p' : Progress) (l : Woke quiet two r q p' ks ms qs k moves).
      woken_first quiet two r p q p' m ks ms qs k moves hit w.same w.woken w.count w.others l in
    elim (dec_lt 0 (k + moves)) [
      | yes more ↦
          let (p', ran, l) = further more in
          let on : (q.count == r.to_wake && q.to_requeue == 0) ≡ false =
            ground (arith, w.count, w.to_requeue) in
          (
            p',
            turn ∙ ap (λ c. if c then some q else wake_loop reply fuel r q (first_of ms)) on ∙ ran,
            first p' l,
          )
      | no last ↦
          let off : (q.count == r.to_wake && q.to_requeue == 0) ≡ true =
            ground (arith, w.count, w.to_requeue) in
          (
            q,
            turn ∙ ap (λ c. if c then some q else wake_loop reply fuel r q (first_of ms)) off,
            first q (
                subst₂ (λ k moves. Woke quiet two r q q ks ms qs k moves) (omega arith)
                  (omega arith) (Woke-stop quiet two r q ks ms qs w.stage)),
          )
    ]

pub after_move :
    (reply : Reply) (quiet : ℕ → Type 0) (two : Type 0) (fuel : ℕ) (r : Request) (p q : Progress)
    (m : ℕ) (ks ms qs : List ℕ) (moves : ℕ)
    → Stage two r p ks (m ∷ ms) qs
    → two
    → waits_at p.waiters r.offset1 m ≡ true
    → requeue_one r p m ≡ some q
    → Moved two r p q m ks ms qs
    → r.to_wake ≤ p.count
    → q.to_requeue ≡ moves
    → (0 < moves → Ends reply quiet two fuel r q ks ms (qs ++ m ∷ []) 0 moves)
    → Ends reply quiet two (suc fuel) r p ks (m ∷ ms) qs 0 (suc moves)
after_move reply quiet two fuel r p q m ks ms qs moves s u hit done w a b further =
    let next = queue_next-first p.waiters.world r.object1 m ks ms s.first in
    let reached : ltb p.count r.to_wake ≡ false = ground arith in
    let turn =
      turn_move reply fuel r p q m (first_of ms) next (matches-waits_at p.waiters r.offset1 m ∙ hit)
        reached done in
    let first = λ (p' : Progress) (l : Woke quiet two r q p' ks ms (qs ++ m ∷ []) 0 moves).
      moved_first quiet two r p q p' m ks ms qs moves u hit w.same w.woken w.count w.others l in
    elim (dec_lt 0 moves) [
      | yes more ↦
          let (p', ran, l) = further more in
          let on : (q.to_requeue == 0) ≡ false = ground arith in
          (
            p',
            turn ∙ ap (λ c. if c then some q else wake_loop reply fuel r q (first_of ms)) on ∙ ran,
            first p' l,
          )
      | no last ↦
          let off : (q.to_requeue == 0) ≡ true = ground arith in
          (
            q,
            turn ∙ ap (λ c. if c then some q else wake_loop reply fuel r q (first_of ms)) off,
            first q (
                subst (λ moves. Woke quiet two r q q ks ms (qs ++ m ∷ []) 0 moves) (omega arith)
                  (Woke-stop quiet two r q ks ms (qs ++ m ∷ []) w.stage)),
          )
    ]

-- One messenger is passed by.
pub past :
    (reply : Reply) (quiet : ℕ → Type 0) (two : Type 0) (fuel : ℕ) (r : Request) (p : Progress)
    (m : ℕ) (ks ms qs : List ℕ) (k moves : ℕ)
    → Stage two r p ks (m ∷ ms) qs
    → waits_at p.waiters r.offset1 m ≡ false
    → 0 < k + moves
    → (Stage two r p (ks ++ m ∷ []) ms qs
        → Ends reply quiet two fuel r p (ks ++ m ∷ []) ms qs k moves)
    → Ends reply quiet two (suc fuel) r p ks (m ∷ ms) qs k moves
past reply quiet two fuel r p m ks ms qs k moves s other more further =
    let next = queue_next-first p.waiters.world r.object1 m ks ms s.first in
    let (p', ran, l) = further (record {
      first = subst (IsQueue p.waiters.world r.object1) (sym (append_assoc ks (m ∷ []) ms)) s.first;
      second = s.second;
      found = s.found;
    }) in
    (
      p',
      turn_skip reply fuel r p m (first_of ms) next (matches-waits_at p.waiters r.offset1 m ∙ other)
          ∙ ran,
      Woke-skip quiet two r p p' m ks ms qs k moves other more l,
    )
