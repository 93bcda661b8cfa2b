-- ===== src/Zalloc/Reuse.antt =====
-- Blocks that zalloc gave, and their return.
use viengoos.Common.{ℕ, ◌+◌, ◌≤◌, ◌≡◌, ◌≢◌, inl, inr, arith, ap, subst}
use viengoos.Zalloc.Bite.{Allocated}
use viengoos.Zalloc.Pools.{IsPool, zfree-Donated, free_count, holds}
use viengoos.Zalloc.Request.{IsRequest, zalloc_cases}
use viengoos.Zalloc.{Pool, returns, zalloc, zfree}

zalloc-Allocated :
    (p q : Pool) (size b : ℕ)
    → IsPool p
    → IsRequest size
    → b ≢ 0
    → zalloc p size ≡ returns (b, q)
    → Allocated p q b size
zalloc-Allocated p q size b w h ne e = elim (zalloc_cases p size w h) [
  | inl (none_left, _) ↦
      let pair : ◌≡◌ {A = ℕ × Pool} (b, q) (0, p) = cc in absurd (ne (ap (λ x. x.0) pair))
  | inr (c, r, f, allocated) ↦
      let pair : ◌≡◌ {A = ℕ × Pool} (c, r) (b, q) = cc in
      subst (λ x. Allocated p x.1 x.0 size) pair allocated
]

-- On a well-formed pool where no address is in two free blocks, two blocks that zalloc gives one
-- after the other, for pages of 2 GB at most, have no address in common.
pub zalloc-disjoint :
    (p q r : Pool) (s t a b : ℕ)
    → IsPool p
    → ((x : ℕ) → free_count x p ≤ 1)
    → IsRequest s
    → IsRequest t
    → a ≢ 0
    → b ≢ 0
    → zalloc p s ≡ returns (a, q)
    → zalloc q t ≡ returns (b, r)
    → (x : ℕ) → holds x a s + holds x b t ≤ 1
zalloc-disjoint p q r s t a b w once hs ht na nb e f x =
    let first = zalloc-Allocated p q s a w hs na e in
    let second = zalloc-Allocated q r t b first.pool ht nb f in
    omega (arith, first.free x, second.free x, once x)

-- zfree of a block that zalloc gave of a well-formed pool returns, and leaves a well-formed pool
-- with the zalloc_memory of the first one, and with each address in as many free blocks as
-- there.
pub zfree-zalloc :
    (p q : Pool) (size b : ℕ)
    → IsPool p
    → IsRequest size
    → b ≢ 0
    → zalloc p size ≡ returns (b, q)
    → (r : Pool) × (zfree q b size ≡ returns r)
      × IsPool r
      × (r.memory ≡ p.memory)
      × ((x : ℕ) → free_count x r ≡ free_count x p)
zfree-zalloc p q size b w h ne e =
    let a = zalloc-Allocated p q size b w h ne e in
    let (r, done, d) = zfree-Donated q b size a.pool a.pages (omega (arith, a.memory, w.small)) in
    (r, done, d.pool, omega (arith, d.memory, a.memory), λ x. omega (arith, d.free x, a.free x))
