-- ===== src/Claim/Lists.antt =====
-- The lists of descriptors: how often a descriptor is on a list when one is unlinked or pushed.
use viengoos.Claim.{list_unlink, detach}
use viengoos.Common.{
  ℕ, suc, ◌≡◌, ◌≢◌, refl, arith, Bool, true, false, some, List, [], ◌∷◌, length, ◌==◌,
  if◌then◌else◌, Bool-cases, inl, inr,
}

-- How often the descriptor is on the list.
unfoldable pub times : ℕ → List ℕ → ℕ
times d [] = 0
times d (x ∷ xs) = let rest = times d xs in if x == d then suc rest else rest

-- A list without the only occurrence of the descriptor.
pub record Unlinked (d : ℕ) (l l' : List ℕ) : Type 0 where
  pub shorter : length l ≡ suc (length l')
  pub gone : times d l' ≡ 0
  pub keeps : (x : ℕ) → d ≢ x → times x l' ≡ times x l

pub list_unlink-Unlinked :
    (l : List ℕ) (d : ℕ)
    → times d l ≡ 1
    → (l' : List ℕ) × (list_unlink l d ≡ some l') × Unlinked d l l'
unfolding list_unlink times
list_unlink-Unlinked [] d h = absurd (omega (arith, h))
list_unlink-Unlinked (x ∷ xs) d h = elim (Bool-cases (x == d)) [
  | inl e ↦ (
    xs,
    rw e refl,
    record { shorter = refl; gone = ground (arith, h, e); keeps = λ y ne. ground (arith, e) },
  )
  | inr n ↦
      let (ys, done, u) = list_unlink-Unlinked xs d (ground (arith, h, n)) in
      (
        x ∷ ys,
        rw (n, done) refl,
        record {
          shorter = omega (arith, u.shorter);
          gone = rw n u.gone;
          keeps = λ y ne. rw (u.keeps y ne) refl;
        },
      )
]

-- A node that was cleared.
pub record Detached (d : ℕ) (node node' : ℕ → Bool) : Type 0 where
  pub gone : node' d ≡ false
  pub keeps : (e : ℕ) → d ≢ e → node' e ≡ node e

pub detach-Detached :
    (node : ℕ → Bool) (d : ℕ)
    → node d ≡ true
    → (node' : ℕ → Bool) × (detach node d ≡ some node') × Detached d node node'
unfolding detach
detach-Detached node d h = (
  λ e. if d == e then false else node e,
  rw h refl,
  record { gone = ground arith; keeps = λ e ne. ground arith },
)
