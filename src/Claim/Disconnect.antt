-- ===== src/Claim/Disconnect.antt =====
-- The descriptor is disconnected from its old activity: what is counted meanwhile.
use viengoos.Activity.Charge.{count_if}
use viengoos.Claim.Accounts.{Accounts, below, levels, owned, pending}
use viengoos.Claim.Enter.{goal-Left}
use viengoos.Claim.Leave.{leave_lists-Left}
use viengoos.Claim.Left.{Small, Room}
use viengoos.Claim.Places.{Keeps, Places, Loose}
use viengoos.Claim.{Desc, Frames, is_anew, is_some, differs, disconnect}
use viengoos.Common.{
  ℕ, ◌+◌, ◌<◌, ◌≡◌, refl, ap, ◌∙◌, fun_ext, arith, true, ◌&&◌, Option, none, some, List, length,
  ◌==◌, if◌then◌else◌,
}

-- The descriptor has no owner, is on no list and is being claimed, or it is on the lists of its owner.
abbrev pub Owner : ℕ → Frames → ℕ → Desc → Option ℕ → Option ℕ → Type 0
Owner n w d x none act = (is_some act ≡ true) × Loose w d x
Owner n w d x (some a) act = (a < n) × (x.priority < levels) × Places w d x a

-- The frames that an activity counts, and that are on no list while the descriptor is moved.
abbrev pub in_flight : Desc → Option ℕ → Option ℕ → ℕ → ℕ
in_flight x none act c = 0
in_flight x (some a) act c = count_if (a == c) (if is_anew x (differs act a) then 0 else 1)

pub record Disconnected (n : ℕ) (ups : ℕ → List ℕ) (d : ℕ) (x : Desc) (flight : ℕ → ℕ)
    (w w' : Frames) : Type 0 where
  pub accounts : Accounts n ups (λ c. owned w' c + flight c) (pending w') w'.activities
  pub room : Room w'.activities
  pub keeps : Keeps d w w'
  pub loose : Loose w' d x
  pub same : w'.desc ≡ w.desc

pub disconnect-Disconnected :
    (fuel n : ℕ) (ups : ℕ → List ℕ) (w : Frames) (d : ℕ) (x : Desc) (o act : Option ℕ)
    → ((a : ℕ) → a < n → length (ups a) < fuel)
    → Accounts n ups (owned w) (pending w) w.activities
    → Small w.activities
    → Owner n w d x o act
    → (w' : Frames) × (disconnect fuel w d x o act true ≡ some w')
      × Disconnected n ups d x (in_flight x o act) w w'
unfolding disconnect
disconnect-Disconnected fuel n ups w d x none act enough acc small owner = (
  w,
  refl,
  record {
    accounts = record {
      paths = acc.paths;
      local = λ b. omega (arith, acc.local b);
      total = λ b. acc.total b ∙ ap (λ f. below n ups f b) (fun_ext (λ c. omega arith));
      pend = acc.pend;
    };
    room = λ b. ((small b).0, (small b).1);
    keeps = record {
      laundry = λ e ne. refl;
      available = λ e ne. refl;
      dirty = λ b e ne. refl;
      clean = λ b e ne. refl;
      active = λ b q e ne. refl;
      inactive = λ b q e ne. refl;
      activity_node = λ e ne. refl;
      laundry_node = λ e ne. refl;
    };
    loose = owner.1;
    same = refl;
  },
)
disconnect-Disconnected fuel n ups w d x (some a) act enough acc small (h, p, i) =
    let moved = differs act a in
    let (w₁, ran, left) = leave_lists-Left fuel n ups w d a x moved h (enough a h) acc small p i in
    let (w', ran', left') =
      goal-Left fuel n ups w w₁ d x a (if is_anew x moved then 0 else 1) (is_anew x moved && true) h
        (enough a h) left in
    (
      w',
      rw ran ran',
      record {
        accounts = left'.accounts;
        room = λ b.
            (omega (arith, left'.local b, (small b).0), omega (arith, left'.total b, (small b).1));
        keeps = left'.keeps;
        loose = left'.loose;
        same = left'.same;
      },
    )
