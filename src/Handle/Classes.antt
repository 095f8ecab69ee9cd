-- ===== src/Handle/Classes.antt =====
-- What an owning class offers, and what its special members are to do.
use natsclient_cpp.Base.{◌≡◌, ◌≢◌, some, ◌==◌, if◌then◌else◌}
use natsclient_cpp.Nats.{Ptr, null, M, ok}
use natsclient_cpp.Handle.Objects.{Addr, Memory, put}

-- A class `A` with its constructors, destructor, move constructor and move assignment.
pub record Handle (S A : Type 0) : Type 1 where
  pub owned : A → Ptr
  -- the C function that gives a pointer back
  pub destroy : Ptr → S → S
  -- the objects that are constructed to hold a pointer
  pub Constructed : Ptr → A → Type 0
  -- the object as the destructor leaves it
  pub destruct : A → M S A
  -- the new object, and the one that it was moved from
  pub move_construct : A → A × A
  -- to the object at the first address, from the one at the second
  pub move_assign : Addr → Addr → Memory A → M S (Memory A)

module _ {S A : Type 0} (h : Handle S A) where
  open h use {owned, destroy, Constructed, destruct, move_construct, move_assign}

  -- NULL is given back to nobody.
  abbrev pub release : Ptr → S → S
  release p s = if p == null then s else destroy p s

  -- The contract of an owning class.
  pub record IsOwner : Type 0 where
    pub constructed_owns : (p : Ptr) (x : A) → Constructed p x → owned x ≡ p
    pub destruct_releases :
        (x : A) (s : S) → (y : A) × (destruct x s ≡ ok y (release (owned x) s)) × (owned y ≡ null)
    pub move_gives : (x : A) → owned (move_construct x).0 ≡ owned x
    pub move_empties : (x : A) → owned (move_construct x).1 ≡ null
    pub assign_self : (a : Addr) (m : Memory A) (s : S) → move_assign a a m s ≡ ok m s
    pub assign_moves :
        (a b : Addr) (x y : A) (m : Memory A) (s : S)
        → a ≢ b
        → m a ≡ some x
        → m b ≡ some y
        → (x' : A) × (y' : A) × (move_assign a b m s
            ≡ ok (put (put m a (some x')) b (some y')) (release (owned x) s))
          × (owned x' ≡ owned y)
          × (owned y' ≡ null)
