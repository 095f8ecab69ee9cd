-- ===== src/Handle/Abstract.antt =====
-- The specification of the owning classes: who holds which pointer, and how a pointer is acquired,
-- passed on and given back. Objects are forgotten but for the pointer that they hold.
use natsclient_cpp.Base.{
  ◌≡◌, ◌≢◌, sym, ◌∙◌, ap, Bool, true, false, arith, ◌==◌, inl, inr, if◌then◌else◌, eq_cases,
}
use natsclient_cpp.Nats.{Ptr, null}
use natsclient_cpp.Handle.Objects.{Addr}

-- What the library documents of the function that gives a handle back: it ends the life of that
-- handle, and of no other.
pub record Frees {S : Type 0} (destroy : Ptr → S → S) (live : Ptr → S → Bool) : Type 0 where
  pub frees : (p : Ptr) (s : S) → live p (destroy p s) ≡ false
  pub spares : (p q : Ptr) (s : S) → q ≢ p → live q (destroy p s) ≡ live q s

module _ {S : Type 0} (destroy : Ptr → S → S) (live : Ptr → S → Bool) where
  abbrev pub give_back : Ptr → S → S
  give_back p s = if p == null then s else destroy p s

  -- Who holds a pointer holds it alone, and it is live; and every live handle is held.
  pub record IsSafe (held : Addr → Ptr) (s : S) : Type 0 where
    pub held_live : (a : Addr) → held a ≢ null → live (held a) s ≡ true
    pub unique : (a b : Addr) → held a ≡ held b → held a ≢ null → a ≡ b
    pub live_held : (p : Ptr) → live p s ≡ true → (a : Addr) × (held a ≡ p)
    pub null_dead : live null s ≡ false

  pub data Transfer (held held' : Addr → Ptr) (s s' : S) : Type 0 where
    -- a new handle of the library goes to an address that holds none
    acquire :
        (a : Addr) (p : Ptr)
        → held a ≡ null
        → p ≢ null
        → live p s ≡ false
        → live p s' ≡ true
        → ((q : Ptr) → q ≢ p → live q s' ≡ live q s)
        → ((c : Addr) → held' c ≡ (if a == c then p else held c))
        → Transfer held held' s s'
    -- `a` gives its own pointer back and takes that of `b`
    pass_on :
        (a b : Addr)
        → a ≢ b
        → s' ≡ give_back (held a) s
        → ((c : Addr) → held' c ≡ (if b == c then null else if a == c then held b else held c))
        → Transfer held held' s s'
    let_go :
        (a : Addr)
        → s' ≡ give_back (held a) s
        → ((c : Addr) → held' c ≡ (if a == c then null else held c))
        → Transfer held held' s s'
    idle :
        ((q : Ptr) → live q s' ≡ live q s)
        → ((c : Addr) → held' c ≡ held c)
        → Transfer held held' s s'

module _ {S : Type 0} {destroy : Ptr → S → S} {live : Ptr → S → Bool}
    (laws : Frees destroy live) where
  live-give_back : (p q : Ptr) (s : S) → q ≢ p → live q (give_back destroy live p s) ≡ live q s
  live-give_back p q s ne = ground (arith, laws.spares p q s)

  dead-give_back : (p : Ptr) (s : S) → p ≢ null → live p (give_back destroy live p s) ≡ false
  dead-give_back p s ne = ground (arith, laws.frees p s)

  null-give_back :
      (p : Ptr) (s : S) → live null s ≡ false → live null (give_back destroy live p s) ≡ false
  null-give_back p s dead = ground (arith, laws.spares p null s)

  -- A handle that is live after a release was live before, and is not the one released.
  still_live :
      (p q : Ptr) (s : S)
      → live null s ≡ false
      → live q (give_back destroy live p s) ≡ true
      → (live q s ≡ true) × (q ≢ p)
  still_live p q s dead h = elim (eq_cases q p) [
    | inl e ↦ absurd (gone e)
    | inr n ↦ (sym (live-give_back p q s n) ∙ h, n)
  ]
    where
      gone : q ≡ p → ⊥
      gone e = ground (arith, laws.frees p s)

  module _ {held held' : Addr → Ptr} {s s' : S} (safe : IsSafe destroy live held s) where
    open safe use {held_live, unique, live_held, null_dead}

    acquire-IsSafe :
        (a : Addr) (p : Ptr)
        → held a ≡ null
        → p ≢ null
        → live p s ≡ false
        → live p s' ≡ true
        → ((q : Ptr) → q ≢ p → live q s' ≡ live q s)
        → ((c : Addr) → held' c ≡ (if a == c then p else held c))
        → IsSafe destroy live held' s'
    acquire-IsSafe a p free ne fresh now others at = record {
      held_live = λ c n. ground (arith, at c, held_live c, others (held c));
      unique = λ c d e n. ground (arith, at c, at d, held_live c, held_live d, unique c d);
      live_held = λ q h. elim (eq_cases q p) [
        | inl e ↦ (a, ground (arith, at a))
        | inr n ↦ let was = sym (others q n) ∙ h in kept q was (live_held q was)
      ];
      null_dead = ground (arith, others null);
    }
      where
        kept : (q : Ptr) → live q s ≡ true → (c : Addr) × (held c ≡ q) → (c : Addr) × (held' c ≡ q)
        kept q was (c, e) = (c, ground (arith, at c))

    pass_on-IsSafe :
        (a b : Addr)
        → a ≢ b
        → s' ≡ give_back destroy live (held a) s
        → ((c : Addr) → held' c ≡ (if b == c then null else if a == c then held b else held c))
        → IsSafe destroy live held' s'
    pass_on-IsSafe a b ne e at = record {
      held_live = λ c n. ground (
        arith,
        at c,
        held_live c,
        held_live b,
        unique a c,
        unique a b,
        live-give_back (held a) (held c) s,
        live-give_back (held a) (held b) s,
      );
      unique = λ c d e' n. ground (arith, at c, at d, unique c d, unique b d, unique c b);
      live_held = λ q h.
          let (was, other) = still_live (held a) q s null_dead (ap (live q) (sym e) ∙ h) in
          moved q other (live_held q was);
      null_dead = rw e (null-give_back (held a) s null_dead);
    }
      where
        moved : (q : Ptr) → q ≢ held a → (c : Addr) × (held c ≡ q) → (c : Addr) × (held' c ≡ q)
        moved q other (c, e) = elim (eq_cases b c) [
          | inl here ↦ (a, ground (arith, at a))
          | inr n ↦ (c, ground (arith, at c))
        ]

    let_go-IsSafe :
        (a : Addr)
        → s' ≡ give_back destroy live (held a) s
        → ((c : Addr) → held' c ≡ (if a == c then null else held c))
        → IsSafe destroy live held' s'
    let_go-IsSafe a e at = record {
      held_live =
          λ c n. ground (arith, at c, held_live c, unique a c, live-give_back (held a) (held c) s);
      unique = λ c d e' n. ground (arith, at c, at d, unique c d);
      live_held = λ q h.
          let (was, other) = still_live (held a) q s null_dead (ap (live q) (sym e) ∙ h) in
          left q other (live_held q was);
      null_dead = rw e (null-give_back (held a) s null_dead);
    }
      where
        left : (q : Ptr) → q ≢ held a → (c : Addr) × (held c ≡ q) → (c : Addr) × (held' c ≡ q)
        left q other (c, e) = (c, ground (arith, at c))

    idle-IsSafe :
        ((q : Ptr) → live q s' ≡ live q s)
        → ((c : Addr) → held' c ≡ held c)
        → IsSafe destroy live held' s'
    idle-IsSafe same at = record {
      held_live = λ c n. ground (arith, at c, held_live c, same (held c));
      unique = λ c d e n. ground (arith, at c, at d, unique c d);
      live_held = λ q h. kept q (live_held q (sym (same q) ∙ h));
      null_dead = ground (arith, same null);
    }
      where
        kept : (q : Ptr) → (c : Addr) × (held c ≡ q) → (c : Addr) × (held' c ≡ q)
        kept q (c, e) = (c, at c ∙ e)

  -- Every step of the specification keeps it safe.
  pub Transfer-IsSafe :
      {held held' : Addr → Ptr} {s s' : S}
      → Transfer destroy live held held' s s'
      → IsSafe destroy live held s
      → IsSafe destroy live held' s'
  Transfer-IsSafe (acquire a p free ne fresh now others at) safe =
      acquire-IsSafe safe a p free ne fresh now others at
  Transfer-IsSafe (pass_on a b ne e at) safe = pass_on-IsSafe safe a b ne e at
  Transfer-IsSafe (let_go a e at) safe = let_go-IsSafe safe a e at
  Transfer-IsSafe (idle same at) safe = idle-IsSafe safe same at
