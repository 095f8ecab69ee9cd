-- ===== src/Handle/Ownership.antt =====
-- Programs over the objects of one owning class keep to the specification of `Abstract`.
use natsclient_cpp.Base.{
  ◌≡◌, ◌≢◌, sym, ◌∙◌, ap, Bool, true, false, Option, none, some, arith, inl, inr, eq_cases,
}
use natsclient_cpp.Nats.{Ptr, null, ok, ok-value, ok-state}
use natsclient_cpp.Handle.Objects.{Addr, Memory, put}
use natsclient_cpp.Handle.Classes.{Handle, IsOwner, release}
use natsclient_cpp.Handle.Abstract.{
  Frees, IsSafe, Transfer, acquire, pass_on, let_go, idle, Transfer-IsSafe,
}

module _ {S A : Type 0} (h : Handle S A) where
  open h use {owned}

  abbrev pub owned_by : Option A → Ptr
  owned_by none = null
  owned_by (some x) = owned x

  -- The pointer that the object at an address holds.
  abbrev pub holders : Memory A → Addr → Ptr
  holders m a = owned_by (m a)

module _ {S A : Type 0} (h : Handle S A) where
  open h use {Constructed, destruct, move_construct, move_assign}

  -- What a program can do with objects of the class, each special member as the class defines it.
  pub data Member (m : Memory A) (s : S) (m' : Memory A) (s' : S) : Type 0 where
    -- an object is made that holds nothing
    constructs_empty :
        (a : Addr) (x : A)
        → Constructed null x
        → m a ≡ none
        → m' ≡ put m a (some x)
        → s' ≡ s
        → Member m s m' s'
    move_constructs :
        (a b : Addr) (x : A)
        → m a ≡ none
        → m b ≡ some x
        → m' ≡ put (put m a (some (move_construct x).0)) b (some (move_construct x).1)
        → s' ≡ s
        → Member m s m' s'
    move_assigns :
        (a b : Addr) (x y : A)
        → m a ≡ some x
        → m b ≡ some y
        → move_assign a b m s ≡ ok m' s'
        → Member m s m' s'
    destructs :
        (a : Addr) (x y : A)
        → m a ≡ some x
        → destruct x s ≡ ok y s'
        → m' ≡ put m a none
        → Member m s m' s'

module _ {S A : Type 0} (h : Handle S A) (live : Ptr → S → Bool) where
  open h use {destroy, Constructed}

  pub data Step (m : Memory A) (s : S) (m' : Memory A) (s' : S) : Type 0 where
    -- an object is made from a handle that the library has just handed out
    constructs :
        (a : Addr) (p : Ptr) (x : A)
        → Constructed p x
        → m a ≡ none
        → p ≢ null
        → live p s ≡ false
        → live p s' ≡ true
        → ((q : Ptr) → q ≢ p → live q s' ≡ live q s)
        → m' ≡ put m a (some x)
        → Step m s m' s'
    special : Member h m s m' s' → Step m s m' s'
    -- a call of the library that ends and begins no handle
    calls : ((q : Ptr) → live q s' ≡ live q s) → m' ≡ m → Step m s m' s'

  pub data Reach (m : Memory A) (s : S) : Memory A → S → Type 0 where
    here : Reach m s m s
    next :
        {m' m'' : Memory A} {s' s'' : S} → Reach m s m' s' → Step m' s' m'' s'' → Reach m s m'' s''

  -- No two objects own one handle, an owned handle is live (so what a destructor or an assignment
  -- gives back is live: nothing is freed twice), and a live handle has an owner (nothing leaks).
  abbrev pub Safe : Memory A → S → Type 0
  Safe m s = IsSafe destroy live (holders h m) s

module _ {S A : Type 0} (h : Handle S A) (live : Ptr → S → Bool) (o : IsOwner h) where
  open h use {owned, destroy, Constructed, destruct, move_construct, move_assign}

  abbrev pub Transfers : Memory A → S → Memory A → S → Type 0
  Transfers m s m' s' = Transfer destroy live (holders h m) (holders h m') s s'

  module _ (m m' : Memory A) (s s' : S) where
    pub constructs-Transfers :
        (a : Addr) (p : Ptr) (x : A)
        → Constructed p x
        → m a ≡ none
        → p ≢ null
        → live p s ≡ false
        → live p s' ≡ true
        → ((q : Ptr) → q ≢ p → live q s' ≡ live q s)
        → m' ≡ put m a (some x)
        → Transfers m s m' s'
    constructs-Transfers a p x made free ne fresh now others e =
        acquire a p (ground arith) ne fresh now others
          (λ c. rw e (ground (arith, o.constructed_owns p x made)))

    constructs_empty-Transfers :
        (a : Addr) (x : A)
        → Constructed null x
        → m a ≡ none
        → m' ≡ put m a (some x)
        → s' ≡ s
        → Transfers m s m' s'
    constructs_empty-Transfers a x made free e same =
        idle (λ q. rw same) (λ c. rw e (ground (arith, o.constructed_owns null x made)))

    move_constructs-Transfers :
        (a b : Addr) (x : A)
        → m a ≡ none
        → m b ≡ some x
        → m' ≡ put (put m a (some (move_construct x).0)) b (some (move_construct x).1)
        → s' ≡ s
        → Transfers m s m' s'
    move_constructs-Transfers a b x ea eb e same =
        pass_on a b (λ ab. cc (ap m ab)) (ground arith)
          (λ c. rw e (ground (arith, o.move_gives x, o.move_empties x)))

    move_assigns-Transfers :
        (a b : Addr) (x y : A)
        → m a ≡ some x
        → m b ≡ some y
        → move_assign a b m s ≡ ok m' s'
        → Transfers m s m' s'
    move_assigns-Transfers a b x y ea eb d = elim (eq_cases a b) [
      | inl ab ↦
          let done : ok m s ≡ ok m' s' =
            sym (o.assign_self a m s) ∙ ap (λ c. move_assign a c m s) ab ∙ d in
          idle (λ q. ground arith) (λ c. ground arith)
      | inr ne ↦
          let (x', y', e, gx, gy) = o.assign_moves a b x y m s ne ea eb in
          let done = sym e ∙ d in
          pass_on a b ne (rw ea (sym (ok-state done))) (λ c. rw (← ok-value done) (ground arith))
    ]

    destructs-Transfers :
        (a : Addr) (x y : A)
        → m a ≡ some x
        → destruct x s ≡ ok y s'
        → m' ≡ put m a none
        → Transfers m s m' s'
    destructs-Transfers a x y ex d em =
        let (z, e, _) = o.destruct_releases x s in
        let done = sym d ∙ e in let_go a (rw ex (ok-state done)) (λ c. rw em (ground arith))

  pub Member-Transfers : {m m' : Memory A} {s s' : S} → Member h m s m' s' → Transfers m s m' s'
  Member-Transfers (constructs_empty a x made free e same) =
      constructs_empty-Transfers _ _ _ _ a x made free e same
  Member-Transfers (move_constructs a b x ea eb e same) =
      move_constructs-Transfers _ _ _ _ a b x ea eb e same
  Member-Transfers (move_assigns a b x y ea eb d) = move_assigns-Transfers _ _ _ _ a b x y ea eb d
  Member-Transfers (destructs a x y ex d em) = destructs-Transfers _ _ _ _ a x y ex d em

  Step-Transfers : {m m' : Memory A} {s s' : S} → Step h live m s m' s' → Transfers m s m' s'
  Step-Transfers (constructs a p x made free ne fresh now others e) =
      constructs-Transfers _ _ _ _ a p x made free ne fresh now others e
  Step-Transfers (special member) = Member-Transfers member
  Step-Transfers (calls same e) = idle same (λ c. rw e)

  -- Whatever sequence of special members a program runs, its objects stay safe.
  pub Reach-Safe :
      Frees destroy live
      → {m : Memory A} {s : S} {m' : Memory A} {s' : S} → Reach h live m s m' s'
      → Safe h live m s
      → Safe h live m' s'
  Reach-Safe laws here safe = safe
  Reach-Safe laws (next r st) safe =
      Transfer-IsSafe laws (Step-Transfers st) (Reach-Safe laws r safe)

  -- A special member gives back one pointer at most.
  pub Member-releases :
      {m m' : Memory A} {s s' : S} → Member h m s m' s' → (p : Ptr) × (s' ≡ release h p s)
  Member-releases (constructs_empty a x made free e same) = (null, same)
  Member-releases (move_constructs a b x ea eb e same) = (null, same)
  Member-releases {m} {m'} {s} {s'} (move_assigns a b x y ea eb d) = elim (eq_cases a b) [
    | inl ab ↦
        let done : ok m s ≡ ok m' s' =
          sym (o.assign_self a m s) ∙ ap (λ c. move_assign a c m s) ab ∙ d in
        (null, sym (ok-state done))
    | inr ne ↦
        let (x', y', e, gx, gy) = o.assign_moves a b x y m s ne ea eb in
        (owned x, sym (ok-state (sym e ∙ d)))
  ]
  Member-releases {m} {m'} {s} {s'} (destructs a x y ex d em) =
      let (z, e, _) = o.destruct_releases x s in (owned x, ok-state (sym d ∙ e))
