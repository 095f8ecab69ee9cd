-- ===== src/Heap/Custody.antt =====
-- Sequences of steps of the specification of ownership, for each kind of handle.
use natsclient_cpp.Base.{◌≡◌, Bool}
use natsclient_cpp.Nats.{Ptr}
use natsclient_cpp.Handle.{Addr}
use natsclient_cpp.Handle.Abstract.{Frees, IsSafe, Transfer, idle, Transfer-IsSafe}

module _ {S : Type 0} (destroy : Ptr → S → S) (live : Ptr → S → Bool) where
  pub data Transfers (held : Addr → Ptr) (s : S) : (Addr → Ptr) → S → Type 0 where
    stay : Transfers held s held s
    pass :
        {held' held'' : Addr → Ptr} {s' s'' : S}
        → Transfers held s held' s'
        → Transfer destroy live held' held'' s' s''
        → Transfers held s held'' s''

module _ {S : Type 0} {destroy : Ptr → S → S} {live : Ptr → S → Bool} {held held' : Addr → Ptr}
    {s s' : S} where
  pub one : Transfer destroy live held held' s s' → Transfers destroy live held s held' s'
  one t = pass stay t

  -- Nothing of this kind happens.
  pub nothing_new :
      ((q : Ptr) → live q s' ≡ live q s)
      → ((c : Addr) → held' c ≡ held c)
      → Transfers destroy live held s held' s'
  nothing_new same at = one (idle same at)

module _ {S : Type 0} {destroy : Ptr → S → S} {live : Ptr → S → Bool}
    (laws : Frees destroy live) where
  pub Transfers-IsSafe :
      {held : Addr → Ptr} {s : S} {held' : Addr → Ptr} {s' : S}
      → Transfers destroy live held s held' s'
      → IsSafe destroy live held s
      → IsSafe destroy live held' s'
  Transfers-IsSafe stay safe = safe
  Transfers-IsSafe (pass ts t) safe = Transfer-IsSafe laws t (Transfers-IsSafe ts safe)
