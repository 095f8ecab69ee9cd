-- ===== src/SubscriptionSync/Ownership.antt =====
-- Who ends the subscriptions of SubscriptionSync.hpp.
use natsclient_cpp.Base.{◌≡◌, refl, Bool, arith}
use natsclient_cpp.Nats.{Ptr, null, Kind, Library}
use natsclient_cpp.Handle.{Memory, Handle, IsOwner}
use natsclient_cpp.Handle.Abstract.{Frees}
use natsclient_cpp.Handle.Ownership.{Reach, Safe, Reach-Safe}
use natsclient_cpp.SubscriptionSync.{
  NatsSubscriptionSync, construct, destruct, move_construct, move_assign,
}

module _ {S : Type 0} (nats : Library S) where
  abbrev pub handle : Handle S NatsSubscriptionSync
  handle = record {
    owned = λ x. x.ptr;
    destroy = nats.destroy Kind.subscription;
    Constructed = λ p x. x ≡ construct p;
    destruct = destruct nats;
    move_construct = move_construct;
    move_assign = move_assign nats;
  }

  pub handle-IsOwner : IsOwner handle
  unfolding construct destruct move_construct move_assign
  handle-IsOwner = record {
    constructed_owns = λ p x e. ground arith;
    destruct_releases = λ x s. (record x { ptr = null }, ground arith, refl);
    move_gives = λ x. refl;
    move_empties = λ x. refl;
    assign_self = λ a m s. ground arith;
    assign_moves = λ a b x y m s ne ea eb.
        (record x { ptr = y.ptr }, record y { ptr = null }, ground arith, refl, refl);
  }

  -- From a safe start and whatever special members of `NatsSubscriptionSync` run, a live C
  -- subscription has exactly one wrapper and a wrapper holds a live one or none, so it is destroyed
  -- once, by its last owner.
  pub Reach-Safe_subscriptions :
      (live : Ptr → S → Bool)
      → Frees (nats.destroy Kind.subscription) live
      → {m : Memory NatsSubscriptionSync} {s : S} {m' : Memory NatsSubscriptionSync} {s' : S}
      → Reach handle live m s m' s'
      → Safe handle live m s
      → Safe handle live m' s'
  Reach-Safe_subscriptions live laws r safe = Reach-Safe handle live handle-IsOwner laws r safe
