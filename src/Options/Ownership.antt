-- ===== src/Options/Ownership.antt =====
-- Who frees the options of Options.hpp.
use natsclient_cpp.Base.{◌≡◌, refl, Bool, arith}
use natsclient_cpp.Nats.{Ptr, null, Kind, Library}
use natsclient_cpp.Handle.{Memory, Handle, IsOwner}
use natsclient_cpp.Handle.Abstract.{Frees}
use natsclient_cpp.Handle.Ownership.{Reach, Safe, Reach-Safe}
use natsclient_cpp.Options.{NatsOptions, construct, destruct, move_construct, move_assign}

module _ {S : Type 0} (nats : Library S) where
  abbrev pub handle : Handle S NatsOptions
  handle = record {
    owned = λ x. x.ptr;
    destroy = nats.destroy Kind.options;
    Constructed = λ p x. x ≡ construct p;
    destruct = destruct nats;
    move_construct = move_construct;
    move_assign = move_assign nats;
  }

  handle-IsOwner : IsOwner handle
  unfolding construct destruct move_construct move_assign
  handle-IsOwner = record {
    constructed_owns = λ p x e. ground arith;
    destruct_releases = λ x s. (record x { ptr = null }, ground arith, refl);
    move_gives = λ x. refl;
    move_empties = λ x. refl;
    assign_self = λ a m s. ground arith;
    assign_moves = λ a b x y m s ne ea eb.
        (record x { ptr = y.ptr; s = y.s }, record y { ptr = null }, ground arith, refl, refl);
  }

  -- The special members of `NatsOptions`, in any order and from a safe start, never let two objects
  -- hold one C options struct, hold one that was freed, or lose one that was not.
  pub Reach-Safe-options :
      (live : Ptr → S → Bool)
      → Frees (nats.destroy Kind.options) live
      → {m : Memory NatsOptions} {s : S} {m' : Memory NatsOptions} {s' : S}
      → Reach handle live m s m' s'
      → Safe handle live m s
      → Safe handle live m' s'
  Reach-Safe-options live laws r safe = Reach-Safe handle live handle-IsOwner laws r safe
