-- ===== src/MessageView/Ownership.antt =====
-- Who frees the messages of MessageView.hpp.
use natsclient_cpp.Base.{◌≡◌, refl, Bool, arith}
use natsclient_cpp.Nats.{Ptr, null, Kind, Library}
use natsclient_cpp.Handle.{Memory, Handle, IsOwner}
use natsclient_cpp.Handle.Abstract.{Frees}
use natsclient_cpp.Handle.Ownership.{Reach, Safe, Reach-Safe}
use natsclient_cpp.MessageView.{NatsMessageView, construct, destruct, move_construct, move_assign}

module _ {S : Type 0} (nats : Library S) where
  abbrev pub handle : Handle S NatsMessageView
  handle = record {
    owned = λ x. x.ptr;
    destroy = nats.destroy Kind.msg;
    Constructed = λ p x. x ≡ construct p;
    destruct = destruct nats;
    move_construct = move_construct;
    move_assign = move_assign nats;
  }

  pub handle-IsOwner : IsOwner handle
  unfolding construct destruct move_construct move_assign
  handle-IsOwner = record {
    constructed_owns = λ p x e. ground arith;
    destruct_releases = λ x s. (record x { ptr = null }, ground arith, refl);
    move_gives = λ x. refl;
    move_empties = λ x. refl;
    assign_self = λ a m s. ground arith;
    assign_moves = λ a b x y m s ne ea eb.
        (record x { ptr = y.ptr }, record y { ptr = null }, ground arith, refl, refl);
  }

  -- However message views are constructed, moved, assigned (to themselves too) and destroyed, from
  -- a safe start: no two own one message, a message that is owned is live, and a message that is
  -- live is owned. So none is destroyed twice and none is lost.
  pub Reach-Safe_messages :
      (live : Ptr → S → Bool)
      → Frees (nats.destroy Kind.msg) live
      → {m : Memory NatsMessageView} {s : S} {m' : Memory NatsMessageView} {s' : S}
      → Reach handle live m s m' s'
      → Safe handle live m s
      → Safe handle live m' s'
  Reach-Safe_messages live laws r safe = Reach-Safe handle live handle-IsOwner laws r safe
