-- ===== src/Kv/Store/Ownership.antt =====
-- Who frees the buckets of Kv.hpp.
use natsclient_cpp.Base.{◌≡◌, refl, Bool, arith}
use natsclient_cpp.Nats.{Ptr, null, Kind, Library}
use natsclient_cpp.Handle.{Memory, Handle, IsOwner}
use natsclient_cpp.Handle.Abstract.{Frees}
use natsclient_cpp.Handle.Ownership.{Reach, Safe, Reach-Safe}
use natsclient_cpp.Kv.Store.{KvStore, construct, destruct, move_construct, move_assign}

module _ {S : Type 0} (nats : Library S) where
  abbrev pub handle : Handle S KvStore
  handle = record {
    owned = λ x. x.ptr;
    destroy = nats.destroy Kind.kv_store;
    Constructed = λ p x. x ≡ construct p;
    destruct = destruct nats;
    move_construct = move_construct;
    move_assign = move_assign nats;
  }

  pub handle-IsOwner : IsOwner handle
  unfolding construct destruct move_construct move_assign
  handle-IsOwner = record {
    constructed_owns = λ p x e. ground arith;
    destruct_releases = λ x s. (record x { ptr = null }, ground arith, refl);
    move_gives = λ x. refl;
    move_empties = λ x. refl;
    assign_self = λ a m s. ground arith;
    assign_moves = λ a b x y m s ne ea eb.
        (record x { ptr = y.ptr }, record y { ptr = null }, ground arith, refl, refl);
  }

  -- From a safe start, any run of constructions, moves, assignments (to itself too) and destructions
  -- of `KvStore` objects ends safe: no bucket has two owners, what an owner holds is still open, and
  -- every open bucket has an owner. So a bucket is closed once and never lost.
  pub Reach-Safe_buckets :
      (live : Ptr → S → Bool)
      → Frees (nats.destroy Kind.kv_store) live
      → {m : Memory KvStore} {s : S} {m' : Memory KvStore} {s' : S} → Reach handle live m s m' s'
      → Safe handle live m s
      → Safe handle live m' s'
  Reach-Safe_buckets live laws r safe = Reach-Safe handle live handle-IsOwner laws r safe
