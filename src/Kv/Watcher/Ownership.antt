-- ===== src/Kv/Watcher/Ownership.antt =====
-- Who frees the watchers of Kv.hpp.
use natsclient_cpp.Base.{◌≡◌, refl, Bool, arith}
use natsclient_cpp.Nats.{Ptr, null, Kind, Library}
use natsclient_cpp.Handle.{Memory, Handle, IsOwner}
use natsclient_cpp.Handle.Abstract.{Frees}
use natsclient_cpp.Handle.Ownership.{Reach, Safe, Reach-Safe}
use natsclient_cpp.Kv.Watcher.{KvWatcher, construct, destruct, move_construct, move_assign}

module _ {S : Type 0} (nats : Library S) where
  abbrev pub handle : Handle S KvWatcher
  handle = record {
    owned = λ x. x.ptr;
    destroy = nats.destroy Kind.kv_watcher;
    Constructed = λ p x. x ≡ construct p;
    destruct = destruct nats;
    move_construct = move_construct;
    move_assign = move_assign nats;
  }

  pub handle-IsOwner : IsOwner handle
  unfolding construct destruct move_construct move_assign
  handle-IsOwner = record {
    constructed_owns = λ p x e. ground arith;
    destruct_releases = λ x s. (record x { ptr = null }, ground arith, refl);
    move_gives = λ x. refl;
    move_empties = λ x. refl;
    assign_self = λ a m s. ground arith;
    assign_moves = λ a b x y m s ne ea eb.
        (record x { ptr = y.ptr }, record y { ptr = null }, ground arith, refl, refl);
  }

  -- The same for `KvWatcher`: from a safe start, whatever special members run, two watchers never
  -- share a C watcher, a held C watcher is live, and a live one is held.
  pub Reach-Safe_watchers :
      (live : Ptr → S → Bool)
      → Frees (nats.destroy Kind.kv_watcher) live
      → {m : Memory KvWatcher} {s : S} {m' : Memory KvWatcher} {s' : S}
      → Reach handle live m s m' s'
      → Safe handle live m s
      → Safe handle live m' s'
  Reach-Safe_watchers live laws r safe = Reach-Safe handle live handle-IsOwner laws r safe
