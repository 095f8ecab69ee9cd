-- ===== src/Kv/KeysList/Ownership.antt =====
-- Who frees the lists of keys of Kv.hpp.
use natsclient_cpp.Base.{◌!=◌, if◌then◌else◌, ◌≡◌, refl, Bool, arith}
use natsclient_cpp.Nats.{null, Ptr, Kind, Library}
use natsclient_cpp.Handle.{Memory, Handle, IsOwner}
use natsclient_cpp.Handle.Abstract.{Frees}
use natsclient_cpp.Handle.Ownership.{Reach, Safe, Reach-Safe}
use natsclient_cpp.Kv.KeysList.{KvKeysList, construct, destruct, move_construct, move_assign}

module _ {S : Type 0} (nats : Library S) where
  abbrev pub handle : Handle S KvKeysList
  handle = record {
    owned = λ x. x.kl.keys;
    destroy = nats.destroy Kind.kv_keys_list;
    Constructed = λ p x. x.kl.keys ≡ p;
    destruct = destruct nats;
    move_construct = move_construct;
    move_assign = move_assign nats;
  }

  pub handle-IsOwner : IsOwner handle
  unfolding construct destruct move_construct move_assign
  handle-IsOwner = record {
    constructed_owns = λ p x e. e;
    destruct_releases =
        λ x s. (if x.kl.keys != null then construct else x, ground arith, ground arith);
    move_gives = λ x. refl;
    move_empties = λ x. refl;
    assign_self = λ a m s. ground arith;
    assign_moves =
        λ a b x y m s ne ea eb. (record { kl = y.kl }, construct, ground arith, refl, refl);
  }

  -- From a safe start, after any run of the special members of `KvKeysList`, empty lists included,
  -- an array of keys that is live has one list that holds it, and a held array is live.
  pub Reach-Safe_keys :
      (live : Ptr → S → Bool)
      → Frees (nats.destroy Kind.kv_keys_list) live
      → {m : Memory KvKeysList} {s : S} {m' : Memory KvKeysList} {s' : S}
      → Reach handle live m s m' s'
      → Safe handle live m s
      → Safe handle live m' s'
  Reach-Safe_keys live laws r safe = Reach-Safe handle live handle-IsOwner laws r safe
