-- ===== src/Kv/KeysList.antt =====
-- `KvKeysList` (include/nats_client/Kv.hpp): the keys of a bucket.
pub mod Ownership
pub mod Keys
use natsclient_cpp.Base.{
  ℕ, zero, suc, ◌+◌, ℤ, pos, negsuc, Option, none, some, List, [], ◌∷◌, ◌++◌, Text, ◌==◌, ◌!=◌,
  if◌then◌else◌,
}
use natsclient_cpp.Nats.{
  null, Kind, CKeysList, Library, M, pure, ◌>>=◌, ◌>>◌, reading, effect, found,
}
use natsclient_cpp.Handle.{Addr, Memory, put, object}

pub record KvKeysList : Type 0 where
  pub kl : CKeysList

abbrev no_keys : CKeysList
no_keys = record { keys = null; count = pos 0 }

unfoldable pub construct : KvKeysList
construct = record { kl = no_keys }

-- The new object, and the one that it was moved from.
unfoldable pub move_construct : KvKeysList → KvKeysList × KvKeysList
move_construct other =
    (record { kl = other.kl }, record { kl = record { keys = null; count = pos 0 } })

-- The rounds of `for (int i = 0; i < count; i++)`.
abbrev pub rounds : ℤ → ℕ
rounds (pos n) = n
rounds (negsuc n) = 0

module _ {S : Type 0} (nats : Library S) where
  -- `kvKeysList_Destroy(&kl)` frees the array and its keys.
  unfoldable pub destruct : KvKeysList → M S KvKeysList
  destruct self =
      if self.kl.keys != null
      then (do
        effect (nats.destroy Kind.kv_keys_list self.kl.keys)
        pure (record { kl = record { keys = null; count = pos 0 } }))
      else pure self

  unfoldable pub move_assign : Addr → Addr → Memory KvKeysList → M S (Memory KvKeysList)
  move_assign this other m =
      if this != other
      then (do
        self ← object m this
        if self.kl.keys != null
            then effect (nats.destroy Kind.kv_keys_list self.kl.keys)
            else pure tt
        from ← object m other
        pure (
            put (put m this (some (record { kl = from.kl }))) other
              (some (record { kl = record { keys = null; count = pos 0 } }))))
      else pure m

  -- The rounds `i`, `i + 1`, … that are left. A `string` is made of each text, and of NULL by no
  -- defined way.
  keys_loop : CKeysList → ℕ → ℕ → List Text → M S (List Text)
  keys_loop kl zero i keys = pure keys
  keys_loop kl (suc rounds) i keys = do
    entry ← reading (nats.key_at kl.keys i)
    text ← found entry
    key ← found text
    keys_loop kl rounds (i + 1) (keys ++ key ∷ [])

  unfoldable pub keys : KvKeysList → M S (List Text)
  unfolding keys_loop
  keys self = keys_loop self.kl (rounds self.kl.count) 0 []
