-- ===== src/Kv/KeysList/Keys.antt =====
-- What `KvKeysList::keys` returns.
use mathlib.Core.List.{append-nil, append_assoc}
use native.Mathlib.Nat.{add-zero}
use natsclient_cpp.Base.{
  ℕ, zero, suc, ◌+◌, ◌≤◌, ◌≡◌, refl, sym, ap, ◌∙◌, some, List, [], ◌∷◌, ◌++◌, Text, length, take,
  get_elem?, arith,
}
use natsclient_cpp.Nats.{Ptr, CKeysList, Library, ok}
use natsclient_cpp.Kv.KeysList.{KvKeysList, keys_loop, rounds, keys}

module _ {S : Type 0} (nats : Library S) where
  -- The array at `p` holds the texts `ks`, from the index `i` on.
  abbrev pub ArrayFrom : Ptr → ℕ → List Text → S → Type 0
  ArrayFrom p i ks s =
      (j : ℕ) (k : Text) → get_elem? ks j ≡ some k → nats.key_at p (i + j) s ≡ some (some k)

  ArrayFrom-tail :
      (p : Ptr) (i : ℕ) (k : Text) (ks : List Text) (s : S)
      → ArrayFrom p i (k ∷ ks) s
      → ArrayFrom p (i + 1) ks s
  ArrayFrom-tail p i k ks s at j l e = ap (λ n. nats.key_at p n s) (omega arith) ∙ at (suc j) l e

  keys_loop-take :
      (kl : CKeysList) (n i : ℕ) (acc ks : List Text) (s : S)
      → ArrayFrom kl.keys i ks s
      → n ≤ length ks
      → keys_loop nats kl n i acc s ≡ ok (acc ++ take n ks) s
  unfolding keys_loop
  keys_loop-take kl zero i acc ks s at h = rw append-nil
  keys_loop-take kl (suc n) i acc [] s at h = absurd (omega arith)
  keys_loop-take kl (suc n) i acc (k ∷ ks) s at h =
      rw (ap (λ j. nats.key_at kl.keys j s) (sym (add-zero i)) ∙ at 0 k refl) (
        keys_loop-take kl n (i + 1) (acc ++ k ∷ []) ks s (ArrayFrom-tail kl.keys i k ks s at)
          (omega arith)
        ∙ ap (λ l. ok l s) (append_assoc acc (k ∷ []) (take n ks)))

  -- If the array holds the texts `ks` and the count does not pass their number, `keys` returns the
  -- first `count` texts, in order, each once, and leaves the library alone; a negative count gives
  -- no keys.
  pub keys-take :
      (self : KvKeysList) (ks : List Text) (s : S)
      → ArrayFrom self.kl.keys 0 ks s
      → rounds self.kl.count ≤ length ks
      → keys nats self s ≡ ok (take (rounds self.kl.count) ks) s
  unfolding keys
  keys-take self ks s at h = keys_loop-take self.kl (rounds self.kl.count) 0 [] ks s at h
