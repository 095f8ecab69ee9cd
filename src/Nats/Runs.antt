-- ===== src/Nats/Runs.antt =====
-- Runs of C++ code over the library's state. A run that C++ leaves undefined (a read of memory that
-- is not there) has no outcome.
use natsclient_cpp.Base.{◌≡◌, Option, none, some}

pub data Run (S A : Type 0) : Type 0 where
  ok : A → S → Run S A
  undefined : Run S A

abbrev pub M : Type 0 → Type 0 → Type 0
M S A = S → Run S A

module _ {S A : Type 0} where
  abbrev pub pure : A → M S A
  pure = ok

  abbrev pub and_then : {B : Type 0} → Run S A → (A → M S B) → Run S B
  and_then (ok a s) k = k a s
  and_then undefined k = undefined

module _ {S A B : Type 0} where
  infixl 5 ◌>>=◌
  abbrev pub ◌>>=◌ : M S A → (A → M S B) → M S B
  m >>= k = λ s. and_then (m s) k

module _ {S B : Type 0} where
  infixl 5 ◌>>◌
  abbrev pub ◌>>◌ : M S (Unit {0}) → M S B → M S B
  m >> k = m >>= λ _. k

module _ {S : Type 0} where
  -- A call that returns one value, or a value and what it writes back.
  abbrev pub returning : {A : Type 0} → (S → A × S) → M S A
  returning f s = let r = f s in ok r.0 r.1

  abbrev pub writing : {A B : Type 0} → (S → A × B × S) → M S (A × B)
  writing f s = let r = f s in ok (r.0, r.1) r.2

  abbrev pub writing_two : {A B C : Type 0} → (S → A × B × C × S) → M S (A × B × C)
  writing_two f s = let r = f s in ok (r.0, r.1, r.2) r.3

  abbrev pub reading : {A : Type 0} → (S → A) → M S A
  reading f s = ok (f s) s

  abbrev pub effect : (S → S) → M S (Unit {0})
  effect f s = ok tt (f s)

  -- A read that is undefined where there is nothing.
  abbrev pub found : {A : Type 0} → Option A → M S A
  found none = λ _. undefined
  found (some a) = pure a

module _ {S A : Type 0} {a b : A} {s t : S} where
  pub ok-value : ok a s ≡ ok b t → a ≡ b
  ok-value e = cc

  pub ok-state : ok a s ≡ ok b t → s ≡ t
  ok-state e = cc

-- The run is defined, and its value and state satisfy the condition.
abbrev pub Returns : {S A : Type 0} → (A → S → Type 0) → Run S A → Type 0
Returns P (ok a s) = P a s
Returns P undefined = ⊥

module _ {S A : Type 0} {P : A → S → Type 0} where
  pub Returns-mono :
      (Q : A → S → Type 0) (run : Run S A)
      → Returns P run
      → ((a : A) (s : S) → P a s → Q a s)
      → Returns Q run
  Returns-mono Q (ok a s) h weaken = weaken a s h
  Returns-mono Q undefined h weaken = h

  pub Returns-and_then :
      {B : Type 0} (Q : B → S → Type 0) (run : Run S A) (k : A → M S B)
      → Returns P run
      → ((a : A) (s : S) → P a s → Returns Q (k a s))
      → Returns Q (and_then run k)
  Returns-and_then Q (ok a s) k h next = next a s h
  Returns-and_then Q undefined k h next = absurd h
