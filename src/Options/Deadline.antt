-- ===== src/Options/Deadline.antt =====
-- The write deadline of include/nats_client/Options.hpp.
use natsclient_cpp.Base.{refl, ◌≡◌, ◌≢◌, Bool, true, false, ℤ, pos, negsuc, zero, suc}
use natsclient_cpp.Nats.{OptionCall, Library}
use natsclient_cpp.Options.{NatsOptions, apply}
use natsclient_cpp.Options.Flags.{set_write_deadline}

-- The conversion that C++ makes where an integer is passed for a `bool`.
unfoldable pub bool_of_int64 : ℤ → Bool
bool_of_int64 (pos zero) = false
bool_of_int64 (pos (suc n)) = true
bool_of_int64 (negsuc n) = true

module _ {S : Type 0} (nats : Library S) where
  -- Whatever number of milliseconds other than 0 is passed to `set_write_deadline`, the library is
  -- asked for a deadline of 1 millisecond.
  pub set_write_deadline-one :
      (self : NatsOptions) (deadline_ms : ℤ)
      → deadline_ms ≢ pos 0
      → set_write_deadline nats self (bool_of_int64 deadline_ms)
        ≡ apply nats (OptionCall.set_write_deadline (pos 1)) self
  unfolding set_write_deadline bool_of_int64
  set_write_deadline-one self (pos zero) h = absurd (h refl)
  set_write_deadline-one self (pos (suc n)) h = refl
  set_write_deadline-one self (negsuc n) h = refl
