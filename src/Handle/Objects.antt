-- ===== src/Handle/Objects.antt =====
-- Where objects of one class live.
use natsclient_cpp.Base.{ℕ, Option, ◌==◌, if◌then◌else◌}
use natsclient_cpp.Nats.{M, found}

abbrev pub Addr : Type 0
Addr = ℕ

-- `none`: no object is alive at the address.
abbrev pub Memory : Type 0 → Type 0
Memory A = Addr → Option A

module _ {A : Type 0} where
  abbrev pub put : Memory A → Addr → Option A → Memory A
  put m a o b = if a == b then o else m b

  -- A read of an object that is not alive is undefined.
  abbrev pub object : {S : Type 0} → Memory A → Addr → M S A
  object m a = found (m a)
