-- ===== src/Tests.antt =====
-- A small C library to run the wrapper against, and the theorems at concrete data.
mod Handles
mod Waiting
mod Lifetimes
mod Requests
mod Programs
mod Threads
mod Schedules
mod Heaps
mod Sharing
mod Latency
use natsclient_cpp.Base.{
  ℕ, ◌+◌, ◌≡◌, refl, Bool, true, false, ◌&&◌, ℤ, pos, none, some, [], codes, arith, ltb, ◌==◌, ◌!=◌,
  if◌then◌else◌, Text, List, ◌∷◌, get_elem?,
}
use natsclient_cpp.Nats.{Ptr, NatsStatus, CString, Library, StatusCall, KvConfig, CKeysList}

-- The handles that were handed out are those below `next`; some are still alive. `calls` is the log.
pub record State : Type 0 where
  pub next : ℕ
  pub alive : ℕ → Bool
  pub calls : List StatusCall

abbrev pub start : State
start = record { next = 1; alive = λ _. false; calls = [] }

abbrev pub live : Ptr → State → Bool
live p s = ltb p s.next && s.alive p

abbrev pub set_alive : Ptr → Bool → State → State
set_alive p b s = record s { alive = λ q. if p == q then b else s.alive q }

-- A new handle, if the status is a success.
abbrev pub hand_out : NatsStatus → Ptr → State → NatsStatus × Ptr × State
hand_out st old s =
    if st == 0
    then (
      0,
      s.next,
      record s { next = s.next + 1; alive = λ q. if s.next == q then true else s.alive q },
    )
    else (st, old, s)

abbrev pub key_names : List Text
key_names = codes "a" ∷ codes "b" ∷ []

-- Every call answers `st`, and every text is `name`.
abbrev pub library : NatsStatus → CString → Library State
library st name = record {
  nats_ok = 0;
  nats_invalid_arg = 18;
  get_text = λ s. if s == 0 then codes "OK" else codes "Failure";
  call = λ c s. (st, record s { calls = c ∷ s.calls });
  open_handle = λ h old s. hand_out st old s;
  destroy = λ k p s. set_alive p false s;
  counter = λ c old s. (st, pos 7, s);
  limits = λ c a b s. (st, pos 3, pos 40, s);
  text = λ c s. name;
  number = λ c s. pos 5;
  data_at = λ c s. some (codes "payload");
  data_size = λ c s. 7;
  is_valid = λ p s. live p s;
  js_options_init = λ o s. (st, record { publish_async_max_pending = pos 0; others = [] }, s);
  kv_config_init = λ s. (st, record { bucket = none; others = codes "cfg" }, s);
  kv_watch_options_init = λ s. (st, [], s);
  keys = λ p o l s. (st, record { keys = 9; count = pos 2 }, s);
  close = λ s. s;
  key_at = λ p i s. elim (get_elem? key_names i) [ none ↦ none | some k ↦ some (some k) ];
}
