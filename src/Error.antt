-- ===== src/Error.antt =====
-- `NatsError` and `std::expected` (include/nats_client/Error.hpp).
use natsclient_cpp.Base.{◌≡◌, ◌≢◌, Text, codes, decimal, ◌++◌}
use natsclient_cpp.Nats.{NatsStatus, Library}

pub record NatsError : Type 0 where
  pub status : NatsStatus
  pub status_text : Text
  pub message : Text

-- The constructor, which asks the library for the text of the status.
unfoldable pub nats_error : {S : Type 0} → Library S → NatsStatus → Text → NatsError
nats_error nats s message = record { status = s; status_text = nats.get_text s; message = message }

-- `std::format` copies the three parts between its own. A status is an enumerator from 0 on, so
-- `(int)status` has no sign.
unfoldable pub to_string : NatsError → Text
unfolding decimal
to_string e =
    codes "NATS error "
    ++ (decimal e.status ++ (codes ": " ++ (e.status_text ++ (codes " - " ++ e.message))))

-- `std::expected<A, NatsError>`
pub data Expected (A : Type 0) : Type 0 where
  expected : A → Expected A
  unexpected : NatsError → Expected A

-- `return {};` of an `expected<void, NatsError>`
abbrev pub success : Expected (Unit {0})
success = expected tt

-- What a caller may read off the result of a wrapped call whose status was `s`: a value means
-- success and fits what the library wrote, and an error carries the status and the library's text
-- for it.
abbrev pub Fits : {S A : Type 0} → Library S → NatsStatus → (A → Type 0) → Expected A → Type 0
Fits nats s V (expected a) = (s ≡ nats.nats_ok) × V a
Fits nats s V (unexpected e) =
    (s ≢ nats.nats_ok) × (e.status ≡ s) × (e.status_text ≡ nats.get_text s)

-- Likewise where the value is nothing, or nothing is said of it.
abbrev pub Reports : {S A : Type 0} → Library S → NatsStatus → Expected A → Type 0
Reports nats s r = Fits nats s (λ _. Unit {0}) r
