-- ===== src/Options/Flags.antt =====
-- The setters of include/nats_client/Options.hpp that take a `bool`.
use natsclient_cpp.Base.{Bool, ℤ, pos, if◌then◌else◌}
use natsclient_cpp.Nats.{null, OptionCall, Library, M}
use natsclient_cpp.Options.{NatsOptions, apply}

-- A `bool` where C takes an `int64_t`.
abbrev pub int64_of_bool : Bool → ℤ
int64_of_bool b = pos (if b then 1 else 0)

module _ {S : Type 0} (nats : Library S) where
  unfoldable pub set_no_randomize : NatsOptions → Bool → M S NatsOptions
  unfolding apply
  set_no_randomize self no_randomize = apply nats (OptionCall.set_no_randomize no_randomize) self

  unfoldable pub set_secure : NatsOptions → Bool → M S NatsOptions
  unfolding apply
  set_secure self secure = apply nats (OptionCall.set_secure secure) self

  unfoldable pub set_verbose : NatsOptions → Bool → M S NatsOptions
  unfolding apply
  set_verbose self verbose = apply nats (OptionCall.set_verbose verbose) self

  unfoldable pub skip_server_verification : NatsOptions → Bool → M S NatsOptions
  unfolding apply
  skip_server_verification self skip = apply nats (OptionCall.skip_server_verification skip) self

  unfoldable pub set_pedantic : NatsOptions → Bool → M S NatsOptions
  unfolding apply
  set_pedantic self pedantic = apply nats (OptionCall.set_pedantic pedantic) self

  unfoldable pub set_allow_reconnect : NatsOptions → Bool → M S NatsOptions
  unfolding apply
  set_allow_reconnect self allow_reconnect =
      apply nats (OptionCall.set_allow_reconnect allow_reconnect) self

  unfoldable pub set_send_asap : NatsOptions → Bool → M S NatsOptions
  unfolding apply
  set_send_asap self send_asap = apply nats (OptionCall.set_send_asap send_asap) self

  unfoldable pub set_fail_requests_on_disconnect : NatsOptions → Bool → M S NatsOptions
  unfolding apply
  set_fail_requests_on_disconnect self fail_requests =
      apply nats (OptionCall.set_fail_requests_on_disconnect fail_requests) self

  unfoldable pub set_no_echo : NatsOptions → Bool → M S NatsOptions
  unfolding apply
  set_no_echo self no_echo = apply nats (OptionCall.set_no_echo no_echo) self

  unfoldable pub disable_no_responders : NatsOptions → Bool → M S NatsOptions
  unfolding apply
  disable_no_responders self disabled = apply nats (OptionCall.disable_no_responders disabled) self

  unfoldable pub use_global_message_delivery : NatsOptions → Bool → M S NatsOptions
  unfolding apply
  use_global_message_delivery self global =
      apply nats (OptionCall.use_global_message_delivery global) self

  -- The two parameters of the callback are NULL.
  unfoldable pub set_retry_on_failed_connect : NatsOptions → Bool → M S NatsOptions
  unfolding apply
  set_retry_on_failed_connect self retry =
      apply nats (OptionCall.set_retry_on_failed_connect retry null null) self

  -- The parameter is declared `bool`.
  unfoldable pub set_write_deadline : NatsOptions → Bool → M S NatsOptions
  unfolding apply
  set_write_deadline self deadline_ms =
      apply nats (OptionCall.set_write_deadline (int64_of_bool deadline_ms)) self
