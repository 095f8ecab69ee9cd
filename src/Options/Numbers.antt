-- ===== src/Options/Numbers.antt =====
-- The setters of include/nats_client/Options.hpp that take an `int` or an `int64_t`.
use natsclient_cpp.Base.{ℤ}
use natsclient_cpp.Nats.{OptionCall, Library, M}
use natsclient_cpp.Options.{NatsOptions, apply}

module _ {S : Type 0} (nats : Library S) where
  unfoldable pub set_timeout : NatsOptions → ℤ → M S NatsOptions
  unfolding apply
  set_timeout self timeout_ms = apply nats (OptionCall.set_timeout timeout_ms) self

  unfoldable pub set_ping_interval : NatsOptions → ℤ → M S NatsOptions
  unfolding apply
  set_ping_interval self interval_ms = apply nats (OptionCall.set_ping_interval interval_ms) self

  unfoldable pub set_max_pings_out : NatsOptions → ℤ → M S NatsOptions
  unfolding apply
  set_max_pings_out self max_pings_out =
      apply nats (OptionCall.set_max_pings_out max_pings_out) self

  unfoldable pub set_io_buffer_size : NatsOptions → ℤ → M S NatsOptions
  unfolding apply
  set_io_buffer_size self io_buffer_size =
      apply nats (OptionCall.set_io_buf_size io_buffer_size) self

  unfoldable pub set_max_reconnect : NatsOptions → ℤ → M S NatsOptions
  unfolding apply
  set_max_reconnect self max_reconnect =
      apply nats (OptionCall.set_max_reconnect max_reconnect) self

  unfoldable pub set_reconnect_wait : NatsOptions → ℤ → M S NatsOptions
  unfolding apply
  set_reconnect_wait self wait_ms = apply nats (OptionCall.set_reconnect_wait wait_ms) self

  unfoldable pub set_reconnect_buf_size : NatsOptions → ℤ → M S NatsOptions
  unfolding apply
  set_reconnect_buf_size self reconnect_buffer_size =
      apply nats (OptionCall.set_reconnect_buf_size reconnect_buffer_size) self

  unfoldable pub set_max_pending_msgs : NatsOptions → ℤ → M S NatsOptions
  unfolding apply
  set_max_pending_msgs self max_pending =
      apply nats (OptionCall.set_max_pending_msgs max_pending) self

  unfoldable pub set_message_buffer_padding : NatsOptions → ℤ → M S NatsOptions
  unfolding apply
  set_message_buffer_padding self padding_size =
      apply nats (OptionCall.set_message_buffer_padding padding_size) self

  unfoldable pub ip_resolution_order : NatsOptions → ℤ → M S NatsOptions
  unfolding apply
  ip_resolution_order self order = apply nats (OptionCall.ip_resolution_order order) self

  unfoldable pub set_reconnect_jitter : NatsOptions → ℤ → ℤ → M S NatsOptions
  unfolding apply
  set_reconnect_jitter self jitter_ms jitter_tls_ms =
      apply nats (OptionCall.set_reconnect_jitter jitter_ms jitter_tls_ms) self
