-- ===== src/Options/Setters.antt =====
-- Every setter of include/nats_client/Options.hpp with its arguments, run as the class runs it.
use natsclient_cpp.Base.{Bool, ℤ, List, Text}
use natsclient_cpp.Nats.{Library, M, View}
use natsclient_cpp.Options.{NatsOptions, set_servers}
use natsclient_cpp.Options.Texts
use natsclient_cpp.Options.Flags
use natsclient_cpp.Options.Numbers

pub data Setter : Type 0 where
  servers : List Text → Setter
  token : View → Setter
  name : View → Setter
  load_ca_trusted_certificates : View → Setter
  ca_trusted_certificates : View → Setter
  ciphers : View → Setter
  cipher_suites : View → Setter
  url : View → Setter
  expected_hostname : View → Setter
  custom_inbox_prefix : View → Setter
  user_credentials_from_memory : View → Setter
  load_certificates_chain : View → View → Setter
  certificates_chain : View → View → Setter
  user_info : View → View → Setter
  user_credentials_from_file : View → View → Setter
  no_randomize : Bool → Setter
  secure : Bool → Setter
  verbose : Bool → Setter
  skip_server_verification : Bool → Setter
  pedantic : Bool → Setter
  allow_reconnect : Bool → Setter
  send_asap : Bool → Setter
  fail_requests_on_disconnect : Bool → Setter
  no_echo : Bool → Setter
  disable_no_responders : Bool → Setter
  use_global_message_delivery : Bool → Setter
  retry_on_failed_connect : Bool → Setter
  write_deadline : Bool → Setter
  timeout : ℤ → Setter
  ping_interval : ℤ → Setter
  max_pings_out : ℤ → Setter
  io_buffer_size : ℤ → Setter
  max_reconnect : ℤ → Setter
  reconnect_wait : ℤ → Setter
  reconnect_buf_size : ℤ → Setter
  max_pending_msgs : ℤ → Setter
  message_buffer_padding : ℤ → Setter
  ip_resolution_order : ℤ → Setter
  reconnect_jitter : ℤ → ℤ → Setter

module _ {S : Type 0} (nats : Library S) where
  unfoldable pub run_setter : Setter → NatsOptions → M S NatsOptions
  unfolding set_servers Texts.set_token Texts.set_name Texts.load_ca_trusted_certificates
      Texts.set_ca_trusted_certificates Texts.set_ciphers Texts.set_cipher_suites Texts.set_url
      Texts.set_expected_hostname Texts.set_custom_inbox_prefix
      Texts.set_user_credentials_from_memory Texts.load_certificates_chain
      Texts.set_certificates_chain Texts.set_user_info Texts.set_user_credentials_from_file
      Flags.set_no_randomize Flags.set_secure Flags.set_verbose Flags.skip_server_verification
      Flags.set_pedantic Flags.set_allow_reconnect Flags.set_send_asap
      Flags.set_fail_requests_on_disconnect Flags.set_no_echo Flags.disable_no_responders
      Flags.use_global_message_delivery Flags.set_retry_on_failed_connect Flags.set_write_deadline
      Numbers.set_timeout Numbers.set_ping_interval Numbers.set_max_pings_out
      Numbers.set_io_buffer_size Numbers.set_max_reconnect Numbers.set_reconnect_wait
      Numbers.set_reconnect_buf_size Numbers.set_max_pending_msgs Numbers.set_message_buffer_padding
      Numbers.ip_resolution_order Numbers.set_reconnect_jitter
  run_setter (servers list) self = set_servers nats self list
  run_setter (token a) self = Texts.set_token nats self a
  run_setter (name a) self = Texts.set_name nats self a
  run_setter (load_ca_trusted_certificates a) self = Texts.load_ca_trusted_certificates nats self a
  run_setter (ca_trusted_certificates a) self = Texts.set_ca_trusted_certificates nats self a
  run_setter (ciphers a) self = Texts.set_ciphers nats self a
  run_setter (cipher_suites a) self = Texts.set_cipher_suites nats self a
  run_setter (url a) self = Texts.set_url nats self a
  run_setter (expected_hostname a) self = Texts.set_expected_hostname nats self a
  run_setter (custom_inbox_prefix a) self = Texts.set_custom_inbox_prefix nats self a
  run_setter (user_credentials_from_memory a) self =
      Texts.set_user_credentials_from_memory nats self a
  run_setter (load_certificates_chain a b) self = Texts.load_certificates_chain nats self a b
  run_setter (certificates_chain a b) self = Texts.set_certificates_chain nats self a b
  run_setter (user_info a b) self = Texts.set_user_info nats self a b
  run_setter (user_credentials_from_file a b) self =
      Texts.set_user_credentials_from_file nats self a b
  run_setter (no_randomize a) self = Flags.set_no_randomize nats self a
  run_setter (secure a) self = Flags.set_secure nats self a
  run_setter (verbose a) self = Flags.set_verbose nats self a
  run_setter (skip_server_verification a) self = Flags.skip_server_verification nats self a
  run_setter (pedantic a) self = Flags.set_pedantic nats self a
  run_setter (allow_reconnect a) self = Flags.set_allow_reconnect nats self a
  run_setter (send_asap a) self = Flags.set_send_asap nats self a
  run_setter (fail_requests_on_disconnect a) self =
      Flags.set_fail_requests_on_disconnect nats self a
  run_setter (no_echo a) self = Flags.set_no_echo nats self a
  run_setter (disable_no_responders a) self = Flags.disable_no_responders nats self a
  run_setter (use_global_message_delivery a) self = Flags.use_global_message_delivery nats self a
  run_setter (retry_on_failed_connect a) self = Flags.set_retry_on_failed_connect nats self a
  run_setter (write_deadline a) self = Flags.set_write_deadline nats self a
  run_setter (timeout a) self = Numbers.set_timeout nats self a
  run_setter (ping_interval a) self = Numbers.set_ping_interval nats self a
  run_setter (max_pings_out a) self = Numbers.set_max_pings_out nats self a
  run_setter (io_buffer_size a) self = Numbers.set_io_buffer_size nats self a
  run_setter (max_reconnect a) self = Numbers.set_max_reconnect nats self a
  run_setter (reconnect_wait a) self = Numbers.set_reconnect_wait nats self a
  run_setter (reconnect_buf_size a) self = Numbers.set_reconnect_buf_size nats self a
  run_setter (max_pending_msgs a) self = Numbers.set_max_pending_msgs nats self a
  run_setter (message_buffer_padding a) self = Numbers.set_message_buffer_padding nats self a
  run_setter (ip_resolution_order a) self = Numbers.ip_resolution_order nats self a
  run_setter (reconnect_jitter a b) self = Numbers.set_reconnect_jitter nats self a b
