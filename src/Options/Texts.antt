-- ===== src/Options/Texts.antt =====
-- The setters of include/nats_client/Options.hpp that take texts, which go on by `data()`.
use natsclient_cpp.Nats.{OptionCall, Library, M, ◌>>=◌, View, c_string}
use natsclient_cpp.Options.{NatsOptions, apply}

module _ {S : Type 0} (nats : Library S) where
  unfoldable pub set_token : NatsOptions → View → M S NatsOptions
  unfolding apply c_string
  set_token self token = do t ← c_string token; apply nats (OptionCall.set_token t) self

  unfoldable pub set_name : NatsOptions → View → M S NatsOptions
  unfolding apply c_string
  set_name self name = do t ← c_string name; apply nats (OptionCall.set_name t) self

  unfoldable pub load_ca_trusted_certificates : NatsOptions → View → M S NatsOptions
  unfolding apply c_string
  load_ca_trusted_certificates self file_name = do
    t ← c_string file_name
    apply nats (OptionCall.load_ca_trusted_certificates t) self

  unfoldable pub set_ca_trusted_certificates : NatsOptions → View → M S NatsOptions
  unfolding apply c_string
  set_ca_trusted_certificates self certificates = do
    t ← c_string certificates
    apply nats (OptionCall.set_ca_trusted_certificates t) self

  unfoldable pub set_ciphers : NatsOptions → View → M S NatsOptions
  unfolding apply c_string
  set_ciphers self ciphers = do t ← c_string ciphers; apply nats (OptionCall.set_ciphers t) self

  unfoldable pub set_cipher_suites : NatsOptions → View → M S NatsOptions
  unfolding apply c_string
  set_cipher_suites self ciphers = do
    t ← c_string ciphers
    apply nats (OptionCall.set_cipher_suites t) self

  unfoldable pub set_url : NatsOptions → View → M S NatsOptions
  unfolding apply c_string
  set_url self url = do t ← c_string url; apply nats (OptionCall.set_url t) self

  unfoldable pub set_expected_hostname : NatsOptions → View → M S NatsOptions
  unfolding apply c_string
  set_expected_hostname self hostname = do
    t ← c_string hostname
    apply nats (OptionCall.set_expected_hostname t) self

  unfoldable pub set_custom_inbox_prefix : NatsOptions → View → M S NatsOptions
  unfolding apply c_string
  set_custom_inbox_prefix self prefix = do
    t ← c_string prefix
    apply nats (OptionCall.set_custom_inbox_prefix t) self

  unfoldable pub set_user_credentials_from_memory : NatsOptions → View → M S NatsOptions
  unfolding apply c_string
  set_user_credentials_from_memory self jwt_and_seed_content = do
    t ← c_string jwt_and_seed_content
    apply nats (OptionCall.set_user_credentials_from_memory t) self

  unfoldable pub load_certificates_chain : NatsOptions → View → View → M S NatsOptions
  unfolding apply c_string
  load_certificates_chain self certs_file_name key_file_name = do
    t ← c_string certs_file_name
    u ← c_string key_file_name
    apply nats (OptionCall.load_certificates_chain t u) self

  unfoldable pub set_certificates_chain : NatsOptions → View → View → M S NatsOptions
  unfolding apply c_string
  set_certificates_chain self cert key = do
    t ← c_string cert
    u ← c_string key
    apply nats (OptionCall.set_certificates_chain t u) self

  unfoldable pub set_user_info : NatsOptions → View → View → M S NatsOptions
  unfolding apply c_string
  set_user_info self username password = do
    t ← c_string username
    u ← c_string password
    apply nats (OptionCall.set_user_info t u) self

  unfoldable pub set_user_credentials_from_file : NatsOptions → View → View → M S NatsOptions
  unfolding apply c_string
  set_user_credentials_from_file self user_or_chained_file seed_file = do
    t ← c_string user_or_chained_file
    u ← c_string seed_file
    apply nats (OptionCall.set_user_credentials_from_files t u) self
