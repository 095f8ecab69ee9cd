-- ===== src/Nats/Calls.antt =====
-- The C functions that the headers call, as data: a constructor for each function, with its
-- arguments. The name of the type gives the function's prefix.
use natsclient_cpp.Base.{ℕ, Bool, ℤ, List, Option, Text}

-- A pointer to an object of the C library. NULL is 0.
abbrev pub Ptr : Type 0
Ptr = ℕ

abbrev pub null : Ptr
null = 0

-- The value of an enumerator of `natsStatus`.
abbrev pub NatsStatus : Type 0
NatsStatus = ℕ

-- What C reads at a `const char*`: nothing if it is NULL, else the bytes before the first NUL.
abbrev pub CString : Type 0
CString = Option Text

-- What lies at a pointer to data: nothing if it is NULL, else the bytes of the allocation from
-- there on.
abbrev pub Data : Type 0
Data = Option Text

-- The kinds of objects that the library hands out and takes back by a function of their own.
pub data Kind : Type 0 where
  options connection js_ctx subscription msg kv_store kv_entry kv_watcher kv_keys_list : Kind

-- The callbacks that a client registers.
pub data Callback : Type 0 where
  disconnected_callback reconnected_callback closed_callback error_handler_callback : Callback

-- natsOptions_…
pub data OptionCall : Type 0 where
  set_url : CString → OptionCall
  -- the array, and the count
  set_servers : List CString → ℕ → OptionCall
  set_user_info : CString → CString → OptionCall
  set_token : CString → OptionCall
  set_no_randomize : Bool → OptionCall
  set_timeout : ℤ → OptionCall
  set_name : CString → OptionCall
  set_secure : Bool → OptionCall
  load_ca_trusted_certificates : CString → OptionCall
  set_ca_trusted_certificates : CString → OptionCall
  load_certificates_chain : CString → CString → OptionCall
  set_certificates_chain : CString → CString → OptionCall
  set_ciphers : CString → OptionCall
  set_cipher_suites : CString → OptionCall
  set_expected_hostname : CString → OptionCall
  skip_server_verification : Bool → OptionCall
  set_verbose : Bool → OptionCall
  set_pedantic : Bool → OptionCall
  set_ping_interval : ℤ → OptionCall
  set_max_pings_out : ℤ → OptionCall
  set_io_buf_size : ℤ → OptionCall
  set_allow_reconnect : Bool → OptionCall
  set_max_reconnect : ℤ → OptionCall
  set_reconnect_wait : ℤ → OptionCall
  set_reconnect_jitter : ℤ → ℤ → OptionCall
  set_reconnect_buf_size : ℤ → OptionCall
  set_max_pending_msgs : ℤ → OptionCall
  set_callback : Callback → Ptr → OptionCall
  use_global_message_delivery : Bool → OptionCall
  ip_resolution_order : ℤ → OptionCall
  set_send_asap : Bool → OptionCall
  set_fail_requests_on_disconnect : Bool → OptionCall
  set_no_echo : Bool → OptionCall
  set_retry_on_failed_connect : Bool → Ptr → Ptr → OptionCall
  set_user_credentials_from_files : CString → CString → OptionCall
  set_user_credentials_from_memory : CString → OptionCall
  set_write_deadline : ℤ → OptionCall
  disable_no_responders : Bool → OptionCall
  set_custom_inbox_prefix : CString → OptionCall
  set_message_buffer_padding : ℤ → OptionCall

-- Functions that return a `natsStatus` and write nothing back.
pub data StatusCall : Type 0 where
  option : Ptr → OptionCall → StatusCall
  -- natsConnection_Publish
  publish : Ptr → CString → Data → ℕ → StatusCall
  -- natsSubscription_…
  unsubscribe : Ptr → StatusCall
  auto_unsubscribe : Ptr → ℤ → StatusCall
  no_delivery_delay : Ptr → StatusCall
  drain : Ptr → StatusCall
  drain_timeout : Ptr → ℤ → StatusCall
  wait_for_drain_completion : Ptr → ℤ → StatusCall
  drain_completion_status : Ptr → StatusCall
  set_pending_limits : Ptr → ℤ → ℤ → StatusCall
  -- js_DeleteKeyValue
  delete_key_value : Ptr → CString → StatusCall
  -- kvStore_…; the first argument points to the revision to write, and is NULL everywhere
  kv_create : Ptr → Ptr → CString → Data → ℕ → StatusCall
  kv_create_string : Ptr → Ptr → CString → CString → StatusCall
  kv_put : Ptr → Ptr → CString → Data → ℕ → StatusCall
  kv_put_string : Ptr → Ptr → CString → CString → StatusCall
  kv_delete : Ptr → CString → StatusCall
  -- kvWatcher_Stop
  watcher_stop : Ptr → StatusCall

-- `kvConfig`: the field that the wrapper writes, and the bytes of the others.
pub record KvConfig : Type 0 where
  pub bucket : CString
  pub others : Text

-- `jsOptions`, likewise.
pub record JsOptions : Type 0 where
  pub publish_async_max_pending : ℤ
  pub others : Text

-- `kvWatchOptions`: the wrapper reads and writes none of its fields.
abbrev pub KvWatchOptions : Type 0
KvWatchOptions = Text

-- `kvKeysList`: the array of keys, and how many there are.
pub record CKeysList : Type 0 where
  pub keys : Ptr
  pub count : ℤ

-- Functions that return a `natsStatus` and write a pointer back.
pub data HandleCall : Type 0 where
  -- natsOptions_Create
  options_create : HandleCall
  -- natsConnection_Connect, _JetStream, _SubscribeSync and _QueueSubscribeSync
  connect : Ptr → HandleCall
  jet_stream : Ptr → JsOptions → HandleCall
  subscribe_sync : Ptr → CString → HandleCall
  queue_subscribe_sync : Ptr → CString → CString → HandleCall
  -- natsSubscription_NextMsg
  next_msg : Ptr → ℤ → HandleCall
  -- js_CreateKeyValue and js_KeyValue
  create_key_value : Ptr → KvConfig → HandleCall
  key_value : Ptr → CString → HandleCall
  -- kvStore_Get, kvStore_Watch and kvWatcher_Next
  kv_get : Ptr → CString → HandleCall
  kv_watch : Ptr → CString → Option KvWatchOptions → HandleCall
  watcher_next : Ptr → ℤ → HandleCall

-- natsSubscription_…: a count is written back
pub data CounterCall : Type 0 where
  queued_msgs get_delivered get_dropped : Ptr → CounterCall

-- natsSubscription_…: messages and bytes are written back
pub data LimitsCall : Type 0 where
  get_max_pending get_pending get_pending_limits : Ptr → LimitsCall

-- Functions that return a text of the library's.
pub data TextCall : Type 0 where
  subscription_subject msg_subject store_bucket entry_bucket entry_key entry_value_string :
      Ptr → TextCall

-- Functions that return a number.
pub data NumberCall : Type 0 where
  max_payload subscription_id entry_revision entry_created entry_delta entry_operation :
      Ptr → NumberCall

-- Functions that return data, and those that return its size.
pub data DataCall : Type 0 where
  msg_data entry_value : Ptr → DataCall
