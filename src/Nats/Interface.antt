-- ===== src/Nats/Interface.antt =====
-- The C library as a parameter, over a state of its own.
use natsclient_cpp.Base.{ℕ, Bool, ℤ, Option, Text}
use natsclient_cpp.Nats.Calls.{
  Ptr, NatsStatus, CString, Data, Kind, StatusCall, HandleCall, CounterCall, LimitsCall, TextCall,
  NumberCall, DataCall, KvConfig, JsOptions, KvWatchOptions, CKeysList,
}

-- A call takes the library's state to the next. An argument that C takes by address comes in with
-- the value that the caller's variable has, and goes out with the value that it has then.
pub record Library (S : Type 0) : Type 0 where
  pub nats_ok : NatsStatus
  pub nats_invalid_arg : NatsStatus
  -- natsStatus_GetText, which has a text for every status
  pub get_text : NatsStatus → Text
  pub call : StatusCall → S → NatsStatus × S
  pub open_handle : HandleCall → Ptr → S → NatsStatus × Ptr × S
  pub destroy : Kind → Ptr → S → S
  pub counter : CounterCall → ℤ → S → NatsStatus × ℤ × S
  pub limits : LimitsCall → ℤ → ℤ → S → NatsStatus × ℤ × ℤ × S
  pub text : TextCall → S → CString
  pub number : NumberCall → S → ℤ
  pub data_at : DataCall → S → Data
  pub data_size : DataCall → S → ℕ
  -- natsSubscription_IsValid
  pub is_valid : Ptr → S → Bool
  pub js_options_init : Option JsOptions → S → NatsStatus × JsOptions × S
  pub kv_config_init : S → NatsStatus × KvConfig × S
  pub kv_watch_options_init : S → NatsStatus × KvWatchOptions × S
  -- kvStore_Keys
  pub keys : Ptr → Option KvWatchOptions → CKeysList → S → NatsStatus × CKeysList × S
  -- the array of a keys list read at an index; `none` is a read past its end
  pub key_at : Ptr → ℕ → S → Option CString
  -- nats_Close
  pub close : S → S
