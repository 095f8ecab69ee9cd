-- ===== src/Tests/Heaps.antt =====
-- A program over the whole of the wrapper, against a library that knows the kinds of its handles.
use natsclient_cpp.Base.{
  ℕ, ◌+◌, Bool, true, ◌&&◌, pos, none, some, [], codes, ltb, ◌==◌, if◌then◌else◌,
}
use natsclient_cpp.Nats.{Ptr, null, Kind, Library}
use natsclient_cpp.Handle.{put}
use natsclient_cpp.SubscriptionSync
use natsclient_cpp.SubscriptionSync.{NatsSubscriptionSync}
use natsclient_cpp.Client.{NatsClient}
use natsclient_cpp.Heap.{Heap}
use natsclient_cpp.Heap.Documents.{Documents, opened}
use natsclient_cpp.Heap.Frames.{number}

-- The handles that were handed out are those up to `last`; each has the number of its kind, or 9 when
-- it has been given back.
record State : Type 0 where
  last : ℕ
  kinds : Ptr → ℕ

abbrev live : Kind → Ptr → State → Bool
live k p s = ltb p (s.last + 1) && (s.kinds p == number k)

abbrev set_kind : Ptr → ℕ → (Ptr → ℕ) → Ptr → ℕ
set_kind p n l q = if p == q then n else l q

abbrev hand_out : Kind → State → ℕ × Ptr × State
hand_out k s =
    (0, s.last + 1, record { last = s.last + 1; kinds = set_kind (s.last + 1) (number k) s.kinds })

abbrev give_back : Kind → Ptr → State → State
give_back k p s = if s.kinds p == number k then record s { kinds = set_kind p 9 s.kinds } else s

-- Every call succeeds.
abbrev nats : Library State
nats = record {
  nats_ok = 0;
  nats_invalid_arg = 18;
  get_text = λ s. codes "OK";
  call = λ c s. (0, s);
  open_handle = λ c old s. hand_out (opened c) s;
  destroy = give_back;
  counter = λ c old s. (0, pos 7, s);
  limits = λ c a b s. (0, pos 3, pos 40, s);
  text = λ c s. some (codes "name");
  number = λ c s. pos 5;
  data_at = λ c s. some (codes "payload");
  data_size = λ c s. 7;
  is_valid = λ p s. true;
  js_options_init = λ o s. (0, record { publish_async_max_pending = pos 0; others = [] }, s);
  kv_config_init = λ s. (0, record { bucket = none; others = codes "cfg" }, s);
  kv_watch_options_init = λ s. (0, [], s);
  keys = λ p o l s.
      let out = hand_out Kind.kv_keys_list s in (0, record { keys = out.1; count = pos 0 }, out.2);
  close = λ s. s;
  key_at = λ p i s. none;
}

abbrev start : State
start = record { last = 0; kinds = λ p. 9 }

abbrev nothing_yet : Heap
nothing_yet = record {
  clients = λ a. none;
  subscriptions = λ a. none;
  messages = λ a. none;
  buckets = λ a. none;
  entries = λ a. none;
  watchers = λ a. none;
  key_lists = λ a. none;
}

-- A new client, then with an option set, and then connected.
abbrev fresh_client : NatsClient
fresh_client = record {
  conn = null;
  opts = record { ptr = 1; s = none };
  js = null;
  s = none;
  js_opts = none;
}

abbrev ready_client : NatsClient
ready_client = record fresh_client { opts = record { ptr = 1; s = some 0 } }

abbrev connected_client : NatsClient
connected_client = record ready_client { conn = 2; s = some 0 }

abbrev opened_options : State
opened_options = (hand_out Kind.options start).2

abbrev opened_connection : State
opened_connection = (hand_out Kind.connection opened_options).2

abbrev created : Heap
created = record nothing_yet { clients = put nothing_yet.clients 7 (some fresh_client) }

abbrev ready : Heap
ready = record created { clients = put created.clients 7 (some ready_client) }

abbrev connected : Heap
connected = record ready { clients = put ready.clients 7 (some connected_client) }

-- It subscribes and takes a message.
abbrev subscription : NatsSubscriptionSync
subscription = record { ptr = 3; s = none }

abbrev opened_subscription : State
opened_subscription = (hand_out Kind.subscription opened_connection).2

abbrev opened_message : State
opened_message = (hand_out Kind.msg opened_subscription).2

abbrev subscribed : Heap
subscribed = record connected {
  clients = put connected.clients 7 (some connected_client);
  subscriptions = put connected.subscriptions 5 (some subscription);
}

abbrev served : Heap
served = record subscribed {
  subscriptions = put subscribed.subscriptions 5 (some (record subscription { s = some 0 }));
  messages = put subscribed.messages 6 (some (record { ptr = 4 }));
}

-- Last, the client is destroyed, while the subscription lives on.
abbrev left : Heap
left = record served { clients = put served.clients 7 none }

abbrev given_back : State
given_back = give_back Kind.options 1 (give_back Kind.connection 2 opened_message)
