-- ===== src/Tests/Latency.antt =====
-- The benchmark bench/bench_lat_pub_sub.cpp against the small C library.
use natsclient_cpp.Base.{
  ◌≡◌, refl, Bool, codes, ℤ, pos, negsuc, true, false, none, some, [], ◌∷◌, ◌++◌, arith,
}
use natsclient_cpp.Nats.{ok, null, Ptr, NatsStatus, HandleCall, Library, Returns, undefined}
use natsclient_cpp.Error.{unexpected, success, nats_error, to_string}
use natsclient_cpp.MessageView
use natsclient_cpp.SubscriptionSync
use natsclient_cpp.SubscriptionSync.{NatsSubscriptionSync}
use natsclient_cpp.Nats.{c_string, before_nul}
use natsclient_cpp.Options
use natsclient_cpp.Options.Texts
use natsclient_cpp.Options.Flags
use natsclient_cpp.Client
use natsclient_cpp.Client.Connection
use natsclient_cpp.Client.Messages
use natsclient_cpp.Programs.Session.{set_options, open_session, with_client}
use natsclient_cpp.Programs.Window.{begin}
use natsclient_cpp.Programs.Beside.{Beside, KeepsOff, Spares, beside}
use natsclient_cpp.Programs.Latency.{
  word, bytes_of, int64_bytes, read_int64, measure, round, receive_loop, consume, has_returned,
  run_consumer, finish, thread_errors,
}
use natsclient_cpp.Programs.Session.Accounts.{Books}
use natsclient_cpp.Tests.{hand_out, State, library}
use natsclient_cpp.Tests.Programs.{is_live, two, library-Books}

abbrev now : State → ℤ × State
now s = (pos 1000, s)

abbrev sleep : State → State
sleep s = s

-- Each message has the time stamp 900.
abbrev stamped : Library State
stamped = record (library 0 none) { data_at = λ c s. some (bytes_of 8 (word (pos 900)) ++ []) }

abbrev sub : NatsSubscriptionSync
sub = record { ptr = 2; s = none }

-- Every message is late, so that the consumer gives up.
abbrev answer : HandleCall → NatsStatus
answer (HandleCall.next_msg p timeout_ms) = 26
answer h = 0

abbrev late : Library State
late = record stamped { open_handle = λ h old s. hand_out (answer h) old s }

late-Books : Books late is_live
late-Books = record {
  calls_same = library-Books.calls_same;
  init_same = library-Books.init_same;
  opens_one = λ h p q s e. ground arith;
  opens_new = λ h p s e n. ground arith;
  refuses_same = λ h p q s k ne. ground arith;
  connect_refuses = λ o p q s ne. ground arith;
  frees = library-Books.frees;
}

-- It has returned, with the library's status.
run_consumer_runs : Returns (λ r t. has_returned late now r.0 ≡ true) (run_consumer late now 3 two)
unfolding run_consumer consume receive_loop round SubscriptionSync.next_msg with_client open_session
    set_options Texts.set_url Flags.set_send_asap Options.apply c_string before_nul Client.create
    Client.destruct Connection.connect Messages.subscribe_sync SubscriptionSync.construct
    SubscriptionSync.destruct
run_consumer_runs = refl

bytes_run :
    int64_bytes (negsuc 0)
    ≡ record { bytes = some (255 ∷ 255 ∷ 255 ∷ 255 ∷ 255 ∷ 255 ∷ 255 ∷ 255 ∷ []); size = 8 }
unfolding int64_bytes
bytes_run = refl

-- A message of seven bytes is read past its end.
short_runs : round (library 0 none) now (begin (pos 0)) sub two ≡ undefined
unfolding round measure read_int64 SubscriptionSync.next_msg MessageView.construct
    MessageView.data_span
short_runs = refl

-- The other thread opens a handle whenever it acts.
abbrev opens_more : (Ptr → Bool) → State → State
opens_more mine s = (hand_out 0 null s).2

opens_more-KeepsOff : KeepsOff is_live opens_more
opens_more-KeepsOff mine s alive q m = ground (arith, alive q m)

late-Spares : Spares late is_live
late-Spares = record {
  counter = λ c n q s l. l;
  limits = λ c n m q s l. l;
  config = λ q s l. l;
  watch_options = λ q s l. l;
  keys = λ p o l q s live. live;
}

none_alive : (q : Ptr) → false ≡ true → is_live q two ≡ true
none_alive q m = absurd (ground arith)

abbrev nothing_mine : Beside is_live
nothing_mine = record { state = two; mine = λ q. false; alive = none_alive }

abbrev beside_late : Library (Beside is_live)
beside_late = beside late-Books late-Spares opens_more opens_more-KeepsOff

-- The producer has ended well and the consumer has not.
finish_runs :
    finish (library 0 none) success (unexpected (nats_error (library 0 none) 26 (codes "late"))) two
    ≡ ok (0, codes "Done\n" ∷ [], codes "NATS error 26: Failure - late\n" ∷ []) two
unfolding finish thread_errors to_string nats_error
finish_runs = refl
