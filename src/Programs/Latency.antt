-- ===== src/Programs/Latency.antt =====
-- The benchmark bench/bench_lat_pub_sub.cpp: a producer that publishes the time, and a consumer that
-- measures how old it is.
pub mod Bytes
pub mod Sending
pub mod Measuring
pub mod Balance
pub mod Consuming
use natsclient_cpp.Base.{
  ℕ, zero, suc, ◌+◌, ◌-◌, ◌*◌, ◌/◌, ◌%◌, ◌^◌, ℤ, pos, negsuc, ◌-ℤ◌, Option, none, some, Bool, true,
  false, List, [], ◌∷◌, ◌++◌, Text, codes, length, take, ltb, if◌then◌else◌,
}
use natsclient_cpp.Nats.{Data, Library, M, pure, ◌>>=◌, ◌>>◌, returning, effect, found, View}
use natsclient_cpp.Nats.Views.{literal}
use natsclient_cpp.Error.{Expected, expected, unexpected, success, to_string}
use natsclient_cpp.MessageView
use natsclient_cpp.MessageView.{NatsMessageView}
use natsclient_cpp.SubscriptionSync
use natsclient_cpp.SubscriptionSync.{NatsSubscriptionSync}
use natsclient_cpp.Client.{NatsClient}
use natsclient_cpp.Client.Connection
use natsclient_cpp.Client.Messages
use natsclient_cpp.Programs.Session.{
  Session, as_is, always, check, open_session, with_client, max_payload_line,
}
use natsclient_cpp.Programs.Window.{Stats, begin, account}

-- The bits of an `int64_t` as a number.
abbrev pub word : ℤ → ℕ
word (pos n) = n % 2 ^ 64
word (negsuc n) = 2 ^ 64 - 1 - n % 2 ^ 64

abbrev pub int64_of_word : ℕ → ℤ
int64_of_word w = if ltb w (2 ^ 63) then pos w else negsuc (2 ^ 64 - 1 - w)

-- `k` bytes of a number, the lowest first.
abbrev pub bytes_of : ℕ → ℕ → Text
bytes_of zero n = []
bytes_of (suc k) n = n % 256 ∷ bytes_of k (n / 256)

abbrev pub number_of : Text → ℕ
number_of [] = 0
number_of (b ∷ l) = b + 256 * number_of l

-- `span{reinterpret_cast<const byte*>(&nanoseconds), sizeof(nanoseconds)}`
unfoldable pub int64_bytes : ℤ → View
int64_bytes n = record { bytes = some (bytes_of 8 (word n)); size = 8 }

-- `*reinterpret_cast<const int64_t*>(data)`: a read of eight bytes, whatever the size of the message.
unfoldable pub read_int64 : Data → Option ℤ
read_int64 none = none
read_int64 (some b) = if ltb (length b) 8 then none else some (int64_of_word (number_of (take 8 b)))

-- `subject`
abbrev pub subject : View
subject = literal (codes "bench_latency")

-- What the consumer's loop does next: another round, or a return.
pub data Next : Type 0 where
  continues : Stats → Next
  stops : Expected (Unit {0}) → Next

-- `now` is the clock that `nanos` and `high_resolution_clock::now` read, and `sleep` is `nanosleep`.
module _ {S : Type 0} (nats : Library S) (now : S → ℤ × S) (sleep : S → S) where
  -- `for (int i = …; i < 100'000'000; ++i)` with the rounds that are left.
  unfoldable pub publish_loop : ℕ → NatsClient → Session nats as_is
  publish_loop zero client = pure (success, client, [])
  publish_loop (suc rounds) client = do
    nanoseconds ← returning now
    res_pub ← Messages.publish_bytes nats client subject (int64_bytes nanoseconds)
    check nats as_is res_pub λ _ client'. do effect sleep; publish_loop rounds client'

  unfoldable pub run_producer : M S (Expected (Unit {0}) × List Text)
  run_producer = with_client nats as_is always λ client. open_session nats as_is client λ connected.
      do
        n ← Connection.get_max_payload nats connected
        (ret, left, output) ← publish_loop 100000000 connected
        pure (ret, left, max_payload_line n ∷ output)

module _ {S : Type 0} (nats : Library S) (now : S → ℤ × S) where
  -- What follows a message that has come at `ns`. It is destroyed at the end of the body.
  unfoldable pub measure : Stats → ℤ → NatsMessageView → M S (Next × List Text)
  measure stats ns msg = do
    content ← MessageView.data_span nats msg
    msg_ts ← found (read_int64 content.bytes)
    time ← returning now
    let (after, lines) = account stats (ns -ℤ msg_ts) time
    _ ← MessageView.destruct nats msg
    pure (continues after, lines)

  abbrev pub receive : Stats → ℤ → Expected NatsMessageView → M S (Next × List Text)
  receive stats ns (unexpected e) = pure (stops (unexpected e), [])
  receive stats ns (expected msg) = measure stats ns msg

  -- The body of `while (true)`.
  unfoldable pub round :
      Stats → NatsSubscriptionSync → M S (Next × List Text × NatsSubscriptionSync)
  round stats sub = do
    (res_msg, sub') ← SubscriptionSync.next_msg nats sub (pos 99999999)
    ns ← returning now
    (next, lines) ← receive stats ns res_msg
    pure (next, lines, sub')

  -- The value returned, if the loop has returned, the lines printed, and the subscription.
  abbrev pub Received : Type 0
  Received = Option (Expected (Unit {0})) × List Text × NatsSubscriptionSync

  abbrev pub go_on :
      (Stats → NatsSubscriptionSync → M S Received)
      → Next × List Text × NatsSubscriptionSync
      → M S Received
  go_on rest (stops ret, lines, sub) = pure (some ret, lines, sub)
  go_on rest (continues stats, lines, sub) = do
    (ret, more, sub') ← rest stats sub
    pure (ret, lines ++ more, sub')

  -- The loop for a number of rounds; `none` if it goes on after them.
  unfoldable pub receive_loop : ℕ → Stats → NatsSubscriptionSync → M S Received
  receive_loop zero stats sub = pure (none, [], sub)
  receive_loop (suc rounds) stats sub = do out ← round stats sub; go_on (receive_loop rounds) out

  -- Whether the program has returned.
  abbrev pub has_returned : Option (Expected (Unit {0})) → Bool
  has_returned none = false
  has_returned (some r) = true

  -- The subscription is destroyed where its scope ends, which is before that of the client.
  abbrev pub leave_loop :
      NatsClient → Received → M S (Option (Expected (Unit {0})) × NatsClient × List Text)
  leave_loop client (none, output, sub) = pure (none, client, output)
  leave_loop client (some ret, output, sub) = do
    _ ← SubscriptionSync.destruct nats sub
    pure (some ret, client, output)

  abbrev pub consume_from : ℕ → NatsSubscriptionSync → NatsClient → Session nats some
  consume_from rounds sub client = do
    last_time ← returning now
    out ← receive_loop rounds (begin last_time) sub
    leave_loop client out

  -- From the subscription on.
  unfoldable pub consume : ℕ → NatsClient → Session nats some
  consume rounds client = do
    res_test ← Messages.subscribe_sync nats client subject
    check nats some res_test (consume_from rounds)

  unfoldable pub run_consumer : ℕ → M S (Option (Expected (Unit {0})) × List Text)
  run_consumer rounds =
      with_client nats some has_returned λ client. open_session nats some client (consume rounds)

-- `if (!ret) std::cerr << ret.error().to_string() << std::endl;`
unfoldable pub thread_errors : Expected (Unit {0}) → List Text
thread_errors (expected r) = []
thread_errors (unexpected e) = (to_string e ++ codes "\n") ∷ []

-- `main`, once its threads have returned: the exit code, and what has been printed to `std::cout` and
-- `std::cerr`. The line of the producer stands first, but may come second.
unfoldable pub finish :
    {S : Type 0}
    → Library S
    → Expected (Unit {0})
    → Expected (Unit {0})
    → M S (ℕ × List Text × List Text)
unfolding thread_errors
finish nats produced consumed = do
  effect nats.close
  pure (0, codes "Done\n" ∷ [], thread_errors produced ++ thread_errors consumed)
