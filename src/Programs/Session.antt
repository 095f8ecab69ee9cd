-- ===== src/Programs/Session.antt =====
-- What the programs of scratch and bench begin with: a client on the local server. The statements are
-- those of scratch/scratch.cpp, and bench/bench_lat_pub_sub.cpp has the same.
pub mod Accounts
pub mod Connecting
pub mod Closing
use natsclient_cpp.Base.{
  ℕ, suc, ◌-◌, ◌/◌, ℤ, quot, true, Bool, if◌then◌else◌, List, [], ◌++◌, Text, codes, decimal_int,
  ◌==◌, if◌then◌else◌,
}
use natsclient_cpp.Nats.{Library, M, pure, ◌>>=◌}
use natsclient_cpp.Nats.Views.{literal}
use natsclient_cpp.Error.{Expected, expected, unexpected}
use natsclient_cpp.Options.Texts
use natsclient_cpp.Options.Flags
use natsclient_cpp.Client
use natsclient_cpp.Client.{NatsClient}
use natsclient_cpp.Client.Connection

module _ {S : Type 0} (nats : Library S) where
  -- `client.options().set_url("nats://localhost:4222").set_send_asap(true)`
  unfoldable pub set_options : NatsClient → M S NatsClient
  set_options client = do
    with_url ← Texts.set_url nats client.opts (literal (codes "nats://localhost:4222"))
    opts ← Flags.set_send_asap nats with_url true
    pure (record client { opts = opts })

-- A part of a program yields an `R`, which `returns` makes of what the program returns. One that loops
-- for ever yields a value that is not `returned`, and is cut off there.
module _ {S R : Type 0} (nats : Library S) (returns : Expected (Unit {0}) → R) where
  -- A program in the scope of its client: what it yields, the client where the scope ends, and the
  -- lines that it has printed.
  abbrev pub Session : Type 0
  Session = M S (R × NatsClient × List Text)

  -- `if (!res) return unexpected(res.error());`
  abbrev pub check : {A : Type 0} → Expected A × NatsClient → (A → NatsClient → Session) → Session
  check (unexpected e, client) go_on = pure (returns (unexpected e), client, [])
  check (expected a, client) go_on = go_on a client

  -- `client.connect()` behind the options, and what follows if it succeeds.
  unfoldable pub open_session : NatsClient → (NatsClient → Session) → Session
  open_session client go_on = do
    ready ← set_options nats client
    res ← Connection.connect nats ready
    check res (λ _. go_on)

  -- The client is destroyed where its scope ends.
  abbrev pub leave : (R → Bool) → R × NatsClient × List Text → M S (R × List Text)
  leave returned (ret, left, output) =
      if returned ret
      then (do _ ← Client.destruct nats left; pure (ret, output))
      else pure (ret, output)

  -- `if (!res0) return unexpected(res0.error());`, and the scope of the client.
  abbrev pub in_scope :
      (R → Bool) → (NatsClient → Session) → Expected NatsClient → M S (R × List Text)
  in_scope returned body (unexpected e) = pure (returns (unexpected e), [])
  in_scope returned body (expected client) = do out ← body client; leave returned out

  unfoldable pub with_client : (R → Bool) → (NatsClient → Session) → M S (R × List Text)
  with_client returned body = do res0 ← Client.create nats; in_scope returned body res0

-- A program without an endless loop always returns.
abbrev pub as_is : Expected (Unit {0}) → Expected (Unit {0})
as_is r = r

abbrev pub always : Expected (Unit {0}) → Bool
always r = true

-- `"Max payload size: … KB\n"`
unfoldable pub max_payload_line : ℤ → Text
unfolding decimal_int
max_payload_line n = codes "Max payload size: " ++ (decimal_int (quot n 1024) ++ codes " KB\n")
