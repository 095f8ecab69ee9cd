-- ===== src/Tests/Lifetimes.antt =====
-- Clients at concrete data: created, connected, moved and destroyed.
use natsclient_cpp.Base.{
  ◌≡◌, ◌≢◌, refl, true, false, none, some, pos, arith, ◌==◌, if◌then◌else◌, ℕ, ◌∷◌, [],
}
use natsclient_cpp.Nats.{null, StatusCall, OptionCall, Callback, ok, undefined}
use natsclient_cpp.Error.{expected, success}
use natsclient_cpp.Handle.{Memory}
use natsclient_cpp.Options
use natsclient_cpp.Options.{NatsOptions}
use natsclient_cpp.Client
use natsclient_cpp.Client.{NatsClient}
use natsclient_cpp.Client.Connection
use natsclient_cpp.Client.Connection.Setup.{
  Connects, Leaves, Keeps, connect-Connects, jet_stream-Leaves, connect_again,
}
use natsclient_cpp.Tests.{State, start, live, hand_out, library}

-- The options hold the handle 1, the connection 2 and the context 3.
abbrev client : NatsClient
client = record {
  conn = 2;
  opts = record { ptr = 1; s = some 0 };
  js = 3;
  s = some 0;
  js_opts = none;
}

abbrev three : State
three = record {
  next = 4;
  alive = λ q. if 1 == q then true else if 2 == q then true else if 3 == q then true else false;
  calls = [];
}

abbrev fresh : NatsClient
fresh = record { conn = 0; opts = record { ptr = 7; s = some 0 }; js = 0; s = none; js_opts = none }

abbrev two_clients : Memory NatsClient
two_clients a = if a == 10 then some fresh else if a == 11 then some client else none

abbrev created : NatsClient
created = record { conn = 0; opts = Options.construct 1; js = 0; s = none; js_opts = none }

create_runs : Client.create (library 0 none) start ≡ ok (expected created) (hand_out 0 0 start).2
unfolding Client.create Options.construct
create_runs = refl

connect_runs_created :
    Connection.connect (library 0 none) created (hand_out 0 0 start).2 ≡ undefined
unfolding Connection.connect Options.construct
connect_runs_created = refl

-- Once a setter has run, the client connects.
abbrev ready : NatsClient
ready = record created { opts = record { ptr = 1; s = some 0 } }

-- Every call fails, and with it the first.
connect-Connects_example :
    Connects
      (library 3 none)
      client
      three
      (some 0)
      (Connection.connect (library 3 none) client three)
connect-Connects_example = connect-Connects (library 3 none) client three

jet_stream-Leaves_example :
    Leaves
      (library 0 none)
      0
      (record client {
        s = some 0;
        js_opts = some (record { publish_async_max_pending = pos 256; others = [] });
        js = 4;
      })
      (hand_out 0 3 three).2
      (Connection.jet_stream (library 0 none) client three)
jet_stream-Leaves_example = jet_stream-Leaves (library 0 none) client three

library-Keeps : Keeps (library 0 none) live
library-Keeps = record {
  call_keeps = λ c q s h. h;
  open_keeps = λ h p q s l. ground arith;
  opens_new = λ h p q s e l. ground arith;
}

abbrev again : NatsClient
again = record client { conn = 4; s = some 0 }

-- The log of the four callbacks.
abbrev registered_all : State → State
registered_all s =
    let call = λ (c : Callback). StatusCall.option 1 (OptionCall.set_callback c null) in
    record s {
      calls =
          call Callback.error_handler_callback
          ∷ call Callback.closed_callback
          ∷ call Callback.reconnected_callback
          ∷ call Callback.disconnected_callback
          ∷ s.calls;
    }

connect_runs :
    Connection.connect (library 0 none) client three
    ≡ ok (success, again) (hand_out 0 2 (registered_all three)).2
unfolding Connection.connect
connect_runs = refl

connect_again_example : (live 2 (hand_out 0 2 (registered_all three)).2 ≡ true) × (◌≢◌ {A = ℕ} 4 2)
connect_again_example =
    connect_again (library 0 none) live library-Keeps client again three
      (hand_out 0 2 (registered_all three)).2 refl connect_runs
