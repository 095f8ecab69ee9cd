-- ===== src/Tests/Programs.antt =====
-- The scratch program against the small C library.
use natsclient_cpp.Base.{
  ◌≡◌, refl, Bool, true, ◌&&◌, ◌!=◌, none, some, pos, negsuc, quot, arith, codes, [], ◌∷◌,
}
use natsclient_cpp.Nats.{Ptr, null, StatusCall, ok}
use natsclient_cpp.Nats.{before_nul}
use natsclient_cpp.Nats.Views.{literal}
use natsclient_cpp.Client
use natsclient_cpp.Programs.Session.{with_client}
use natsclient_cpp.Error.{to_string, nats_error, success}
use natsclient_cpp.Client.{NatsClient}
use natsclient_cpp.Client.Messages
use natsclient_cpp.Programs.Session.{max_payload_line}
use natsclient_cpp.Programs.Session.Accounts.{Books}
use natsclient_cpp.Programs.Scratch.{payload, progress, publish_loop, run, main}
use natsclient_cpp.Programs.Scratch.Order.{messages, sends, Sent, publish_loop-Sent}
use natsclient_cpp.Tests.{State, live, library}

-- NULL is no handle.
abbrev pub is_live : Ptr → State → Bool
is_live p s = (p != null) && live p s

pub library-Books : Books (library 0 none) is_live
library-Books = record {
  calls_same = λ c q s. refl;
  init_same = λ o q s. refl;
  opens_one = λ h p q s e. ground arith;
  opens_new = λ h p s e n. ground arith;
  refuses_same = λ h p q s k ne. ground arith;
  connect_refuses = λ o p q s ne. ground arith;
  frees = λ k. record { frees = λ p s. ground arith; spares = λ p q s ne. ground arith };
}

-- Two handles are live before the program runs, and stay so.
abbrev pub two : State
two = record { next = 3; alive = λ _. true; calls = [] }

abbrev connected : NatsClient
connected = record {
  conn = 2;
  opts = record { ptr = 1; s = some 0 };
  js = 0;
  s = some 0;
  js_opts = none;
}

publish_loop-Sent_example :
    Sent
      (library 0 none)
      2
      (sends (library 0 none) 2 (messages 2 9) two)
      (publish_loop (library 0 none) 2 9 connected two)
publish_loop-Sent_example = publish_loop-Sent (library 0 none) 2 9 connected two

payload_runs : payload 41 ≡ codes "Hello, World! 42"
unfolding payload
payload_runs = refl

quot_runs : quot (negsuc 2047) 1024 ≡ negsuc 1
quot_runs = refl

max_payload_line_runs : max_payload_line (pos 1048576) ≡ codes "Max payload size: 1024 KB\n"
unfolding max_payload_line
max_payload_line_runs = refl

-- The log has the second message last, at its head.
publish_loop_runs :
    publish_loop (library 0 none) 2 199 connected two
    ≡ ok
        (success, record connected { s = some 0 }, codes "Published message: 200\n" ∷ [])
        (record two {
          calls =
              StatusCall.publish 2
                (some (codes "test"))
                (literal (codes "Hello, World! 201")).bytes
                17
              ∷ StatusCall.publish 2
                  (some (codes "test"))
                  (literal (codes "Hello, World! 200")).bytes
                  17
              ∷ [];
        })
unfolding publish_loop payload progress Messages.publish before_nul
publish_loop_runs = refl

-- A library in which every call fails: the exit code, nothing printed, and the error.
main_runs :
    main (library 3 none) two
    ≡ ok (1, [], codes "NATS error 3: Failure - Error creating NATS options struct.\n" ∷ []) two
unfolding main run with_client Client.create to_string nats_error
main_runs = refl
