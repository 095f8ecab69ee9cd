-- ===== src/Programs/Scratch.antt =====
-- The program scratch/scratch.cpp: it publishes a thousand messages.
pub mod Publishing
pub mod Order
use natsclient_cpp.Base.{
  ℕ, zero, suc, ◌+◌, ◌%◌, ℤ, List, [], ◌∷◌, ◌++◌, Text, codes, decimal, ◌==◌, if◌then◌else◌,
}
use natsclient_cpp.Nats.{Library, M, pure, ◌>>=◌, ◌>>◌, effect}
use natsclient_cpp.Nats.Views.{literal}
use natsclient_cpp.Error.{Expected, expected, unexpected, success, to_string}
use natsclient_cpp.Client.{NatsClient}
use natsclient_cpp.Client.Connection
use natsclient_cpp.Client.Messages
use natsclient_cpp.Programs.Session.{
  Session, as_is, always, check, open_session, with_client, max_payload_line,
}

-- `std::format("Hello, World! {}", i + 1)`
unfoldable pub payload : ℕ → Text
unfolding decimal
payload i = codes "Hello, World! " ++ decimal (i + 1)

-- `if (i % 100 == 0)` and the line that it prints.
unfoldable pub progress : ℕ → List Text
unfolding decimal
progress i =
    if i % 100 == 0 then (codes "Published message: " ++ (decimal i ++ codes "\n")) ∷ [] else []

module _ {S : Type 0} (nats : Library S) where
  -- `for (int i = …; i < 1000; ++i)` with the rounds that are left.
  unfoldable pub publish_loop : ℕ → ℕ → NatsClient → Session nats as_is
  publish_loop zero i client = pure (success, client, [])
  publish_loop (suc rounds) i client = do
    res_pub ← Messages.publish nats client (literal (codes "test")) (literal (payload i))
    check nats as_is res_pub λ _ client'. do
      (ret, left, output) ← publish_loop rounds (i + 1) client'
      pure (ret, left, progress i ++ output)

  -- From the JetStream context to the end.
  unfoldable pub use_client : NatsClient → Session nats as_is
  use_client client = do
    res2 ← Connection.jet_stream nats client
    check nats as_is res2 λ _ streaming. do
      n ← Connection.get_max_payload nats streaming
      (ret, left, output) ← publish_loop 1000 0 streaming
      pure (ret, left, max_payload_line n ∷ output)

  unfoldable pub run : M S (Expected (Unit {0}) × List Text)
  run = with_client nats as_is always λ client. open_session nats as_is client use_client

  -- The exit code, what goes to `std::cout`, and what goes to `std::cerr`.
  unfoldable pub main : M S (ℕ × List Text × List Text)
  main = do
    (ret, output) ← run
    effect nats.close
    elim ret [
      | unexpected e ↦ pure (1, output, (to_string e ++ codes "\n") ∷ [])
      | expected _ ↦ pure (0, output, [])
    ]
