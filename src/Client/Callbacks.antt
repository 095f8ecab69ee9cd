-- ===== src/Client/Callbacks.antt =====
-- The callbacks that a client registers (include/nats_client/Client.hpp). What they write to
-- `std::cerr` is their result. The connection and the closure, which they do not read, are left out.
use natsclient_cpp.Base.{
  ℤ, List, [], ◌∷◌, ◌++◌, Text, codes, decimal, decimal_int, ◌==◌, if◌then◌else◌,
}
use natsclient_cpp.Nats.{Ptr, NatsStatus, CounterCall, Library, M, pure, ◌>>=◌, writing}

module _ {S : Type 0} (nats : Library S) where
  -- `dropped` comes in with what the uninitialised variable happens to hold.
  unfoldable pub error_handler_callback : (dropped : ℤ) → Ptr → NatsStatus → M S (List Text)
  unfolding decimal decimal_int
  error_handler_callback dropped sub err = do
    let first : Text =
        codes "NatsClient async error: "
        ++ (decimal err ++ (codes " - " ++ (nats.get_text err ++ codes "\n")))
    (s, count) ← writing (nats.counter (CounterCall.get_dropped sub) dropped)
    if s == nats.nats_ok
        then pure (
            first
            ∷ (codes "NatsClient dropped messages so far: " ++ (decimal_int count ++ codes "\n"))
            ∷ [])
        else pure (first ∷ [])

unfoldable pub disconnected_callback : List Text
disconnected_callback = codes "NatsClient disconnected\n" ∷ []

unfoldable pub reconnected_callback : List Text
reconnected_callback = codes "NatsClient reconnected\n" ∷ []

unfoldable pub closed_callback : List Text
closed_callback = codes "NatsClient connection closed\n" ∷ []
