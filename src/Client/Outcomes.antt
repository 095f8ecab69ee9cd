-- ===== src/Client/Outcomes.antt =====
-- What an operation of the client leaves: a result, the client, and the library's state.
use natsclient_cpp.Base.{◌≡◌, ◌≢◌, ◌⊎◌, none}
use natsclient_cpp.Nats.{NatsStatus, CString, Library, Run, ok, undefined, Returns}
use natsclient_cpp.Error.{Expected, Fits}
use natsclient_cpp.Client.{NatsClient}

module _ {S : Type 0} (nats : Library S) where
  -- The run is defined; its result fits the status `st`, with a value in `V` if that is a success; the
  -- client and the state are the ones given.
  abbrev pub Yields :
      {A : Type 0}
      → NatsStatus
      → (A → Type 0)
      → NatsClient
      → S
      → Run S (Expected A × NatsClient)
      → Type 0
  Yields st V client after =
      Returns λ (r, self') t. Fits nats st V r × (self' ≡ client) × (t ≡ after)

  -- Likewise where an error's message asks for a name that the library may not have: with a success or
  -- a name the run is defined, and with a failure and no name it is not.
  abbrev pub YieldsNamed :
      {A : Type 0}
      → CString
      → NatsStatus
      → (A → Type 0)
      → NatsClient
      → S
      → Run S (Expected A × NatsClient)
      → Type 0
  YieldsNamed name st V client after (ok (r, self') t) =
      Fits nats st V r × (self' ≡ client) × (t ≡ after) × ((st ≡ nats.nats_ok) ⊎ (name ≢ none))
  YieldsNamed name st V client after undefined = (st ≢ nats.nats_ok) × (name ≡ none)
