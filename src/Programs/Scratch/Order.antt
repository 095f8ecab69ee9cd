-- ===== src/Programs/Scratch/Order.antt =====
-- The messages that scratch/scratch.cpp publishes, in order.
use natsclient_cpp.Base.{
  ◌≡◌, refl, ap, ℕ, zero, suc, ◌+◌, Text, codes, List, [], ◌∷◌, ◌++◌, some, arith, ◌!=◌,
  if◌then◌else◌, length,
}
use natsclient_cpp.Nats.{
  Ptr, NatsStatus, StatusCall, Library, Run, M, and_then, Returns, Returns-and_then, ok, undefined,
}
use natsclient_cpp.Nats.Views.{literal}
use natsclient_cpp.Error.{Expected, expected, unexpected, Fits, Reports}
use natsclient_cpp.Client.{NatsClient}
use natsclient_cpp.Client.Messages.Subjects.{publish-view}
use natsclient_cpp.Programs.Session.{as_is, check}
use natsclient_cpp.Programs.Scratch.{payload, progress, publish_loop}

-- The payloads of `rounds` rounds from the `i`-th on.
unfoldable pub messages : ℕ → ℕ → List Text
messages zero i = []
messages (suc rounds) i = payload i ∷ messages rounds (i + 1)

module _ {S : Type 0} (nats : Library S) where
  -- They are sent one by one on the subject `test`, up to the first failure.
  unfoldable pub sends : Ptr → List Text → S → NatsStatus × S
  sends conn [] s = (nats.nats_ok, s)
  sends conn (m ∷ l) s =
      let out =
        nats.call (StatusCall.publish conn (some (codes "test")) (literal m).bytes (length m)) s in
      let rest = sends conn l out.1 in if out.0 != nats.nats_ok then out else rest

  abbrev pub Sent :
      Ptr → NatsStatus × S → Run S (Expected (Unit {0}) × NatsClient × List Text) → Type 0
  Sent conn out = Returns λ r t. Reports nats out.0 r.0 × (t ≡ out.1) × (r.1.conn ≡ conn)

  -- Another state and another connection that are the same.
  Sent-moved :
      (l : List Text) (p q : Ptr) (s t : S) (st : NatsStatus)
      (m : Run S (Expected (Unit {0}) × NatsClient × List Text)) (f : List Text → List Text)
      → q ≡ p
      → t ≡ s
      → st ≡ nats.nats_ok
      → Sent q (sends q l t) m
      → Sent p
          (if st != nats.nats_ok then (st, s) else sends p l s)
          (and_then m λ r. ok (r.0, r.1, f r.2))
  Sent-moved l p q s t st (ok r u) f ep et eo h = ground arith
  Sent-moved l p q s t st undefined f ep et eo h = absurd h

  -- The loop always returns. From round `i` on it publishes `Hello, World! i+1` and so on, in order, on
  -- the subject `test` and the client's connection, each with its exact size, up to the first failure
  -- or the end. Its result reports the status of the last publication, or success if there was none,
  -- and the connection stays.
  pub publish_loop-Sent :
      (rounds i : ℕ) (c : NatsClient) (s : S)
      → Sent c.conn (sends c.conn (messages rounds i) s) (publish_loop nats rounds i c s)
  unfolding publish_loop messages sends
  publish_loop-Sent zero i c s = ((refl, tt), refl, refl)
  publish_loop-Sent (suc rounds) i c s =
      Returns-and_then _ _ _
        (publish-view nats c (codes "test") [] [] (literal (payload i)) s (omega arith) tt).0
        (next (publish_loop-Sent rounds (i + 1)))
    where
      out : NatsStatus × S
      out =
          nats.call
            (StatusCall.publish c.conn (some (codes "test")) (literal (payload i)).bytes
              (length (payload i)))
            s

      rest : NatsStatus × S
      rest = sends c.conn (messages rounds (i + 1)) out.1

      go_on : NatsClient → M S (Expected (Unit {0}) × NatsClient × List Text)
      go_on c' t =
          and_then (publish_loop nats rounds (i + 1) c' t) λ r. ok (r.0, r.1, progress i ++ r.2)

      next :
          ((c : NatsClient) (s : S)
            → Sent c.conn
                (sends c.conn (messages rounds (i + 1)) s)
                (publish_loop nats rounds (i + 1) c s))
          → (r : Expected (Unit {0}) × NatsClient) (t : S)
          → Fits nats out.0 (λ _. Unit {0}) r.0 × (r.1 ≡ record c { s = some out.0 }) × (t ≡ out.1)
          → Sent c.conn
              (if out.0 != nats.nats_ok then out else rest)
              (check nats as_is r (λ _ c'. go_on c') t)
      next later (unexpected e, c') t (fits, ec, et) = ground arith
      next later (expected a, c') t (fits, ec, et) =
          Sent-moved (messages rounds (i + 1)) c.conn c'.conn out.1 t out.0
            (publish_loop nats rounds (i + 1) c' t) (λ l. progress i ++ l) (ap (λ c. c.conn) ec) et
            fits.0 (later c' t)
