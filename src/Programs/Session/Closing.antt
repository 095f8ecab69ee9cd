-- ===== src/Programs/Session/Closing.antt =====
-- That a program gives back all that it opens in the scope of its client.
use mathlib.Core.Path.{subst}
use natsclient_cpp.Base.{
  ◌≡◌, refl, sym, ◌∙◌, Bool, true, false, some, List, Text, arith, if◌then◌else◌,
}
use natsclient_cpp.Nats.{
  Ptr, null, NatsStatus, HandleCall, Library, Run, ok, undefined, and_then, Returns,
  Returns-and_then,
}
use natsclient_cpp.Error.{Expected, expected, unexpected, Fits}
use natsclient_cpp.Options
use natsclient_cpp.Client.{NatsClient}
use natsclient_cpp.Client.Lifetime.{emptied, HoldsOptions, destruct-give_back_all, create-Fits}
use natsclient_cpp.Programs.Session.{Session, check, open_session, leave, in_scope, with_client}
use natsclient_cpp.Programs.Session.Accounts.{
  Books, Owes, url_calls, set_options-runs, set_options-Quiet, live-give_back_all, Quiet-Owes,
  open-Owes,
}
use natsclient_cpp.Programs.Session.Connecting.{connect-Owes}

module _ {S R : Type 0} {nats : Library S} {live : Ptr → S → Bool} (books : Books nats live)
    (base : S) (returns : Expected (Unit {0}) → R) (returned : R → Bool) where
  -- The client that a part of a program leaves, if that has returned, accounts for the handles.
  abbrev pub Accounts : Run S (R × NatsClient × List Text) → Type 0
  Accounts = Returns λ r t. if returned r.0 then Owes nats live base r.1 t else Unit

  pub whenever : (b : Bool) (T : Type 0) → T → if b then T else Unit
  whenever true T h = h
  whenever false T h = tt

  -- What a part may begin with: a client without a JetStream context.
  abbrev pub Begins : (NatsClient → Session nats returns) → Type 0
  Begins part =
      (c : NatsClient) (s : S) → Owes nats live base c s → c.js ≡ null → Accounts (part c s)

  pub check-Accounts :
      {A : Type 0} (r : Expected A × NatsClient) (s : S)
      (go_on : A → NatsClient → Session nats returns)
      → Owes nats live base r.1 s
      → ((a : A) → Accounts (go_on a r.1 s))
      → Accounts (check nats returns r go_on s)
  check-Accounts (unexpected e, c) s go_on o h = whenever (returned (returns (unexpected e))) _ o
  check-Accounts (expected a, c) s go_on o h = h a

  pub output-Accounts :
      (m : Run S (R × NatsClient × List Text)) (f : List Text → List Text)
      → Accounts m
      → Accounts (and_then m λ r. ok (r.0, r.1, f r.2))
  output-Accounts (ok r s) f o = o
  output-Accounts undefined f h = absurd h

  pub open_session-Accounts :
      (c : NatsClient) (s : S) (go_on : NatsClient → Session nats returns)
      → Owes nats live base c s
      → c.conn ≡ null
      → c.js ≡ null
      → Begins go_on
      → Accounts (open_session nats returns c go_on s)
  unfolding open_session
  open_session-Accounts c s go_on o ec ej begins =
      rw (set_options-runs nats c s)
        (Returns-and_then _ _ _ (connect-Owes books base ready after _ known ec refl) next)
    where
      ready : NatsClient
      ready = record c { opts = record c.opts { s = some (url_calls nats c s).0 } }

      after : S
      after = (url_calls nats c s).1

      known : Owes nats live base ready after
      known =
          Quiet-Owes books base o (rw (set_options-runs nats c s) at (set_options-Quiet books c s))

      next :
          (r : Expected (Unit {0}) × NatsClient) (t : S)
          → Owes nats live base r.1 t × (r.1.js ≡ c.js)
          → Accounts (check nats returns r (λ _. go_on) t)
      next (unexpected e, c') t (o, e') = whenever (returned (returns (unexpected e))) _ o
      next (expected a, c') t (o, e') = begins c' t o (e' ∙ ej)

  -- A program that has returned has left the handles that are live as they were.
  abbrev pub Balanced : R × List Text → S → Type 0
  Balanced r t = if returned r.0 then ((q : Ptr) → live q t ≡ live q base) else Unit

  leave-Balanced :
      (ended : Bool) (c : NatsClient) (ret : R) (l : List Text) (s : S)
      → returned ret ≡ ended
      → (if ended then Owes nats live base c s else Unit)
      → Returns Balanced (leave nats returns returned (ret, c, l) s)
  leave-Balanced true c ret l s e o =
      rw (e, destruct-give_back_all nats c s)
        (rw e λ q. ground (arith, live-give_back_all books c q s, o.accounted q, o.own q))
  leave-Balanced false c ret l s e o = rw e (rw e tt)

  pub with_client-balance :
      (body : NatsClient → Session nats returns)
      → ((c : NatsClient) (s : S)
          → Owes nats live base c s
          → c.conn ≡ null
          → c.js ≡ null
          → Accounts (body c s))
      → Returns Balanced (with_client nats returns returned body base)
  unfolding with_client Options.construct
  with_client-balance body accounts = Returns-and_then _ _ _ (create-Fits nats base) next
    where
      out : NatsStatus × Ptr × S
      out = nats.open_handle HandleCall.options_create null base

      next :
          (r : Expected NatsClient) (t : S)
          → Fits nats out.0 (HoldsOptions out.1) r × (t ≡ out.2)
          → Returns Balanced (in_scope nats returns returned body r t)
      next (unexpected e) t ((ne, status, message), et) =
          whenever (returned (returns (unexpected e))) ((q : Ptr) → live q t ≡ live q base)
            λ q. rw et (books.refuses_same HandleCall.options_create null q base refl ne).1
      next (expected c) t ((eo, (ec, ep, ej)), et) =
          Returns-and_then _ _ _ (accounts c t held ec ej) λ (r : R × NatsClient × List Text) u o.
            leave-Balanced (returned r.0) r.1 r.0 r.2 u refl o
        where
          empty : Owes nats live base (emptied c) base
          empty = record { accounted = λ q. ground arith; own = λ q h. ground arith }

          held : Owes nats live base c t
          held =
              subst (Owes nats live base c) (sym et)
                (open-Owes books base empty HandleCall.options_create null refl λ q. ground arith)
