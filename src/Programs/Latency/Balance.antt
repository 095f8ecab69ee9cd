-- ===== src/Programs/Latency/Balance.antt =====
-- That the consumer's loop of bench/bench_lat_pub_sub.cpp keeps no message.
use natsclient_cpp.Base.{
  ◌≡◌, ◌≢◌, refl, ap, ◌∙◌, ℕ, zero, suc, ◌≤◌, ℤ, pos, Bool, Option, none, some, List, ◌++◌, Text,
  length, take, arith, inl, inr, eq_cases,
}
use natsclient_cpp.Nats.{
  Ptr, null, Kind, HandleCall, DataCall, Library, M, ok, Returns, Returns-mono, Returns-and_then,
}
use natsclient_cpp.Error.{Expected, expected, unexpected, success}
use natsclient_cpp.SubscriptionSync.{NatsSubscriptionSync}
use natsclient_cpp.Client.Lifetime.{give_back}
use natsclient_cpp.Programs.Window.{Stats}
use natsclient_cpp.Programs.Session.Accounts.{Books, live-give_back}
use natsclient_cpp.Programs.Latency.{
  Next, continues, stops, read_int64, int64_of_word, number_of, round, Received, go_on,
  receive_loop,
}
use natsclient_cpp.Programs.Latency.Measuring.{asked, round-reads, round-Fails}

-- A message long enough for a time stamp.
abbrev pub Long : {S : Type 0} → Library S → Type 0
Long {S} nats =
    (p : Ptr) (s : S)
    → (b : Text) × ((nats.data_at (DataCall.msg_data p) s ≡ some b) × (8 ≤ length b))

-- The loop has not returned, or has returned an error.
abbrev pub NoSuccess : Option (Expected (Unit {0})) → Type 0
NoSuccess none = Unit
NoSuccess (some (unexpected e)) = Unit
NoSuccess (some (expected a)) = ⊥

abbrev GoesOn : Next → Type 0
GoesOn (continues stats) = Unit
GoesOn (stops (unexpected e)) = Unit
GoesOn (stops (expected a)) = ⊥

module _ {S : Type 0} {nats : Library S} {live : Ptr → S → Bool} (books : Books nats live)
    (now : S → ℤ × S) (now_same : (q : Ptr) (s : S) → live q (now s).1 ≡ live q s)
    (long : Long nats) where
  readable :
      (p : Ptr) (s : S) → (ts : ℤ) × (read_int64 (nats.data_at (DataCall.msg_data p) s) ≡ some ts)
  unfolding read_int64
  readable p s = let (b, (e, n)) = long p s in (int64_of_word (number_of (take 8 b)), ground arith)

  GoesOn-fails : (n : Next) → n ≢ stops success → ((c : Stats) → n ≢ continues c) → GoesOn n
  GoesOn-fails (continues stats) a b = tt
  GoesOn-fails (stops (unexpected e)) a b = tt
  GoesOn-fails (stops (expected tt)) a b = a refl

  round-Balance :
      (stats : Stats) (sub : NatsSubscriptionSync) (s : S)
      → Returns
          (λ r t. ((q : Ptr) → live q t ≡ live q s) × GoesOn r.0 × (r.2.ptr ≡ sub.ptr))
          (round nats now stats sub s)
  round-Balance stats sub s = elim (eq_cases (asked nats sub s).0 nats.nats_ok) [
    | inl e ↦
        let (ts, d) = readable msg (now (asked nats sub s).2).1 in
        rw (round-reads nats now stats sub s ts e d) ((λ q. given_back e q), tt, refl)
    | inr ne ↦ Returns-mono _ _ (round-Fails nats now stats sub s ne) (failed ne)
  ]
    where
      call : HandleCall
      call = HandleCall.next_msg sub.ptr (pos 99999999)

      msg : Ptr
      msg = (asked nats sub s).1

      come : S
      come = (now (asked nats sub s).2).1

      failed :
          (asked nats sub s).0 ≢ nats.nats_ok
          → (r : Next × List Text × NatsSubscriptionSync) (t : S)
          → (r.0 ≢ stops success)
            × ((c : Stats) → r.0 ≢ continues c)
            × (t ≡ (now (asked nats sub s).2).1)
            × (r.2.ptr ≡ sub.ptr)
          → ((q : Ptr) → live q t ≡ live q s) × GoesOn r.0 × (r.2.ptr ≡ sub.ptr)
      failed ne r t (a, b, same, ep) = (
        (λ q. ap (live q) same ∙ now_same q _ ∙ (books.refuses_same call null q s refl ne).1),
        GoesOn-fails r.0 a b,
        ep,
      )

      given_back :
          (asked nats sub s).0 ≡ nats.nats_ok
          → (q : Ptr) → live q (give_back nats Kind.msg msg (now come).1) ≡ live q s
      given_back e q = ground (
        arith,
        live-give_back books Kind.msg msg q (now come).1,
        now_same q come,
        now_same q (asked nats sub s).2,
        books.opens_one call null q s e,
        books.opens_new call null s e,
      )

  abbrev Balanced : Ptr → S → Received nats now → S → Type 0
  Balanced p s r t = ((q : Ptr) → live q t ≡ live q s) × NoSuccess r.0 × (r.2.ptr ≡ p)

  -- What follows a round, if the rest keeps the balance.
  go_on-Balance :
      (p : Ptr) (s : S) (rest : Stats → NatsSubscriptionSync → M S (Received nats now))
      → ((stats : Stats) (sub : NatsSubscriptionSync) (s : S)
          → Returns (Balanced sub.ptr s) (rest stats sub s))
      → (out : Next × List Text × NatsSubscriptionSync) (t : S)
      → ((q : Ptr) → live q t ≡ live q s) × GoesOn out.0 × (out.2.ptr ≡ p)
      → Returns (Balanced p s) (go_on nats now rest out t)
  go_on-Balance p s rest later (stops (unexpected e), lines, sub) t h = h
  go_on-Balance p s rest later (stops (expected a), lines, sub) t h = absurd h.1
  go_on-Balance p s rest later (continues stats, lines, sub) t h =
      Returns-and_then (Balanced p s) (rest stats sub t) (λ r. ok (r.0, lines ++ r.1, r.2))
        (later stats sub t) λ r u k. ((λ q. k.0 q ∙ h.0 q), k.1, k.2 ∙ h.2)

  -- Let the library keep the laws `Books` of its handles, let the clock leave them alone, and let every
  -- message have eight bytes. Then the loop is defined for any number of rounds; it has not returned
  -- after them, or it has returned an error, since it never returns without one; and a handle is live
  -- then just if it was at the start: every message has been given back. The subscription stays.
  pub receive_loop-Balance :
      (rounds : ℕ) (stats : Stats) (sub : NatsSubscriptionSync) (s : S)
      → Returns
          (λ r t. ((q : Ptr) → live q t ≡ live q s) × NoSuccess r.0 × (r.2.ptr ≡ sub.ptr))
          (receive_loop nats now rounds stats sub s)
  unfolding receive_loop
  receive_loop-Balance zero stats sub s = ((λ q. refl), tt, refl)
  receive_loop-Balance (suc rounds) stats sub s =
      Returns-and_then _ _ _ (round-Balance stats sub s)
        (go_on-Balance sub.ptr s (receive_loop nats now rounds) (receive_loop-Balance rounds))
