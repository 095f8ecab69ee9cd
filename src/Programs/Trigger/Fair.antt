-- ===== src/Programs/Trigger/Fair.antt =====
-- Fair schedules of the two threads of bench/bench_zeromq.cpp.
use natsclient_cpp.Base.{◌≡◌, refl, ◌∙◌, ℕ, zero, suc, ◌<◌, ◌⊎◌, inl, inr, List, [], ◌∷◌, arith}
use natsclient_cpp.Programs.Trigger.{Answer, Bench, produce, consume}
use natsclient_cpp.Programs.Trigger.Rank.{rank, Fine, Spinning, Polling, Succeeds}
use natsclient_cpp.Programs.Trigger.Progress.{Advances, produce-Advances, produce-Fine}
use natsclient_cpp.Programs.Trigger.Answering.{Answers, consume-Goes, consume-Fine}

-- Whose turn it is, and what the world answers.
pub data Turn : Type 0 where
  producer_turn : Answer → Turn
  consumer_turn : Answer → Turn

unfoldable pub run : List Turn → Bench → Bench
run [] b = b
run (producer_turn a ∷ ts) b = run ts (produce a b)
run (consumer_turn a ∷ ts) b = run ts (consume a b)

-- `n` blocks of turns.
unfoldable pub run_blocks : ℕ → (ℕ → List Turn) → Bench → Bench
run_blocks zero blocks b = b
run_blocks (suc n) blocks b = run_blocks n (λ k. blocks (suc k)) (run (blocks 0) b)

abbrev pub AllSucceed : List Turn → Type 0
AllSucceed [] = Unit
AllSucceed (producer_turn a ∷ ts) = Succeeds a × AllSucceed ts
AllSucceed (consumer_turn a ∷ ts) = Succeeds a × AllSucceed ts

abbrev pub HasProducer : List Turn → Type 0
HasProducer [] = ⊥
HasProducer (producer_turn a ∷ ts) = Unit
HasProducer (consumer_turn a ∷ ts) = HasProducer ts

abbrev pub HasConsumer : List Turn → Type 0
HasConsumer [] = ⊥
HasConsumer (producer_turn a ∷ ts) = HasConsumer ts
HasConsumer (consumer_turn a ∷ ts) = Unit

-- Each thread has a turn in the block, and no call fails and no message is lost.
abbrev pub Fair : List Turn → Type 0
Fair ts = HasProducer ts × HasConsumer ts × AllSucceed ts

-- The turns bring the threads on, or each thread that has a turn can only wait.
abbrev pub Drives : List Turn → Bench → Bench → Type 0
Drives ts b b' =
    (rank b' < rank b)
    ⊎ ((rank b' ≡ rank b)
        × (HasProducer ts → Spinning b.ready b.producer)
        × (HasConsumer ts → Polling b.should_exit b.in_flight b.consumer))

producer-Drives :
    (a : Answer) (ts : List Turn) (b b' b'' : Bench)
    → Advances b b'
    → Drives ts b' b''
    → Drives (producer_turn a ∷ ts) b b''
producer-Drives a ts b b' b'' (inl less) (inl less') = inl (omega arith)
producer-Drives a ts b b' b'' (inl less) (inr h) = inl (omega (arith, h.0))
producer-Drives a ts b b' b'' (inr h) (inl less) = inl (omega (arith, h.0))
producer-Drives a ts b b' b'' (inr (e, spins, ee, en, ec)) (inr (e', _, polls)) =
    inr (e' ∙ e, λ _. spins, λ has. rw (ee, en, ec) at (polls has))

consumer-Drives :
    (a : Answer) (ts : List Turn) (b b' b'' : Bench)
    → Answers b b'
    → Drives ts b' b''
    → Drives (consumer_turn a ∷ ts) b b''
consumer-Drives a ts b b' b'' (inl less) (inl less') = inl (omega arith)
consumer-Drives a ts b b' b'' (inl less) (inr h) = inl (omega (arith, h.0))
consumer-Drives a ts b b' b'' (inr h) (inl less) = inl (omega (arith, h.0))
consumer-Drives a ts b b' b'' (inr (e, polls, er, ep)) (inr (e', spins, _)) =
    inr (e' ∙ e, λ has. rw (er, ep) at (spins has), λ _. polls)

pub run-Drives :
    (ts : List Turn) (b : Bench) → AllSucceed ts → Fine b → Drives ts b (run ts b) × Fine (run ts b)
unfolding run
run-Drives [] b s f = (inr (refl, λ x. absurd x, λ x. absurd x), f)
run-Drives (producer_turn a ∷ ts) b s f =
    let (drives, fine) = run-Drives ts (produce a b) s.1 (produce-Fine a b s.0 f) in
    (
      producer-Drives a ts b (produce a b) (run ts (produce a b)) (produce-Advances a b s.0 f)
          drives,
      fine,
    )
run-Drives (consumer_turn a ∷ ts) b s f =
    let (drives, fine) = run-Drives ts (consume a b) s.1 (consume-Fine a b s.0 f) in
    (
      consumer-Drives a ts b (consume a b) (run ts (consume a b)) (consume-Goes a b s.0 f).0 drives,
      fine,
    )
