-- ===== src/Programs/Beside/Balance.antt =====
-- What the two threads of bench/bench_lat_pub_sub.cpp open they give back, each beside the other.
use natsclient_cpp.Base.{◌≡◌, ℤ, Bool, ◌∙◌}
use natsclient_cpp.Nats.{NatsStatus, Ptr, HandleCall, Library}
use natsclient_cpp.Programs.Session.Accounts.{Books}
use natsclient_cpp.Programs.Beside.{Beside, KeepsOff, Spares, beside, meanwhile, after}

module _ {S : Type 0} {nats : Library S} {live : Ptr → S → Bool} (books : Books nats live)
    (spares : Spares nats live) (other : (Ptr → Bool) → S → S)
    (keeps_off : KeepsOff live other) where
  abbrev mine : Ptr → Beside live → Bool
  mine q t = t.mine q

  abbrev shared : Library (Beside live)
  shared = beside books spares other keeps_off

  abbrev pub acted : Beside live → Beside live
  acted = meanwhile books spares other keeps_off

  -- What is written by a call, and the state after it.
  abbrev out : HandleCall → Ptr → Beside live → NatsStatus × Ptr × S
  out h p t = nats.open_handle h p (acted t).state

  module _ (now : S → ℤ × S) (now_same : (q : Ptr) (s : S) → live q (now s).1 ≡ live q s)
      (sleep : S → S) (sleep_same : (q : Ptr) (s : S) → live q (sleep s) ≡ live q s) where
    abbrev pub clock : Beside live → ℤ × Beside live
    clock t =
        let u = acted t in
        let out = now u.state in
        (out.0, after books spares other keeps_off u out.1 (λ q l. now_same q u.state ∙ l))

    abbrev pub pause : Beside live → Beside live
    pause t =
        let u = acted t in
        after books spares other keeps_off u (sleep u.state) (λ q l. sleep_same q u.state ∙ l)
