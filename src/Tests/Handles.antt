-- ===== src/Tests/Handles.antt =====
-- An object of an owning class is constructed, moved and destroyed, and is safe at the end.
use natsclient_cpp.Base.{◌≡◌, refl, true, false, none, some, arith, ◌==◌, if◌then◌else◌}
use natsclient_cpp.Nats.{null, Kind, ok}
use natsclient_cpp.Handle.{Memory, put, Handle}
use natsclient_cpp.Handle.Abstract.{Frees}
use natsclient_cpp.Handle.Ownership.{
  Reach, Safe, here, next, constructs, move_constructs, destructs, special,
}
use natsclient_cpp.Options
use natsclient_cpp.Options.Ownership.{Reach-Safe-options, handle as options_handle}
use natsclient_cpp.Tests.{State, start, live, set_alive, library}

library-Frees : (k : Kind) → Frees ((library 0 none).destroy k) live
library-Frees k = record { frees = λ p s. ground arith; spares = λ p q s ne. ground arith }

module _ {A : Type 0} (h : Handle State A) where
  abbrev nowhere : Memory A
  nowhere a = none

  nowhere-Safe : Safe h live nowhere start
  nowhere-Safe = record {
    held_live = λ a n. absurd (n refl);
    unique = λ a b e n. absurd (n refl);
    live_held = λ p l. absurd (ground arith);
    null_dead = refl;
  }

  -- The library has handed out its first handle.
  abbrev opened : State
  opened = record { next = 2; alive = λ q. if 1 == q then true else false; calls = start.calls }

  abbrev made : A → Memory A
  made x = put nowhere 7 (some x)

  abbrev moved : A → Memory A
  moved x = put (put (made x) 8 (some (h.move_construct x).0)) 7 (some (h.move_construct x).1)

  abbrev dropped : A → Memory A
  dropped x = put (moved x) 8 none

  life :
      (x y : A) (s : State)
      → h.Constructed 1 x
      → h.destruct (h.move_construct x).0 opened ≡ ok y s
      → Reach h live nowhere start (dropped x) s
  life x y s made_of d =
      next
        (next
          (next here
            (constructs 7 1 x made_of refl (omega arith) refl refl (λ q n. ground arith) refl))
          (special (move_constructs 8 7 x refl refl refl refl)))
        (special (destructs 8 (h.move_construct x).0 y refl d refl))

abbrev options : Handle State Options.NatsOptions
options = options_handle (library 0 none)

Reach-Safe-options_example :
    Safe options live (dropped options (Options.construct 1)) (set_alive 1 false (opened options))
unfolding Options.construct Options.move_construct Options.destruct
Reach-Safe-options_example =
    Reach-Safe-options (library 0 none) live (library-Frees Kind.options)
      (life options (Options.construct 1) (Options.construct null) _ refl refl)
      (nowhere-Safe options)
