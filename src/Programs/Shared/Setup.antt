-- ===== src/Programs/Shared/Setup.antt =====
-- What `main` of bench/bench_zeromq.cpp returns and leaves behind.
use natsclient_cpp.Base.{
  ◌≢◌, ◌≡◌, ℕ, Bool, true, false, Option, none, some, [], ◌∷◌, ◌⊎◌, Text, codes,
}
use natsclient_cpp.Nats.{Ptr}
use natsclient_cpp.Programs.Shared.{System, Exit, fails}

module _ {S : Type 0} (sys : System S) (named : S → Bool) (is_open : ℕ → S → Bool)
    (mapped : Ptr → S → Bool) where
  abbrev Same : S → S → Type 0
  Same s t =
      (named t ≡ named s)
      × ((fd : ℕ) → is_open fd t ≡ is_open fd s)
      × ((p : Ptr) → mapped p t ≡ mapped p s)

  -- What POSIX says of the calls: which of them make and remove the name of the shared memory, a
  -- descriptor and a mapping. None of them closes a descriptor.
  pub record Posix : Type 0 where
    pub opens :
        (name : Text) (fd : ℕ) (s : S)
        → (sys.shm_open name s).0 ≡ some fd
        → let t = (sys.shm_open name s).1 in
          (named t ≡ true) × (is_open fd t ≡ true) × ((p : Ptr) → mapped p t ≡ mapped p s)
    pub open_fails :
        (name : Text) (s : S) → (sys.shm_open name s).0 ≡ none → Same s (sys.shm_open name s).1
    pub truncates : (fd size : ℕ) (s : S) → Same s (sys.ftruncate fd size s).1
    pub maps :
        (size fd : ℕ) (p : Ptr) (s : S)
        → (sys.mmap size fd s).0 ≡ some p
        → let t = (sys.mmap size fd s).1 in
          (mapped p t ≡ true)
          × (mapped p s ≡ false)
          × ((q : Ptr) → q ≢ p → mapped q t ≡ mapped q s)
          × (named t ≡ named s)
          × ((fd : ℕ) → is_open fd t ≡ is_open fd s)
    pub map_fails :
        (size fd : ℕ) (s : S) → (sys.mmap size fd s).0 ≡ none → Same s (sys.mmap size fd s).1
    pub unmaps :
        (p : Ptr) (size : ℕ) (s : S)
        → let t = sys.munmap p size s in
          (mapped p t ≡ false)
          × ((q : Ptr) → q ≢ p → mapped q t ≡ mapped q s)
          × (named t ≡ named s)
          × ((fd : ℕ) → is_open fd t ≡ is_open fd s)
    pub unlinks :
        (name : Text) (s : S)
        → let t = sys.shm_unlink name s in
          (named t ≡ false)
          × ((fd : ℕ) → is_open fd t ≡ is_open fd s)
          × ((p : Ptr) → mapped p t ≡ mapped p s)

  -- What is left in the system, by the outcome of `main`.
  abbrev pub Leaves : S → Option Exit → S → Type 0
  Leaves s none t =
      (named t ≡ true) × (fd : ℕ) × (is_open fd t ≡ true) × (p : Ptr) × (mapped p t ≡ true)
  Leaves s (some e) t =
      ((e ≡ fails (codes "Failed to create shared memory\n")) × Same s t)
      ⊎ (((e ≡ fails (codes "Failed to set shared memory size\n"))
            ⊎ (e ≡ fails (codes "Failed to map shared memory\n")))
          × (named t ≡ true)
          × ((fd : ℕ) × (is_open fd t ≡ true))
          × ((p : Ptr) → mapped p t ≡ mapped p s))
      ⊎ ((e.code ≡ 0)
          × (e.output ≡ codes "Done\n" ∷ [])
          × (named t ≡ false)
          × ((fd : ℕ) × (is_open fd t ≡ true))
          × ((p : Ptr) → mapped p t ≡ mapped p s))
