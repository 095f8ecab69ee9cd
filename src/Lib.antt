-- ===== src/Lib.antt =====
-- natsclient-cpp is a header-only C++23 wrapper of the C library nats.c. A client owns a connection,
-- the options it is made with and a JetStream context; its operations call the C library and turn a
-- status other than `NATS_OK` into an error value, and a C handle into an object that owns it.
--
-- Files:
-- - Base, Base/*: names shared by all files, Boolean tests, signed integers, texts and decimal numbers.
-- - Nats, Nats/*: the boundary to the C library. Nats/Calls has the C functions as data, a constructor
--   each with its arguments; Nats/Interface has the library as a parameter, the record `Library` over
--   a state of its own; Nats/Runs has runs that may be undefined, where C++ gives the code no meaning;
--   Nats/Strings and Nats/Views have `string_view` and `span`, and what C reads at their pointers.
-- - Error: `NatsError`, `std::expected` (include/nats_client/Error.hpp).
-- - Handle, Handle/*: objects at addresses and the interface `Handle` of a class that owns a C handle,
--   with its contract `IsOwner`; Handle/Abstract is the specification of ownership, which knows only
--   who holds which pointer, and Handle/Ownership shows that every program over the special members of
--   a class that keeps the contract refines it.
-- - Heap, Heap/*: a program over all classes of include/nats_client at once. Heap/Steps has its steps, each
--   operation and special member as the other files define it; Heap/Documents what the library
--   documents of the handles that live, by kind; Heap/Custody the specification of Handle/Abstract for
--   several steps. The other children show for groups of operations what they do to the handles, and
--   Heap/Ownership for all.
-- - MessageView: `NatsMessageView` (include/nats_client/MessageView.hpp).
-- - SubscriptionSync, SubscriptionSync/Counts: `NatsSubscriptionSync`
--   (include/nats_client/SubscriptionSync.hpp).
-- - Kv/Store, Kv/Entry, Kv/Watcher, Kv/KeysList: the classes of include/nats_client/Kv.hpp.
-- - Options, Options/Texts, Options/Flags, Options/Numbers: `NatsOptions`
--   (include/nats_client/Options.hpp), its setters by the type of their argument. Options/Setters has
--   every setter as data, for chains.
-- - Client: state, special members and `create` of `NatsClient` (include/nats_client/Client.hpp), and
--   `attempt`, the form `if ((s = call) != NATS_OK) return unexpected(…)`. Client/Connection, /Buckets,
--   /Entries, /Messages and /Callbacks have the operations. Client/Operation and SubscriptionSync/Operation
--   have those that open no handle as data, for Heap/Steps.
-- - Programs/Session, Programs/Scratch: the program scratch/scratch.cpp on top of the client.
-- - Programs/Latency: the producer and the consumer of bench/bench_lat_pub_sub.cpp, which send the bytes
--   of an `int64_t`, the lowest first.
-- - Programs/Beside: a library that another thread uses between the calls of this one, as the two threads
--   of bench/bench_lat_pub_sub.cpp do.
-- - Programs/Trigger: the two threads of bench/bench_zeromq.cpp as a step relation over the data that
--   they share; Trigger/Fair runs them by a schedule, and Trigger/Rank says how far they are from their
--   end. Programs/Window: the statistics that the benchmarks print. Programs/Shared: `main`, which sets
--   up the shared memory through the calls of the system, and the clock.
-- - Getters: what the wrappers' views of the library's texts show.
-- - The children named Ownership, Status, Updates, Keys, Chain, Deadline, Setup, Lifetime, Calls,
--   Subjects, Accounts, Connecting, Closing, Publishing, Order, Tokens, Handshake, Stuck, Progress, Answering,
--   Completion, Averages, Bytes, Sending, Measuring, Balance, Consuming, Finish and Clock hold the
--   proofs; Tests and its children a small library to run
--   against, and the theorems at concrete data.
--
-- How the model reads the code. A method is a function of the same name, from the object and its
-- arguments to a run over the library's state, which returns the result and the object afterwards. Move
-- assignment works on addresses, since it compares them. A member that the constructor leaves
-- uninitialised is `none`; reading it is undefined, and so are a `string_view` of NULL, a C string without
-- a NUL, and a read past an array. An argument that C takes by address goes in with its value and comes
-- out with the value that the library wrote. Overloads and names that antt reserves are renamed:
-- `publish_bytes` is `publish` at a span, `data_span` is `NatsMessageView::data`.
--
-- Bounds. The printing of decimal numbers takes one round more than the number's value. The endless loop
-- of the latency benchmark is one of any number of rounds, whose outcome says whether it has returned. The
-- threads of bench/bench_zeromq.cpp run for a number of blocks of turns, and 200,000,009 fair ones are
-- shown to be enough. No other loop takes fuel. The wrapper passes numbers on, so that no width matters,
-- except that the size of a view is that of its text. The programs count and add: their `int64_t` values
-- are integers without bound here, but for the time stamps that are sent, and their other loops have the
-- source's bounds.
--
-- Not modelled: the C library itself; allocation failure; threads that the library runs, and a second
-- thread in `KvWatcher::next`; the two threads of bench/bench_lat_pub_sub.cpp in one run (each is run beside
-- an arbitrary other thread); in bench/bench_zeromq.cpp, the lines that tell of a start, and memory orders
-- weaker than interleaving; options that are moved out of a client through `options()`.
-- `expected` takes objects by move; the objects moved from on that way hold NULL, and their destructors
-- are left out, except in `create` and `kvs_keys`, where they are run.
pub mod Base
pub mod Nats
pub mod Error
pub mod Handle
pub mod Heap
pub mod MessageView
pub mod Kv
pub mod SubscriptionSync
pub mod Options
pub mod Client
pub mod Getters
pub mod Programs
pub mod Tests
