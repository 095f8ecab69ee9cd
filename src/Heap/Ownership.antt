-- ===== src/Heap/Ownership.antt =====
-- Every program over the wrapper (include/nats_client) keeps to the specification of ownership.
use natsclient_cpp.Base.{Bool}
use natsclient_cpp.Nats.{Ptr, Kind, Library}
use natsclient_cpp.Handle.Abstract.{IsSafe}
use natsclient_cpp.Heap.{Heap, held}
use natsclient_cpp.Heap.Documents.{Documents}
use natsclient_cpp.Heap.Polling

-- The handles of every kind are safe.
pub record SafeHeap {S : Type 0} (nats : Library S) (live : Kind → Ptr → S → Bool) (h : Heap)
    (s : S) : Type 0 where
  pub by_kind : (k : Kind) → IsSafe (nats.destroy k) (live k) (held nats h k) s
