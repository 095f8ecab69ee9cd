-- ===== src/Heap/Clients.antt =====
-- The steps of clients (include/nats_client/Client.hpp) in a program.
use natsclient_cpp.Base.{◌≡◌, ◌≢◌, refl, ap, Bool, none, some, inl, inr, arith, ◌==◌, if◌then◌else◌}
use natsclient_cpp.Nats.{Ptr, null, Kind, Library}
use natsclient_cpp.Error.{Expected, expected, unexpected}
use natsclient_cpp.Handle.{Addr, Memory, put}
use natsclient_cpp.Handle.Abstract.{acquire, pass_on}
use natsclient_cpp.Options
use natsclient_cpp.Client.{NatsClient, move_construct}
use natsclient_cpp.Client.Lifetime.{HoldsOptions}
use natsclient_cpp.Heap.{Heap, held, keep}
use natsclient_cpp.Heap.Documents.{Brings}
use natsclient_cpp.Heap.Custody.{Transfers, one, nothing_new}
use natsclient_cpp.Heap.Special.{Keeps}
use natsclient_cpp.Heap.Opening.{Gives}

-- A handle of this kind is written over NULL at an address.
written :
    {S : Type 0} {live : Kind → Ptr → S → Bool} (nats : Library S) (k : Kind) (m m' : Addr → Ptr)
    (a : Addr) (p : Ptr) (s s' : S)
    → m a ≡ null
    → Brings live k p s s'
    → ((c : Addr) → m' c ≡ (if a == c then p else m c))
    → Transfers (nats.destroy k) (live k) m s m' s'
written {live = live} nats k m m' a p s s' free (inl (z, same)) at =
    nothing_new (same k) (λ c. ground (arith, at c))
written nats k m m' a p s s' free (inr (nz, new)) at =
    one (acquire a p free nz new.fresh new.begun new.others at)

module _ {S : Type 0} (nats : Library S) (live : Kind → Ptr → S → Bool) where
  -- A step that touches the clients only.
  pub clients-Keeps :
      (h : Heap) (m : Memory NatsClient) (s s' : S)
      → Keeps nats live Kind.options h s (record h { clients = m }) s'
      → Keeps nats live Kind.connection h s (record h { clients = m }) s'
      → Keeps nats live Kind.js_ctx h s (record h { clients = m }) s'
      → ((k : Kind)
          → k ≢ Kind.options
          → k ≢ Kind.connection
          → k ≢ Kind.js_ctx
          → (q : Ptr) → live k q s' ≡ live k q s)
      → (k : Kind) → Keeps nats live k h s (record h { clients = m }) s'
  clients-Keeps h m s s' o c j rest Kind.options = o
  clients-Keeps h m s s' o c j rest Kind.connection = c
  clients-Keeps h m s s' o c j rest Kind.js_ctx = j
  clients-Keeps h m s s' o c j rest Kind.subscription =
      nothing_new (rest Kind.subscription (λ e. cc) (λ e. cc) (λ e. cc)) (λ c. refl)
  clients-Keeps h m s s' o c j rest Kind.msg =
      nothing_new (rest Kind.msg (λ e. cc) (λ e. cc) (λ e. cc)) (λ c. refl)
  clients-Keeps h m s s' o c j rest Kind.kv_store =
      nothing_new (rest Kind.kv_store (λ e. cc) (λ e. cc) (λ e. cc)) (λ c. refl)
  clients-Keeps h m s s' o c j rest Kind.kv_entry =
      nothing_new (rest Kind.kv_entry (λ e. cc) (λ e. cc) (λ e. cc)) (λ c. refl)
  clients-Keeps h m s s' o c j rest Kind.kv_watcher =
      nothing_new (rest Kind.kv_watcher (λ e. cc) (λ e. cc) (λ e. cc)) (λ c. refl)
  clients-Keeps h m s s' o c j rest Kind.kv_keys_list =
      nothing_new (rest Kind.kv_keys_list (λ e. cc) (λ e. cc) (λ e. cc)) (λ c. refl)

  Brings-kinds :
      (k k' : Kind) (p q : Ptr) (s s' : S)
      → k' ≢ k
      → Brings live k p s s'
      → live k' q s' ≡ live k' q s
  Brings-kinds k k' p q s s' n (inl (z, same)) = same k' q
  Brings-kinds k k' p q s s' n (inr (nz, new)) = new.kinds k' q n

  pub creates-Keeps :
      (h : Heap) (a : Addr) (r : Expected NatsClient) (s s' : S)
      → h.clients a ≡ none
      → Gives live Kind.options HoldsOptions s r s'
      → (k : Kind) → Keeps nats live k h s (record h { clients = keep a r h.clients }) s'
  unfolding Options.construct
  creates-Keeps h a (unexpected e) s s' free same k = nothing_new (same k) (λ c. refl)
  creates-Keeps h a (expected x) s s' free (p, (ec, eo, ej), brings) k =
      clients-Keeps h (put h.clients a (some x)) s s'
        (written nats Kind.options (held nats h Kind.options)
          (held nats (record h { clients = put h.clients a (some x) }) Kind.options) a p s s'
          (ground arith) brings (λ c. ground arith))
        (nothing_new (λ q. Brings-kinds Kind.options Kind.connection p q s s' (λ e. cc) brings)
          (λ c. ground arith))
        (nothing_new (λ q. Brings-kinds Kind.options Kind.js_ctx p q s s' (λ e. cc) brings)
          (λ c. ground arith))
        (λ k n _ _ q. Brings-kinds Kind.options k p q s s' n brings) k

  pub connects-Keeps :
      (h : Heap) (a : Addr) (x y : NatsClient) (s s' : S)
      → h.clients a ≡ some x
      → x.conn ≡ null
      → (y.opts.ptr ≡ x.opts.ptr) × (y.js ≡ x.js) × Brings live Kind.connection y.conn s s'
      → (k : Kind) → Keeps nats live k h s (record h { clients = put h.clients a (some y) }) s'
  connects-Keeps h a x y s s' here z (eo, ej, brings) =
      clients-Keeps h (put h.clients a (some y)) s s'
        (nothing_new (λ q. Brings-kinds Kind.connection Kind.options y.conn q s s' (λ e. cc) brings)
          (λ c. ground arith))
        (written nats Kind.connection (held nats h Kind.connection)
          (held nats (record h { clients = put h.clients a (some y) }) Kind.connection) a y.conn s
          s' (ground arith) brings (λ c. ground arith))
        (nothing_new (λ q. Brings-kinds Kind.connection Kind.js_ctx y.conn q s s' (λ e. cc) brings)
          (λ c. ground arith))
        (λ k _ n _ q. Brings-kinds Kind.connection k y.conn q s s' n brings)

  pub gets_jet_stream-Keeps :
      (h : Heap) (a : Addr) (x y : NatsClient) (s s' : S)
      → h.clients a ≡ some x
      → x.js ≡ null
      → (y.opts.ptr ≡ x.opts.ptr) × (y.conn ≡ x.conn) × Brings live Kind.js_ctx y.js s s'
      → (k : Kind) → Keeps nats live k h s (record h { clients = put h.clients a (some y) }) s'
  gets_jet_stream-Keeps h a x y s s' here z (eo, ec, brings) =
      clients-Keeps h (put h.clients a (some y)) s s'
        (nothing_new (λ q. Brings-kinds Kind.js_ctx Kind.options y.js q s s' (λ e. cc) brings)
          (λ c. ground arith))
        (nothing_new (λ q. Brings-kinds Kind.js_ctx Kind.connection y.js q s s' (λ e. cc) brings)
          (λ c. ground arith))
        (written nats Kind.js_ctx (held nats h Kind.js_ctx)
          (held nats (record h { clients = put h.clients a (some y) }) Kind.js_ctx) a y.js s s'
          (ground arith) brings (λ c. ground arith))
        (λ k _ _ n q. Brings-kinds Kind.js_ctx k y.js q s s' n brings)

  pub move_constructs-Keeps :
      (h : Heap) (a b : Addr) (x : NatsClient) (s : S)
      → h.clients a ≡ none
      → h.clients b ≡ some x
      → (k : Kind)
      → Keeps nats live k h s
          (record h {
            clients =
                put (put h.clients a (some (move_construct x).0)) b (some (move_construct x).1);
          })
          s
  unfolding move_construct Options.move_construct
  move_constructs-Keeps h a b x s free here =
      clients-Keeps h
        (put (put h.clients a (some (move_construct x).0)) b (some (move_construct x).1)) s s
        (one (pass_on a b (λ e. cc (ap h.clients e)) (ground arith) (λ c. ground arith)))
        (one (pass_on a b (λ e. cc (ap h.clients e)) (ground arith) (λ c. ground arith)))
        (nothing_new (λ q. refl) (λ c. ground arith)) (λ k _ _ _ q. refl)
