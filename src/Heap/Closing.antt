-- ===== src/Heap/Closing.antt =====
-- The steps that give back what a client holds (include/nats_client/Client.hpp), in a program.
use natsclient_cpp.Base.{◌≡◌, ◌≢◌, refl, sym, ◌∙◌, ap, Bool, none, some, inl, inr, arith, eq_cases}
use natsclient_cpp.Nats.{Ptr, null, Kind, Library, ok, ok-value, ok-state}
use natsclient_cpp.Handle.{Addr, Memory, put}
use natsclient_cpp.Handle.Abstract.{Transfer, pass_on, let_go, idle}
use natsclient_cpp.Options
use natsclient_cpp.Client.{NatsClient, move_assign, destruct}
use natsclient_cpp.Client.Lifetime.{
  give_back, give_back_all, destruct-give_back_all, move_assign-passes_on, move_assign_self,
}
use natsclient_cpp.Heap.{Heap, held}
use natsclient_cpp.Heap.Documents.{Documents}
use natsclient_cpp.Heap.Custody.{Transfers, stay, pass, nothing_new}
use natsclient_cpp.Heap.Special.{Keeps}
use natsclient_cpp.Heap.Clients.{clients-Keeps}

-- One step, between calls that leave this kind alone.
around :
    {S : Type 0} {destroy : Ptr → S → S} {live : Ptr → S → Bool} {m m' : Addr → Ptr}
    (s0 s1 s2 s3 : S)
    → ((q : Ptr) → live q s1 ≡ live q s0)
    → Transfer destroy live m m' s1 s2
    → ((q : Ptr) → live q s3 ≡ live q s2)
    → Transfers destroy live m s0 m' s3
around s0 s1 s2 s3 before t after =
    pass (pass (pass stay (idle before (λ c. refl))) t) (idle after (λ c. refl))

module _ {S : Type 0} {nats : Library S} {live : Kind → Ptr → S → Bool}
    (docs : Documents nats live) where
  give_back-kinds :
      (k k' : Kind) (p q : Ptr) (s : S) → k' ≢ k → live k' q (give_back nats k p s) ≡ live k' q s
  give_back-kinds k k' p q s n = ground (arith, docs.spares_kinds k k' p q s n)

  module _ (x : NatsClient) (s : S) where
    -- After the connection, after the options too, and at the end.
    closed : S
    closed = give_back nats Kind.connection x.conn s

    freed : S
    freed = give_back nats Kind.options x.opts.ptr closed

    -- What giving all back does, by kind.
    gives_all-Keeps :
        (h : Heap) (m : Memory NatsClient)
        → Transfer
            (nats.destroy Kind.options)
            (live Kind.options)
            (held nats h Kind.options)
            (held nats (record h { clients = m }) Kind.options)
            closed
            freed
        → Transfer
            (nats.destroy Kind.connection)
            (live Kind.connection)
            (held nats h Kind.connection)
            (held nats (record h { clients = m }) Kind.connection)
            s
            closed
        → Transfer
            (nats.destroy Kind.js_ctx)
            (live Kind.js_ctx)
            (held nats h Kind.js_ctx)
            (held nats (record h { clients = m }) Kind.js_ctx)
            freed
            (give_back_all nats x s)
        → (k : Kind) → Keeps nats live k h s (record h { clients = m }) (give_back_all nats x s)
    unfolding closed freed
    gives_all-Keeps h m o c j =
        clients-Keeps nats live h m s (give_back_all nats x s)
          (around s closed freed (give_back_all nats x s)
            (λ q. give_back-kinds Kind.connection Kind.options x.conn q s (λ e. cc)) o
            (λ q. give_back-kinds Kind.js_ctx Kind.options x.js q freed (λ e. cc)))
          (around s s closed (give_back_all nats x s) (λ q. refl) c
            (λ q.
              give_back-kinds Kind.js_ctx Kind.connection x.js q freed (λ e. cc)
              ∙ give_back-kinds Kind.options Kind.connection x.opts.ptr q closed (λ e. cc)))
          (around s freed (give_back_all nats x s) (give_back_all nats x s)
            (λ q.
              give_back-kinds Kind.options Kind.js_ctx x.opts.ptr q closed (λ e. cc)
              ∙ give_back-kinds Kind.connection Kind.js_ctx x.conn q s (λ e. cc))
            j (λ q. refl))
          (λ k no nc nj q.
            give_back-kinds Kind.js_ctx k x.js q freed nj
            ∙ give_back-kinds Kind.options k x.opts.ptr q closed no
            ∙ give_back-kinds Kind.connection k x.conn q s nc)

    destructs-all :
        (h : Heap) (a : Addr)
        → h.clients a ≡ some x
        → (k : Kind)
        → Keeps nats live k h s
            (record h { clients = put h.clients a none })
            (give_back_all nats x s)
    unfolding closed freed
    destructs-all h a here =
        gives_all-Keeps h (put h.clients a none) (let_go a (rw here refl) (λ c. ground arith))
          (let_go a (rw here refl) (λ c. ground arith))
          (let_go a (rw here refl) (λ c. ground arith))

    passes_all :
        (h : Heap) (a b : Addr) (y : NatsClient)
        → a ≢ b
        → h.clients a ≡ some x
        → h.clients b ≡ some y
        → (k : Kind)
        → Keeps nats live k h s
            (record h {
              clients =
                  put
                    (put h.clients a (some (record x { conn = y.conn; opts = y.opts; js = null })))
                    b
                    (some (record y { conn = null; opts = Options.construct null }));
            })
            (give_back_all nats x s)
    unfolding closed freed Options.construct
    passes_all h a b y ne ea eb =
        gives_all-Keeps h
          (put (put h.clients a (some (record y { js = null; s = x.s; js_opts = x.js_opts }))) b
            (some (record y { conn = null; opts = Options.construct null })))
          (pass_on a b ne (rw ea refl) (λ c. ground arith))
          (pass_on a b ne (rw ea refl) (λ c. ground arith))
          (let_go a (rw ea refl) (λ c. ground arith))

  pub destructs-Keeps :
      (h : Heap) (a : Addr) (x y : NatsClient) (s s' : S)
      → h.clients a ≡ some x
      → destruct nats x s ≡ ok y s'
      → (k : Kind) → Keeps nats live k h s (record h { clients = put h.clients a none }) s'
  destructs-Keeps h a x y s s' here d k =
      rw (ok-state (sym d ∙ destruct-give_back_all nats x s)) (destructs-all x s h a here k)

  pub move_assigns-Keeps :
      (h : Heap) (a b : Addr) (x y : NatsClient) (m : Memory NatsClient) (s s' : S)
      → h.clients a ≡ some x
      → h.clients b ≡ some y
      → move_assign nats a b h.clients s ≡ ok m s'
      → (k : Kind) → Keeps nats live k h s (record h { clients = m }) s'
  move_assigns-Keeps h a b x y m s s' ea eb d k = elim (eq_cases a b) [
    | inl e ↦
        let done =
          sym d
          ∙ ap (λ b. move_assign nats a b h.clients s) (sym e)
          ∙ move_assign_self nats a h.clients s in
        rw (ok-value done, ok-state done) (nothing_new (λ q. refl) (λ c. refl))
    | inr ne ↦
        let done = sym d ∙ move_assign-passes_on nats a b x y h.clients s ne ea eb in
        rw (ok-value done, ok-state done) (passes_all x s h a b y ne ea eb k)
  ]
