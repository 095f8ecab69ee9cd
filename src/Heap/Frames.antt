-- ===== src/Heap/Frames.antt =====
-- Which kinds of handles a part of the program holds (include/nats_client).
use natsclient_cpp.Base.{
  ℕ, zero, suc, ◌≡◌, ◌≢◌, refl, sym, ap, ◌∙◌, eq_cases, ◌⊎◌, inl, inr, some, arith,
}
use natsclient_cpp.Nats.{Kind, Library}
use natsclient_cpp.Handle.{Addr, Memory, put}
use natsclient_cpp.Client.{NatsClient}
use natsclient_cpp.SubscriptionSync.{NatsSubscriptionSync}
use natsclient_cpp.MessageView.{NatsMessageView}
use natsclient_cpp.Kv.Store.{KvStore}
use natsclient_cpp.Kv.Entry.{KvEntry}
use natsclient_cpp.Kv.Watcher.{KvWatcher}
use natsclient_cpp.Kv.KeysList.{KvKeysList}
use natsclient_cpp.Heap.{Heap, held, SameHandles}

-- A test for kinds.
abbrev pub number : Kind → ℕ
number Kind.options = 0
number Kind.connection = 1
number Kind.js_ctx = 2
number Kind.subscription = 3
number Kind.msg = 4
number Kind.kv_store = 5
number Kind.kv_entry = 6
number Kind.kv_watcher = 7
number Kind.kv_keys_list = 8

of_number : ℕ → Kind
of_number zero = Kind.options
of_number (suc zero) = Kind.connection
of_number (suc (suc zero)) = Kind.js_ctx
of_number (suc (suc (suc zero))) = Kind.subscription
of_number (suc (suc (suc (suc zero)))) = Kind.msg
of_number (suc (suc (suc (suc (suc zero))))) = Kind.kv_store
of_number (suc (suc (suc (suc (suc (suc zero)))))) = Kind.kv_entry
of_number (suc (suc (suc (suc (suc (suc (suc zero))))))) = Kind.kv_watcher
of_number n = Kind.kv_keys_list

of_number-number : (k : Kind) → of_number (number k) ≡ k
unfolding of_number
of_number-number Kind.options = refl
of_number-number Kind.connection = refl
of_number-number Kind.js_ctx = refl
of_number-number Kind.subscription = refl
of_number-number Kind.msg = refl
of_number-number Kind.kv_store = refl
of_number-number Kind.kv_entry = refl
of_number-number Kind.kv_watcher = refl
of_number-number Kind.kv_keys_list = refl

pub number-injective : {k k' : Kind} → number k ≡ number k' → k ≡ k'
number-injective {k} {k'} e = sym (of_number-number k) ∙ ap of_number e ∙ of_number-number k'

pub kind_cases : (k k' : Kind) → (k ≡ k') ⊎ (k ≢ k')
kind_cases k k' = elim (eq_cases (number k) (number k')) [
  | inl e ↦ inl (number-injective e)
  | inr n ↦ inr (λ e. n (ap number e))
]

module _ {S : Type 0} (nats : Library S) (h : Heap) where
  pub held-subscriptions :
      (m : Memory NatsSubscriptionSync) (k : Kind) (c : Addr)
      → k ≢ Kind.subscription
      → held nats (record h { subscriptions = m }) k c ≡ held nats h k c
  held-subscriptions m Kind.options c n = refl
  held-subscriptions m Kind.connection c n = refl
  held-subscriptions m Kind.js_ctx c n = refl
  held-subscriptions m Kind.subscription c n = absurd (n refl)
  held-subscriptions m Kind.msg c n = refl
  held-subscriptions m Kind.kv_store c n = refl
  held-subscriptions m Kind.kv_entry c n = refl
  held-subscriptions m Kind.kv_watcher c n = refl
  held-subscriptions m Kind.kv_keys_list c n = refl

  pub held-messages :
      (m : Memory NatsMessageView) (k : Kind) (c : Addr)
      → k ≢ Kind.msg
      → held nats (record h { messages = m }) k c ≡ held nats h k c
  held-messages m Kind.options c n = refl
  held-messages m Kind.connection c n = refl
  held-messages m Kind.js_ctx c n = refl
  held-messages m Kind.subscription c n = refl
  held-messages m Kind.msg c n = absurd (n refl)
  held-messages m Kind.kv_store c n = refl
  held-messages m Kind.kv_entry c n = refl
  held-messages m Kind.kv_watcher c n = refl
  held-messages m Kind.kv_keys_list c n = refl

  pub held-buckets :
      (m : Memory KvStore) (k : Kind) (c : Addr)
      → k ≢ Kind.kv_store
      → held nats (record h { buckets = m }) k c ≡ held nats h k c
  held-buckets m Kind.options c n = refl
  held-buckets m Kind.connection c n = refl
  held-buckets m Kind.js_ctx c n = refl
  held-buckets m Kind.subscription c n = refl
  held-buckets m Kind.msg c n = refl
  held-buckets m Kind.kv_store c n = absurd (n refl)
  held-buckets m Kind.kv_entry c n = refl
  held-buckets m Kind.kv_watcher c n = refl
  held-buckets m Kind.kv_keys_list c n = refl

  pub held-entries :
      (m : Memory KvEntry) (k : Kind) (c : Addr)
      → k ≢ Kind.kv_entry
      → held nats (record h { entries = m }) k c ≡ held nats h k c
  held-entries m Kind.options c n = refl
  held-entries m Kind.connection c n = refl
  held-entries m Kind.js_ctx c n = refl
  held-entries m Kind.subscription c n = refl
  held-entries m Kind.msg c n = refl
  held-entries m Kind.kv_store c n = refl
  held-entries m Kind.kv_entry c n = absurd (n refl)
  held-entries m Kind.kv_watcher c n = refl
  held-entries m Kind.kv_keys_list c n = refl

  pub held-watchers :
      (m : Memory KvWatcher) (k : Kind) (c : Addr)
      → k ≢ Kind.kv_watcher
      → held nats (record h { watchers = m }) k c ≡ held nats h k c
  held-watchers m Kind.options c n = refl
  held-watchers m Kind.connection c n = refl
  held-watchers m Kind.js_ctx c n = refl
  held-watchers m Kind.subscription c n = refl
  held-watchers m Kind.msg c n = refl
  held-watchers m Kind.kv_store c n = refl
  held-watchers m Kind.kv_entry c n = refl
  held-watchers m Kind.kv_watcher c n = absurd (n refl)
  held-watchers m Kind.kv_keys_list c n = refl

  pub held-key_lists :
      (m : Memory KvKeysList) (k : Kind) (c : Addr)
      → k ≢ Kind.kv_keys_list
      → held nats (record h { key_lists = m }) k c ≡ held nats h k c
  held-key_lists m Kind.options c n = refl
  held-key_lists m Kind.connection c n = refl
  held-key_lists m Kind.js_ctx c n = refl
  held-key_lists m Kind.subscription c n = refl
  held-key_lists m Kind.msg c n = refl
  held-key_lists m Kind.kv_store c n = refl
  held-key_lists m Kind.kv_entry c n = refl
  held-key_lists m Kind.kv_watcher c n = refl
  held-key_lists m Kind.kv_keys_list c n = absurd (n refl)

  -- A client that keeps what it owns.
  pub held-clients :
      (a : Addr) (x y : NatsClient) (k : Kind) (c : Addr)
      → h.clients a ≡ some x
      → SameHandles x y
      → held nats (record h { clients = put h.clients a (some y) }) k c ≡ held nats h k c
  held-clients a x y Kind.options c e same = ground arith
  held-clients a x y Kind.connection c e same = ground arith
  held-clients a x y Kind.js_ctx c e same = ground arith
  held-clients a x y Kind.subscription c e same = refl
  held-clients a x y Kind.msg c e same = refl
  held-clients a x y Kind.kv_store c e same = refl
  held-clients a x y Kind.kv_entry c e same = refl
  held-clients a x y Kind.kv_watcher c e same = refl
  held-clients a x y Kind.kv_keys_list c e same = refl
