-- ===== src/Getters.antt =====
-- The texts that wrappers hand out as views: a subscription's and a message's subject, and the bucket,
-- key and value of the KeyValue classes.
use mathlib.Core.List.{append-nil}
use natsclient_cpp.Base.{◌≡◌, refl, ap, ◌∙◌, none, some, [], ◌∷◌, Text}
use natsclient_cpp.Nats.{
  TextCall, CString, Library, Run, undefined, Returns, View, text, string_view,
}
use natsclient_cpp.Nats.Views.{NoNul, text-view, c_text, c_text-view}
use natsclient_cpp.SubscriptionSync
use natsclient_cpp.SubscriptionSync.{NatsSubscriptionSync}
use natsclient_cpp.MessageView
use natsclient_cpp.MessageView.{NatsMessageView}
use natsclient_cpp.Kv.Store
use natsclient_cpp.Kv.Store.{KvStore}
use natsclient_cpp.Kv.Entry
use natsclient_cpp.Kv.Entry.{KvEntry}

-- A view that shows the text `t`, and at which C reads `t` again.
abbrev pub Shows : Text → View → Type 0
Shows t v = (text v ≡ t) × (c_text v ≡ some (some t))

module _ {S : Type 0} where
  -- What a getter makes of the library's answer.
  abbrev pub Shown : CString → S → Run S View → Type 0
  Shown none s run = run ≡ undefined
  Shown (some t) s run = Returns (λ v after. Shows t v × (after ≡ s)) run

  string_view-Shown :
      (a : CString) (s : S) → ((t : Text) → a ≡ some t → NoNul t) → Shown a s (string_view a s)
  unfolding string_view
  string_view-Shown none s ends = refl
  string_view-Shown (some t) s ends = (
    (
      text-view t (0 ∷ []),
      c_text-view t [] [] (ends t refl) tt ∙ ap (λ (u : Text). some (some u)) (append-nil t),
    ),
    refl,
  )

module _ {S : Type 0} (nats : Library S) where
  -- Each of the six getters asks for one text. If the library has it, the view shows just that text,
  -- C reads the same text at the view's pointer (so it can be passed on, as a subject or a key), and
  -- nothing changes; if the library answers NULL the getter is undefined. The library's texts are C
  -- strings: they hold no NUL.
  pub getters-Shown :
      ((c : TextCall) (s : S) (t : Text) → nats.text c s ≡ some t → NoNul t)
      → (sub : NatsSubscriptionSync) (msg : NatsMessageView) (store : KvStore) (entry : KvEntry)
        (s : S)
      → Shown
          (nats.text (TextCall.subscription_subject sub.ptr) s)
          s
          (SubscriptionSync.subject nats sub s)
        × Shown (nats.text (TextCall.msg_subject msg.ptr) s) s (MessageView.subject nats msg s)
        × Shown (nats.text (TextCall.store_bucket store.ptr) s) s (Store.bucket nats store s)
        × Shown (nats.text (TextCall.entry_bucket entry.ptr) s) s (Entry.bucket nats entry s)
        × Shown (nats.text (TextCall.entry_key entry.ptr) s) s (Entry.key nats entry s)
        × Shown
            (nats.text (TextCall.entry_value_string entry.ptr) s)
            s
            (Entry.value_string nats entry s)
  unfolding SubscriptionSync.subject MessageView.subject Store.bucket Entry.bucket Entry.key
      Entry.value_string
  getters-Shown ends sub msg store entry s = (
    string_view-Shown _ s (ends (TextCall.subscription_subject sub.ptr) s),
    string_view-Shown _ s (ends (TextCall.msg_subject msg.ptr) s),
    string_view-Shown _ s (ends (TextCall.store_bucket store.ptr) s),
    string_view-Shown _ s (ends (TextCall.entry_bucket entry.ptr) s),
    string_view-Shown _ s (ends (TextCall.entry_key entry.ptr) s),
    string_view-Shown _ s (ends (TextCall.entry_value_string entry.ptr) s),
  )
