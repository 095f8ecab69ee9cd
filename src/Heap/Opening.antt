-- ===== src/Heap/Opening.antt =====
-- Objects that operations of the wrapper return (include/nats_client), in a program.
use mathlib.Core.Path.{subst}
use natsclient_cpp.Base.{◌≡◌, ◌≢◌, refl, sym, ◌∙◌, ap, Bool, none, inl, inr, arith}
use natsclient_cpp.Nats.{Ptr, null, Kind, HandleCall, Library}
use natsclient_cpp.Error.{Expected, expected, unexpected, Fits}
use natsclient_cpp.Handle.{Addr, Memory, Handle, IsOwner}
use natsclient_cpp.Handle.Ownership.{holders, constructs-Transfers}
use natsclient_cpp.Heap.{Heap, held, keep}
use natsclient_cpp.Heap.Documents.{Documents, Same, Brings, opened}
use natsclient_cpp.Heap.Custody.{Transfers, one, nothing_new}
use natsclient_cpp.Heap.Frames.{kind_cases}
use natsclient_cpp.Heap.Special.{Keeps}

module _ {S : Type 0} (live : Kind → Ptr → S → Bool) where
  -- A value is made from what the library wrote, NULL or a new handle of the kind; with an error no
  -- life began or ended.
  abbrev pub Gives : {A : Type 0} → Kind → (Ptr → A → Type 0) → S → Expected A → S → Type 0
  Gives k Made s (expected x) s' = (p : Ptr) × Made p x × Brings live k p s s'
  Gives k Made s (unexpected e) s' = Same live s s'

  -- The calls before it open nothing.
  pub Brings-later :
      (k : Kind) (p : Ptr) (s t u : S) → Same live s t → Brings live k p t u → Brings live k p s u
  Brings-later k p s t u same (inl (z, none_new)) = inl (z, λ k q. none_new k q ∙ same k q)
  Brings-later k p s t u same (inr (nz, new)) = inr (
    nz,
    record {
      fresh = sym (same k p) ∙ new.fresh;
      begun = new.begun;
      others = λ q n. new.others q n ∙ same k q;
      kinds = λ k q n. new.kinds k q n ∙ same k q;
    },
  )

module _ {S : Type 0} {nats : Library S} {live : Kind → Ptr → S → Bool}
    (docs : Documents nats live) where
  -- What a call that opens a handle gives, after calls that open none.
  pub open-Gives :
      {A : Type 0} (Made : Ptr → A → Type 0) (c : HandleCall) (s t : S) (r : Expected A)
      → opened c ≢ Kind.connection
      → Same live s t
      → let out = nats.open_handle c null t in
        Fits nats out.0 (Made out.1) r → Gives live (opened c) Made s r out.2
  open-Gives Made c s t (expected x) n same (e, made) = (
    (nats.open_handle c null t).1,
    made,
    Brings-later live (opened c) _ s t _ same (docs.opens c null t e),
  )
  open-Gives Made c s t (unexpected e) n same (f, _, _) =
      λ k q. (docs.refuses c null t n f).1 k q ∙ same k q

module _ {S : Type 0} (nats : Library S) (live : Kind → Ptr → S → Bool) where
  module _ {A : Type 0} (c : Handle S A) (o : IsOwner c) (k : Kind) where
    -- The object goes to an address where none was.
    pub Gives-Keeps :
        (h h' : Heap) (m : Memory A) (b : Addr) (r : Expected A) (s s' : S)
        → c.destroy ≡ nats.destroy k
        → holders c m ≡ held nats h k
        → holders c (keep b r m) ≡ held nats h' k
        → ((k' : Kind) (a : Addr) → k' ≢ k → held nats h' k' a ≡ held nats h k' a)
        → m b ≡ none
        → Gives live k c.Constructed s r s'
        → (k' : Kind) → Keeps nats live k' h s h' s'
    Gives-Keeps h h' m b (expected x) s s' ed eh eh' others free (p, made, brings) k' =
        elim (kind_cases k' k) [
          | inl e ↦
              subst (λ k. Keeps nats live k h s h' s') (sym e) (rw (ed, eh, eh') at (here brings))
          | inr n ↦ nothing_new (λ q. elsewhere n q brings) (λ a. others k' a n)
        ]
      where
        owns : c.owned x ≡ p
        owns = o.constructed_owns p x made

        here :
            Brings live k p s s'
            → Transfers c.destroy (live k) (holders c m) s (holders c (keep b (expected x) m)) s'
        here (inl (z, same)) = nothing_new (same k) (λ a. ground (arith, owns))
        here (inr (nz, new)) = one (
            constructs-Transfers c (live k) o m _ s s' b p x made free nz new.fresh new.begun
              new.others refl)

        elsewhere : k' ≢ k → (q : Ptr) → Brings live k p s s' → live k' q s' ≡ live k' q s
        elsewhere n q (inl (z, same)) = same k' q
        elsewhere n q (inr (nz, new)) = new.kinds k' q n
    Gives-Keeps h h' m b (unexpected e) s s' ed eh eh' others free same k' =
        elim (kind_cases k' k) [
          | inl e ↦
              nothing_new (λ q. same k' q)
                (λ a.
                  subst (λ k. held nats h' k a ≡ held nats h k a) (sym e)
                    (ap (λ f. f a) (sym eh' ∙ eh)))
          | inr n ↦ nothing_new (λ q. same k' q) (λ a. others k' a n)
        ]
