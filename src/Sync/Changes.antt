-- ===== src/Sync/Changes.antt =====
-- Stores and removes on a server that other clients use too: one change, or none and an error.
use cbfuse.Prelude.{
  ℕ, ℤ, negate, ◌≡◌, ◌≢◌, ◌⊎◌, inl, inr, refl, sym, ap, ◌∙◌, Bool, true, false, Option, some, none,
  List, [], ◌∷◌, ◌++◌, CString, false≢true,
}
use cbfuse.Common.{Collection, eio, enoent}
use cbfuse.Io.{Io, deref, ◌>>=◌, ◌>>◌}
use cbfuse.Io.Leaves.{
  Leaves, Leaves-pure, Leaves-bind, Leaves-call, Leaves-if, Leaves-map, Leaves-deref,
}
use cbfuse.Platform.{Status, is_success, success, Kind, StoreMode, Command, Response, Platform}
use cbfuse.Platform.Reliable.{Contents, answer, completed}
use cbfuse.Platform.Shared.{IsShared, Quiet, Change, Suits, Remembers, IsRefused}
use cbfuse.Util.Shared.{Unchanged, fault-ne-zero, code-ne-zero, Quiet-trans}
use cbfuse.Sync.{
  sync_store, sync_remove, allocated, store_delivered, remove_delivered, sync_store_callback,
  sync_remove_callback, SyncStoreResult, SyncRemoveResult,
}
use cbfuse.Sync.Commands.{if_lcb_fail}
use cbfuse.Sync.Shared.{Leaves-if_lcb_fail}

module _ (P : Platform) (shared : IsShared P) where
  open P use {State}

  -- From `s`, the program has made one change of a document.
  pub record Made (s : State) (Fact : Change → Type 0) (u : State) : Type 0 where
    pub change : Change
    pub logged : shared.log u ≡ shared.log s ++ (change ∷ [])
    pub remembers : Remembers shared.log shared.Issued s u
    pub fact : Fact change

  -- None, and an error; or the change, and the answer to it was lost.
  abbrev pub Torn : State → (Change → Type 0) → Option ℤ → State → Type 0
  Torn s Fact e u = Unchanged P shared s e u ⊎ Made s Fact u

  pub Made-after :
      {s t u : State} {Fact : Change → Type 0} → Quiet P shared s t → Made t Fact u → Made s Fact u
  Made-after (e, f) m = record {
    change = m.change;
    logged = m.logged ∙ ap (λ l. l ++ (m.change ∷ [])) e;
    remembers = λ c k n v h. m.remembers c k n v (f c k n v h);
    fact = m.fact;
  }

  pub Made-map :
      {s u : State} {Fact Fact' : Change → Type 0}
      → ((ch : Change) → Fact ch → Fact' ch)
      → Made s Fact u
      → Made s Fact' u
  Made-map f m = record {
    change = m.change;
    logged = m.logged;
    remembers = m.remembers;
    fact = f m.change m.fact;
  }

  -- Nothing has changed between the two states from which the change is counted.
  pub Torn-after :
      {s t u : State} {Fact Fact' : Change → Type 0} (e : Option ℤ)
      → Quiet P shared s t
      → ((ch : Change) → Fact ch → Fact' ch)
      → Torn t Fact e u
      → Torn s Fact' e u
  Torn-after e q f (inl (q', h)) = inl (Quiet-trans P shared q q', h)
  Torn-after e q f (inr m) = inr (Made-after q (Made-map f m))

  pub Torn-Unchanged :
      {A : Type 0} {m : Io State A} {s t : State} {Q : A → State → Type 0} {Fact : Change → Type 0}
      → Leaves m t Q (Unchanged P shared s)
      → Leaves m t Q (Torn s Fact)
  Torn-Unchanged l = Leaves-map l (λ a u h. h) λ e u h. inl h

  module _ {Res : Type 0} (status : Res → Status) (s : State) (Fact : Change → Type 0) where
    -- How a command has ended: it has made the change, or none and is no success.
    abbrev pub Ran : Status × Option Res → State → Type 0
    Ran r u =
        Made s Fact u
        ⊎ (Quiet P shared s u × (r.0 ≡ success → (x : Res) → r.1 ≡ some x → status x ≢ success))

    -- The two tests behind a command.
    pub checked :
        (ran : Status × Option Res) {u : State}
        → Ran ran u
        → Leaves
            (if_lcb_fail ran.0 (negate eio)
              >> (deref ran.1 >>= λ r. if_lcb_fail (status r) (negate enoent)))
            u
            (λ a v. Made s Fact v)
            (Torn s Fact)
    checked ran (inl m) =
        Leaves-bind {Q = λ a v. Made s Fact v} (Leaves-if_lcb_fail ran.0 _ (λ e. m) (λ e. inr m))
          λ a v m'.
            Leaves-bind {Q = λ r w. Made s Fact w} (Leaves-deref ran.1 (λ r e. m') (inr m'))
              λ r w m''. Leaves-if_lcb_fail (status r) _ (λ e. m'') (λ e. inr m'')
    checked ran {u} (inr (q, refused)) =
        Leaves-bind {Q = λ a v. (v ≡ u) × (ran.0 ≡ success)}
          (Leaves-if_lcb_fail ran.0 _ (λ e. (refl, e)) (λ e. inl (q, code-ne-zero 4)))
          λ a v (same, ok).
            Leaves-bind {Q = λ r w. (w ≡ u) × (ran.1 ≡ some r)}
              (Leaves-deref ran.1 (λ r e. (same, e)) (inl (rw same (q, fault-ne-zero))))
              λ r w (same', e).
                Leaves-if_lcb_fail (status r) _ (λ h. absurd (refused ok r e h))
                  (λ h. inl (rw same' (q, code-ne-zero 1)))

  -- The change that a command asks for.
  abbrev pub Asked : Collection → CString → Option (List ℕ) → (Contents → Type 0) → Change → Type 0
  Asked c k new When ch = (ch.collection ≡ c) × (ch.key ≡ k) × (ch.new ≡ new) × When ch.before

  module _ (s : State) (c : Collection) (k : CString) (cmd : Command) {t : State}
      (q : Quiet P shared s t) (in_c : cmd.collection ≡ some c) (at_k : cmd.key ≡ some k) where
    -- The mode suits the document that is there, and a CAS value is that of its version.
    abbrev pub Fitting : StoreMode → Contents → Type 0
    Fitting m before =
        Suits m (before c k)
        × ((n : ℕ) (w : List ℕ) → cmd.cas ≡ some n → shared.Issued s c k n w → before c k ≡ some w)

    module _ {Res : Type 0} (status : Res → Status) (Fact : Change → Type 0) (t' : State)
        (q' : Quiet P shared s t') where
      -- What the server has done, and what the callback has put in the result.
      settled :
          (out : Option Response → Option Res)
          → ((o : Option Response) (r : Response) (x : Res)
              → o ≡ some r
              → out o ≡ some x
              → status x ≡ r.status)
          → Made t' Fact (completed P cmd t')
            ⊎ (Quiet P shared t' (completed P cmd t') × IsRefused P cmd t')
          → Ran status s Fact ((answer P cmd t').0, out (answer P cmd t').1) (completed P cmd t')
      settled out copies (inl m) = inl (Made-after q' m)
      settled out copies (inr (quiet, refused)) = inr (
        Quiet-trans P shared q' quiet,
        λ e x ex h.
            let (r, er, ne) = refused e in ne (sym (copies (answer P cmd t').1 r x er ex) ∙ h),
      )

    no_schedule : (st : Status) → is_success st ≡ false → st ≢ success
    no_schedule st h e = false≢true (sym h ∙ ap is_success e)

    pub sync_store-Leaves :
        (m : StoreMode) (v : List ℕ)
        → cmd.kind ≡ Kind.store m
        → cmd.value ≡ some v
        → Leaves
            (sync_store P cmd)
            t
            (Ran (λ (x : SyncStoreResult). x.status) s (Asked c k (some v) (Fitting m)))
            (Torn s (Asked c k (some v) (Fitting m)))
    unfolding sync_store store_delivered sync_store_callback
    sync_store-Leaves m v kind value =
        let t' : State = (P.calloc t).1 in
        let q' : Quiet P shared s t' = Quiet-trans P shared q (shared.calloc_quiet t) in
        Leaves-call _ _ (
          Leaves-call _ _ (
            Leaves-if (is_success (P.schedule cmd t').0) _ _
              (λ ok. Leaves-call _ _ (
                Leaves-call _ _ (
                  Leaves-pure _ (
                    settled (λ (x : SyncStoreResult). x.status) _ t' q'
                      (store_delivered P (allocated (P.calloc t).0 (record { status = success })))
                      (copied (P.calloc t).0) (served t' q')))))
              λ failed. Leaves-pure _ (
                inr (
                  Quiet-trans P shared q' (shared.schedule_quiet cmd t'),
                  λ e. absurd (no_schedule (P.schedule cmd t').0 failed e),
                ))))
      where
        copied :
            (b : Bool) (o : Option Response) (r : Response) (x : SyncStoreResult)
            → o ≡ some r
            → store_delivered P (allocated b (record { status = success })) o ≡ some x
            → x.status ≡ r.status
        copied b none r x e h = cc
        copied true (some r') r x e h = cc
        copied false (some r') r x e h = cc

        served :
            (t' : State)
            → Quiet P shared s t'
            → Made t' (Asked c k (some v) (Fitting m)) (completed P cmd t')
              ⊎ (Quiet P shared t' (completed P cmd t') × IsRefused P cmd t')
        served t' q' = elim (shared.store_lem m c k v cmd t' kind in_c at_k value) [
          | inl (before, l, rem, suits, cas) ↦ inl (record {
            change = record { before = before; collection = c; key = k; new = some v };
            logged = l;
            remembers = rem;
            fact = (refl, refl, refl, (suits, λ n w e i. cas n w e (q'.1 c k n w i)));
          })
          | inr r ↦ inr r
        ]

    pub sync_remove-Leaves :
        cmd.kind ≡ Kind.remove
        → Leaves
            (sync_remove P cmd)
            t
            (Ran
              (λ (x : SyncRemoveResult). x.status)
              s
              (Asked c k none (λ before. before c k ≢ none)))
            (Torn s (Asked c k none (λ before. before c k ≢ none)))
    unfolding sync_remove remove_delivered sync_remove_callback
    sync_remove-Leaves kind =
        let t' : State = (P.calloc t).1 in
        let q' : Quiet P shared s t' = Quiet-trans P shared q (shared.calloc_quiet t) in
        Leaves-call _ _ (
          Leaves-call _ _ (
            Leaves-if (is_success (P.schedule cmd t').0) _ _
              (λ ok. Leaves-call _ _ (
                Leaves-call _ _ (
                  Leaves-pure _ (
                    settled (λ (x : SyncRemoveResult). x.status) _ t' q'
                      (remove_delivered P (allocated (P.calloc t).0 (record { status = success })))
                      (copied (P.calloc t).0) (served t')))))
              λ failed. Leaves-pure _ (
                inr (
                  Quiet-trans P shared q' (shared.schedule_quiet cmd t'),
                  λ e. absurd (no_schedule (P.schedule cmd t').0 failed e),
                ))))
      where
        copied :
            (b : Bool) (o : Option Response) (r : Response) (x : SyncRemoveResult)
            → o ≡ some r
            → remove_delivered P (allocated b (record { status = success })) o ≡ some x
            → x.status ≡ r.status
        copied b none r x e h = cc
        copied true (some r') r x e h = cc
        copied false (some r') r x e h = cc

        served :
            (t' : State)
            → Made t' (Asked c k none (λ before. before c k ≢ none)) (completed P cmd t')
              ⊎ (Quiet P shared t' (completed P cmd t') × IsRefused P cmd t')
        served t' = elim (shared.remove_lem c k cmd t' kind in_c at_k) [
          | inl (before, l, rem, there) ↦ inl (record {
            change = record { before = before; collection = c; key = k; new = none };
            logged = l;
            remembers = rem;
            fact = (refl, refl, refl, there);
          })
          | inr r ↦ inr r
        ]
