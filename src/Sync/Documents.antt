-- ===== src/Sync/Documents.antt =====
-- get_document, store_document and remove_document over a reliable server.
use cbfuse.Prelude.{
  ℕ, negate, ◌≡◌, ◌≢◌, refl, sym, ap, ◌∙◌, subst, Option, none, some, List, [], ◌∷◌, CString,
  length, ◌≤◌, arith, Option-cases, inl, inr,
}
use cbfuse.Common.{Collection, stats, enoent, max_key_len}
use cbfuse.Io.{value, goto_done}
use cbfuse.Io.Rules.{Ends, Yields, Ends-then, Ends-map, Yields-then, Yields-map}
use cbfuse.Platform.{
  StoreMode, Kind, Command, Setting, in_collection, with_key, new_command, Stat, Platform,
}
use cbfuse.Platform.Reliable.{IsReliable, put, Accepts, Fits}
use cbfuse.Sync.Commands.{get_document, store_document, remove_document}
use cbfuse.Sync.Rules.{Same, Same-trans, create-Ends, set_up_all-Ends, set_all}
use cbfuse.Sync.Requests.{run_get-found, run_get-missing}
use cbfuse.Sync.Writes.{run_store-accepted, run_store-refused, run_remove-found, run_remove-missing}

module _ (P : Platform) (rel : IsReliable P) where
  open P use {State}
  open rel use {contents, cas_at}

  pub Same-at :
      {s t : State} (c : Collection) (k : CString)
      → Same P rel s t
      → contents t c k ≡ contents s c k
  Same-at c k h = ap (λ f. f c k) h.docs

  pub Same-cas :
      {s t : State} (c : Collection) (k : CString) → Same P rel s t → cas_at t c k ≡ cas_at s c k
  Same-cas c k h = ap (λ f. f c k) h.versions

  -- A document that is there has a key that fits.
  pub present-key :
      (c : Collection) (k : CString) (s : State) → contents s c k ≢ none → length k ≤ max_key_len
  present-key c k s there = elim (Option-cases (contents s c k)) [
    | inl gone ↦ absurd (there gone)
    | inr (v, e) ↦ (rel.documents_fit c k v s e).0
  ]

  -- A stat fits where its key does.
  pub stat-Fits : (k : CString) (x : Stat) → length k ≤ max_key_len → Fits stats k (P.stat_bytes x)
  stat-Fits k x short = (short, omega (arith, rel.stat_length x, rel.stat_fits))

  -- The document is copied to the heap, with its version.
  pub get_document-found :
      (c : Collection) (k : CString) (v : List ℕ) (s : State)
      → contents s c k ≡ some v
      → Yields (get_document P c k) s (λ r t.
        (r.value ≡ some v) × (r.nvalue ≡ length v) × (r.cas ≡ cas_at s c k) × Same P rel s t)
  unfolding get_document
  get_document-found c k v s there = Yields-then _ (create-Ends P rel Kind.get s) λ t a.
      Yields-then _ (set_up_all-Ends P rel (in_collection c ∷ with_key k ∷ []) _ t) λ u b.
        let ab = Same-trans P rel a b in
        Yields-map (run_get-found P rel c k v _ u refl refl refl (Same-at c k ab ∙ there))
          λ r w (h1, h2, h3, d). (h1, h2, h3 ∙ Same-cas c k ab, Same-trans P rel ab d)

  pub get_document-missing :
      (c : Collection) (k : CString) (s : State)
      → contents s c k ≡ none
      → Ends (get_document P c k) s (goto_done (negate enoent)) (Same P rel s)
  unfolding get_document
  get_document-missing c k s gone = Ends-then _ (create-Ends P rel Kind.get s) λ t a.
      Ends-then _ (set_up_all-Ends P rel (in_collection c ∷ with_key k ∷ []) _ t) λ u b.
        let ab = Same-trans P rel a b in
        Ends-map (run_get-missing P rel c k _ u refl refl refl (Same-at c k ab ∙ gone))
          λ w d. Same-trans P rel ab d

  -- Acceptance is the same in states with the same documents.
  Same-Accepts :
      {s t : State} (m : StoreMode) (c : Collection) (k : CString) (v : Option ℕ)
      → Same P rel s t
      → Accepts m (contents s c k) v (cas_at s c k) ≡ Accepts m (contents t c k) v (cas_at t c k)
  Same-Accepts {s} {t} m c k v h = sym (
      ap (λ f. Accepts m (f c k) v (cas_at t c k)) h.docs
      ∙ ap (λ f. Accepts m (contents s c k) v (f c k)) h.versions)

  module _ (m : StoreMode) (xs : List Setting) (c : Collection) (k : CString) (v : List ℕ) where
    abbrev cmd : Command
    cmd = set_all xs (new_command (Kind.store m))

    -- A store that the server accepts writes the document that the settings name.
    pub store_document-accepted :
        (s : State)
        → cmd.kind ≡ Kind.store m
        → cmd.collection ≡ some c
        → cmd.key ≡ some k
        → cmd.value ≡ some v
        → Fits c k v
        → Accepts m (contents s c k) cmd.cas (cas_at s c k)
        → Ends
            (store_document P m xs)
            s
            (value tt)
            (λ t. contents t ≡ put c k (some v) (contents s))
    unfolding store_document
    store_document-accepted s hk hc hj hv fit a =
        Ends-then _ (create-Ends P rel (Kind.store m) s) λ t p.
          Ends-then _ (set_up_all-Ends P rel xs _ t) λ u q.
            let pq = Same-trans P rel p q in
            Ends-map
              (run_store-accepted P rel m c k v _ u hk hc hj hv fit
                (subst (λ T. T) (Same-Accepts m c k cmd.cas pq) a))
              λ w e. e ∙ ap (put c k (some v)) pq.docs

    -- A store that the server refuses writes nothing.
    pub store_document-refused :
        (s : State)
        → cmd.kind ≡ Kind.store m
        → cmd.collection ≡ some c
        → cmd.key ≡ some k
        → cmd.value ≡ some v
        → Fits c k v
        → ¬ Accepts m (contents s c k) cmd.cas (cas_at s c k)
        → Ends (store_document P m xs) s (goto_done (negate enoent)) (λ t. contents t ≡ contents s)
    unfolding store_document
    store_document-refused s hk hc hj hv fit a =
        Ends-then _ (create-Ends P rel (Kind.store m) s) λ t p.
          Ends-then _ (set_up_all-Ends P rel xs _ t) λ u q.
            let pq = Same-trans P rel p q in
            Ends-map
              (run_store-refused P rel m c k v _ u hk hc hj hv fit
                (λ b. a (subst (λ T. T) (sym (Same-Accepts m c k cmd.cas pq)) b)))
              λ w e. e ∙ pq.docs

  pub remove_document-found :
      (c : Collection) (k : CString) (s : State)
      → contents s c k ≢ none
      → Ends (remove_document P c k) s (value tt) (λ t. contents t ≡ put c k none (contents s))
  unfolding remove_document
  remove_document-found c k s there = Ends-then _ (create-Ends P rel Kind.remove s) λ t a.
      Ends-then _ (set_up_all-Ends P rel (in_collection c ∷ with_key k ∷ []) _ t) λ u b.
        let ab = Same-trans P rel a b in
        Ends-map
          (run_remove-found P rel c k _ u refl refl refl refl
            (λ q. there (sym (Same-at c k ab) ∙ q)))
          λ w e. e ∙ ap (put c k none) ab.docs

  pub remove_document-missing :
      (c : Collection) (k : CString) (s : State)
      → contents s c k ≡ none
      → Ends
          (remove_document P c k)
          s
          (goto_done (negate enoent))
          (λ t. contents t ≡ put c k none (contents s))
  unfolding remove_document
  remove_document-missing c k s gone = Ends-then _ (create-Ends P rel Kind.remove s) λ t a.
      Ends-then _ (set_up_all-Ends P rel (in_collection c ∷ with_key k ∷ []) _ t) λ u b.
        let ab = Same-trans P rel a b in
        Ends-map (run_remove-missing P rel c k _ u refl refl refl refl (Same-at c k ab ∙ gone))
          λ w e. e ∙ ap (put c k none) ab.docs
