-- ===== src/Sync/Writes.antt =====
-- A whole store or remove over a reliable server, by what the server holds.
use cbfuse.Prelude.{
  ℕ, negate, ◌≡◌, ◌≢◌, refl, sym, ap, ◌∙◌, subst, Option, none, some, List, CString,
}
use cbfuse.Common.{Collection, enoent}
use cbfuse.Io.{value, goto_done}
use cbfuse.Io.Rules.{Ends, Ends-then, Ends-pure, Ends-call, Ends-next}
use cbfuse.Platform.{success, document_not_found, StoreMode, Kind, Command, Response, Platform}
use cbfuse.Platform.Reliable.{IsReliable, put, Accepts, Fits, answer, completed}
use cbfuse.Sync.{
  sync_store, sync_remove, store_delivered, sync_store_callback, remove_delivered,
  sync_remove_callback,
}
use cbfuse.Sync.Commands.{run_store, run_remove}
use cbfuse.Sync.Requests.{if_lcb_fail-Ends, if_lcb_fail-Ends_success}

not_found-ne-success : document_not_found ≢ success
not_found-ne-success p = cc

module _ (P : Platform) (rel : IsReliable P) where
  open P use {State}
  open rel use {contents, cas_at}

  -- The status of the response is that of the result.
  pub sync_store-Ends :
      (cmd : Command) (r : Response) (s : State)
      → answer P cmd (P.calloc s).1 ≡ (success, some r)
      → Ends
          (sync_store P cmd)
          s
          (value (success, some (record { status = r.status })))
          (λ t. t ≡ completed P cmd (P.calloc s).1)
  unfolding sync_store store_delivered sync_store_callback
  sync_store-Ends cmd r s e = Ends-call _ _ (rel.calloc_succeeds s) (
      Ends-call _ _ (rel.schedule_succeeds cmd (P.calloc s).1)
        (Ends-call _ _ refl (Ends-call _ _ e (Ends-pure _ _ refl))))

  sync_remove-Ends :
      (cmd : Command) (r : Response) (s : State)
      → answer P cmd (P.calloc s).1 ≡ (success, some r)
      → Ends
          (sync_remove P cmd)
          s
          (value (success, some (record { status = r.status })))
          (λ t. t ≡ completed P cmd (P.calloc s).1)
  unfolding sync_remove remove_delivered sync_remove_callback
  sync_remove-Ends cmd r s e = Ends-call _ _ (rel.calloc_succeeds s) (
      Ends-call _ _ (rel.schedule_succeeds cmd (P.calloc s).1)
        (Ends-call _ _ refl (Ends-call _ _ e (Ends-pure _ _ refl))))

  calloc_at :
      (c : Collection) (k : CString) (s : State) → contents (P.calloc s).1 c k ≡ contents s c k
  calloc_at c k s = ap (λ f. f c k) (rel.calloc_contents s)

  -- Acceptance is that of the state before the result struct is allocated.
  calloc-Accepts :
      (m : StoreMode) (c : Collection) (k : CString) (v : Option ℕ) (s : State)
      → Accepts m (contents s c k) v (cas_at s c k)
        ≡ Accepts m (contents (P.calloc s).1 c k) v (cas_at (P.calloc s).1 c k)
  calloc-Accepts m c k v s = sym (
      ap (λ f. Accepts m (f c k) v (cas_at (P.calloc s).1 c k)) (rel.calloc_contents s)
      ∙ ap (λ f. Accepts m (contents s c k) v (f c k)) (rel.calloc_cas s))

  -- A store that the server accepts writes the document.
  pub run_store-accepted :
      (m : StoreMode) (c : Collection) (k : CString) (v : List ℕ) (cmd : Command) (s : State)
      → cmd.kind ≡ Kind.store m
      → cmd.collection ≡ some c
      → cmd.key ≡ some k
      → cmd.value ≡ some v
      → Fits c k v
      → Accepts m (contents s c k) cmd.cas (cas_at s c k)
      → Ends (run_store P cmd) s (value tt) (λ t. contents t ≡ put c k (some v) (contents s))
  unfolding run_store
  run_store-accepted m c k v cmd s hk hc hj hv fit a =
      let (r, e, by_case) = rel.store_answer m c k v cmd (P.calloc s).1 hk hc hj hv fit in
      let (accepted, refused) = by_case in
      let (fine, docs) = accepted (subst (λ T. T) (calloc-Accepts m c k cmd.cas s) a) in
      Ends-then _ (sync_store-Ends cmd r s e) λ w p. Ends-next _ (
        Ends-next _ (
          if_lcb_fail-Ends_success r.status (negate enoent) w
            (λ x. contents x ≡ put c k (some v) (contents s)) fine
            (rw p (docs ∙ ap (put c k (some v)) (rel.calloc_contents s)))))

  -- A store that the server refuses ends the operation with -ENOENT and writes nothing.
  pub run_store-refused :
      (m : StoreMode) (c : Collection) (k : CString) (v : List ℕ) (cmd : Command) (s : State)
      → cmd.kind ≡ Kind.store m
      → cmd.collection ≡ some c
      → cmd.key ≡ some k
      → cmd.value ≡ some v
      → Fits c k v
      → ¬ Accepts m (contents s c k) cmd.cas (cas_at s c k)
      → Ends (run_store P cmd) s (goto_done (negate enoent)) (λ t. contents t ≡ contents s)
  unfolding run_store
  run_store-refused m c k v cmd s hk hc hj hv fit a =
      let (r, e, by_case) = rel.store_answer m c k v cmd (P.calloc s).1 hk hc hj hv fit in
      let (accepted, refused) = by_case in
      let (failed, docs) =
        refused (λ b. a (subst (λ T. T) (sym (calloc-Accepts m c k cmd.cas s)) b)) in
      Ends-then _ (sync_store-Ends cmd r s e) λ w p. Ends-next _ (
        Ends-next _ (
          if_lcb_fail-Ends r.status (negate enoent) w (λ x. contents x ≡ contents s) failed
            (rw p (docs ∙ rel.calloc_contents s))))

  -- A remove of a document that is there deletes it.
  pub run_remove-found :
      (c : Collection) (k : CString) (cmd : Command) (s : State)
      → cmd.kind ≡ Kind.remove
      → cmd.collection ≡ some c
      → cmd.key ≡ some k
      → cmd.cas ≡ none
      → contents s c k ≢ none
      → Ends (run_remove P cmd) s (value tt) (λ t. contents t ≡ put c k none (contents s))
  unfolding run_remove
  run_remove-found c k cmd s hk hc hj hn there =
      let (r, e, docs, by_case) = rel.remove_answer c k cmd (P.calloc s).1 hk hc hj hn in
      let (missing, found) = by_case in
      Ends-then _ (sync_remove-Ends cmd r s e) λ w p. Ends-next _ (
        Ends-next _ (
          if_lcb_fail-Ends_success r.status (negate enoent) w
            (λ x. contents x ≡ put c k none (contents s))
            (found (λ q. there (sym (calloc_at c k s) ∙ q)))
            (rw p (docs ∙ ap (put c k none) (rel.calloc_contents s)))))

  -- A remove of a document that is not there ends the operation with -ENOENT.
  pub run_remove-missing :
      (c : Collection) (k : CString) (cmd : Command) (s : State)
      → cmd.kind ≡ Kind.remove
      → cmd.collection ≡ some c
      → cmd.key ≡ some k
      → cmd.cas ≡ none
      → contents s c k ≡ none
      → Ends
          (run_remove P cmd)
          s
          (goto_done (negate enoent))
          (λ t. contents t ≡ put c k none (contents s))
  unfolding run_remove
  run_remove-missing c k cmd s hk hc hj hn gone =
      let (r, e, docs, by_case) = rel.remove_answer c k cmd (P.calloc s).1 hk hc hj hn in
      let (missing, found) = by_case in
      Ends-then _ (sync_remove-Ends cmd r s e) λ w p. Ends-next _ (
        Ends-next _ (
          if_lcb_fail-Ends r.status (negate enoent) w (λ x. contents x ≡ put c k none (contents s))
            (λ q. not_found-ne-success (sym (missing (calloc_at c k s ∙ gone)) ∙ q))
            (rw p (docs ∙ ap (put c k none) (rel.calloc_contents s)))))
