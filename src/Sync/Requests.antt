-- ===== src/Sync/Requests.antt =====
-- A whole request over a reliable server, by what the server holds.
use cbfuse.Prelude.{ℕ, ℤ, negate, ◌≡◌, ◌≢◌, refl, ap, ◌∙◌, none, some, List, CString, length}
use cbfuse.Common.{Collection, eio, enoent}
use cbfuse.Io.{value, goto_done}
use cbfuse.Io.Rules.{
  Ends, Yields, Ends-then, Ends-pure, Ends-call, Ends-jump, Ends-jump_at, Yields-then, Yields-call,
  Yields-bind, Yields-pure, Ends-next, Yields-next,
}
use cbfuse.Platform.{
  Status, success, document_not_found, failure, Kind, Command, Response, Platform,
}
use cbfuse.Platform.Reliable.{IsReliable, answer, completed}
use cbfuse.Sync.{SyncGetResult, zeroed, sync_get, sync_get_callback, get_delivered}
use cbfuse.Sync.Commands.{run_get, if_lcb_fail}
use cbfuse.Sync.Rules.{Same, Same-trans}
use cbfuse.Sync.Memory.{memdup-Ends, strdup-Ends}

pub if_lcb_fail-Ends :
    {S : Type 0} (st : Status) (fr : ℤ) (s : S) (Q : S → Type 0)
    → st ≢ success
    → Q s
    → Ends (if_lcb_fail st fr) s (goto_done fr) Q
if_lcb_fail-Ends success fr s Q h q = absurd (h refl)
if_lcb_fail-Ends document_not_found fr s Q h q = Ends-jump_at fr s q
if_lcb_fail-Ends (failure n) fr s Q h q = Ends-jump_at fr s q

pub if_lcb_fail-Ends_success :
    {S : Type 0} (st : Status) (fr : ℤ) (s : S) (Q : S → Type 0)
    → st ≡ success
    → Q s
    → Ends (if_lcb_fail st fr) s (value tt) Q
if_lcb_fail-Ends_success st fr s Q h q = rw h (Ends-pure tt s q)

module _ (P : Platform) (rel : IsReliable P) where
  open P use {State}
  open rel use {contents, cas_at}

  callback_copies :
      (z : SyncGetResult) (r : Response) (s : State)
      → r.status ≡ success
      → Yields (sync_get_callback P (some z) r) s (λ o t.
        (res : SyncGetResult) × (o ≡ some res)
        × (res.status ≡ success)
        × (res.value ≡ some r.value)
        × (res.nvalue ≡ length r.value)
        × (res.cas ≡ r.cas)
        × Same P rel s t)
  unfolding sync_get_callback
  callback_copies z r s h = rw h (
      Yields-then _ (strdup-Ends P rel r.key s) λ t same.
        Yields-then _ (memdup-Ends P rel r.value t)
          λ u same'. Yields-pure _ u (_, refl, refl, refl, refl, refl, Same-trans P rel same same'))

  sync_get-found :
      (cmd : Command) (r : Response) (s : State)
      → answer P cmd (P.calloc s).1 ≡ (success, some r)
      → r.status ≡ success
      → Yields (sync_get P cmd) s (λ ran t.
        (ran.0 ≡ success)
        × (res : SyncGetResult) × (ran.1 ≡ some res)
        × (res.status ≡ success)
        × (res.value ≡ some r.value)
        × (res.nvalue ≡ length r.value)
        × (res.cas ≡ r.cas)
        × Same P rel (completed P cmd (P.calloc s).1) t)
  unfolding sync_get get_delivered
  sync_get-found cmd r s e h = Yields-call _ _ (rel.calloc_succeeds s) (
      Yields-call _ _ (rel.schedule_succeeds cmd (P.calloc s).1) (
        Yields-call _ _ refl (
          Yields-call _ _ e (
            Yields-bind (callback_copies zeroed r (completed P cmd (P.calloc s).1) h)
              λ o t (res, a, b, d, n, v, same). Yields-pure _ t (refl, res, a, b, d, n, v, same)))))

  sync_get-missing :
      (cmd : Command) (r : Response) (s : State)
      → answer P cmd (P.calloc s).1 ≡ (success, some r)
      → r.status ≡ document_not_found
      → Ends
          (sync_get P cmd)
          s
          (value (success, some (record zeroed { status = document_not_found })))
          (λ t. t ≡ completed P cmd (P.calloc s).1)
  unfolding sync_get get_delivered sync_get_callback
  sync_get-missing cmd r s e h = Ends-call _ _ (rel.calloc_succeeds s) (
      Ends-call _ _ (rel.schedule_succeeds cmd (P.calloc s).1) (
        Ends-call _ _ refl
          (Ends-call _ _ e (rw h (Ends-then _ (Ends-pure _ _ refl) λ t q. Ends-pure _ t q)))))

  -- The states that a completed command may be compared with.
  calloc-Same : (s : State) → Same P rel s (P.calloc s).1
  calloc-Same s = record { docs = rel.calloc_contents s; versions = rel.calloc_cas s }

  -- A get of a document that is there copies it to the heap, with its version.
  pub run_get-found :
      (c : Collection) (k : CString) (v : List ℕ) (cmd : Command) (s : State)
      → cmd.kind ≡ Kind.get
      → cmd.collection ≡ some c
      → cmd.key ≡ some k
      → contents s c k ≡ some v
      → Yields (run_get P cmd) s (λ r t.
        (r.value ≡ some v) × (r.nvalue ≡ length v) × (r.cas ≡ cas_at s c k) × Same P rel s t)
  unfolding run_get
  run_get-found c k v cmd s hk hc hj there =
      let (r, e, docs, versions, by_case) = rel.get_answer c k cmd (P.calloc s).1 hk hc hj in
      let (missing, found) = by_case in
      let at : contents (P.calloc s).1 c k ≡ some v =
        ap (λ f. f c k) (rel.calloc_contents s) ∙ there in
      let (ok_status, same_value, same_cas) = found v at in
      let same : Same P rel s (completed P cmd (P.calloc s).1) =
        Same-trans P rel (calloc-Same s) (record { docs = docs; versions = versions }) in
      let cas_eq : r.cas ≡ cas_at s c k = same_cas ∙ ap (λ f. f c k) (rel.calloc_cas s) in
      Yields-bind (sync_get-found cmd r s e ok_status) λ ran t (h0, res, h1, h2, h3, h4, h5, h6).
        Yields-then _ (if_lcb_fail-Ends_success ran.0 (negate eio) t (λ u. u ≡ t) h0 refl) λ u p.
          rw h1 (
            Yields-next _ (
              Yields-then _
                (if_lcb_fail-Ends_success res.status (negate enoent) u (λ x. x ≡ t) h2 p)
                λ x p'. Yields-pure res x (
                  h3 ∙ ap some same_value,
                  h4 ∙ ap length same_value,
                  h5 ∙ cas_eq,
                  rw p' (Same-trans P rel same h6),
                )))

  -- A get of a document that is not there ends the operation with -ENOENT.
  pub run_get-missing :
      (c : Collection) (k : CString) (cmd : Command) (s : State)
      → cmd.kind ≡ Kind.get
      → cmd.collection ≡ some c
      → cmd.key ≡ some k
      → contents s c k ≡ none
      → Ends (run_get P cmd) s (goto_done (negate enoent)) (Same P rel s)
  unfolding run_get
  run_get-missing c k cmd s hk hc hj gone =
      let (r, e, docs, versions, by_case) = rel.get_answer c k cmd (P.calloc s).1 hk hc hj in
      let (missing, found) = by_case in
      let at : contents (P.calloc s).1 c k ≡ none =
        ap (λ f. f c k) (rel.calloc_contents s) ∙ gone in
      let same : Same P rel s (completed P cmd (P.calloc s).1) =
        Same-trans P rel (calloc-Same s) (record { docs = docs; versions = versions }) in
      Ends-then _ (sync_get-missing cmd r s e (missing at))
        λ t p. Ends-next _ (Ends-next _ (Ends-jump _ (Ends-jump_at (negate enoent) t (rw p same))))
