-- ===== src/Sync/Shared.antt =====
-- The requests on a server that other clients use too, where every call may fail.
use cbfuse.Prelude.{
  ℕ, ℤ, ◌≡◌, ◌≢◌, refl, sym, ap, ◌∙◌, Bool, true, false, Option, some, none, List, [], ◌∷◌, ◌++◌,
  CString, length, some-injective, none-ne-some,
}
use cbfuse.Common.{Collection}
use cbfuse.Io.{Io}
use cbfuse.Io.Leaves.{
  Leaves, Leaves-pure, Leaves-jump, Leaves-bind, Leaves-call, Leaves-if, Leaves-map, Leaves-deref,
}
use cbfuse.Platform.{
  Status, is_success, success, document_not_found, failure, Kind, Setting, set, Command,
  new_command, Response, Platform, in_collection, with_key,
}
use cbfuse.Platform.Reliable.{answer, completed}
use cbfuse.Platform.Shared.{IsShared, Quiet, Change, Remembers}
use cbfuse.Util.Shared.{
  Unchanged, Quiet-refl, fault-ne-zero, code-ne-zero, Quiet-trans, strdup-Leaves, memdup-Leaves,
}
use cbfuse.Sync.{SyncGetResult, zeroed, allocated, sync_get, get_delivered, sync_get_callback}
use cbfuse.Sync.Commands.{if_lcb_fail, create, set_up, set_up_all, run_get, get_document}

pub is_success_iff : (st : Status) → is_success st ≡ true → st ≡ success
is_success_iff success h = refl
is_success_iff document_not_found h = cc
is_success_iff (failure n) h = cc

pub Leaves-if_lcb_fail :
    {S : Type 0} {E : Option ℤ → S → Type 0} {Q : Unit {0} → S → Type 0} (st : Status) (fr : ℤ)
    {s : S}
    → (st ≡ success → Q tt s)
    → (st ≢ success → E (some fr) s)
    → Leaves (if_lcb_fail st fr) s Q E
Leaves-if_lcb_fail success fr q e = Leaves-pure tt (q refl)
Leaves-if_lcb_fail document_not_found fr q e = Leaves-jump fr (e (λ h. cc))
Leaves-if_lcb_fail (failure n) fr q e = Leaves-jump fr (e (λ h. cc))

-- A command after its setters.
abbrev pub all_set : List Setting → Command → Command
all_set [] cmd = cmd
all_set (x ∷ xs) cmd = all_set xs (set x cmd)

module _ (P : Platform) (shared : IsShared P) where
  open P use {State}

  -- The copied bytes of a result are those of a document, with its CAS value.
  abbrev pub Carries : Collection → CString → Option SyncGetResult → State → Type 0
  Carries c k none t = Unit
  Carries c k (some r) t =
      (v : List ℕ) → r.value ≡ some v → shared.Issued t c k r.cas v × (r.nvalue ≡ length v)

  -- One change of a document, and the documents before it.
  abbrev pub Changes : State → State → Change → Type 0
  Changes s t ch =
      (shared.log t ≡ shared.log s ++ (ch ∷ [])) × Remembers shared.log shared.Issued s t

  module _ (s : State) where
    -- A call that changes no document, and the test of its status.
    pub create-Leaves :
        (k : Kind) {t : State}
        → Quiet P shared s t
        → Leaves
            (create P k)
            t
            (λ cmd u. (cmd ≡ new_command k) × Quiet P shared s u)
            (Unchanged P shared s)
    unfolding create
    create-Leaves k {t} q =
        let q' : Quiet P shared s (P.cmd_create k t).1 =
          Quiet-trans P shared q (shared.create_quiet k t) in
        Leaves-call _ _ (
          Leaves-bind {Q = λ u t'. Quiet P shared s t'}
            (Leaves-if_lcb_fail (P.cmd_create k t).0 _ (λ h. q') (λ h. (q', code-ne-zero 4)))
            λ u t' q''. Leaves-pure _ (refl, q''))

    pub set_up-Leaves :
        (x : Setting) (cmd : Command) {t : State}
        → Quiet P shared s t
        → Leaves
            (set_up P x cmd)
            t
            (λ cmd' u. (cmd' ≡ set x cmd) × Quiet P shared s u)
            (Unchanged P shared s)
    unfolding set_up
    set_up-Leaves x cmd {t} q =
        let q' : Quiet P shared s (P.cmd_set x t).1 =
          Quiet-trans P shared q (shared.set_quiet x t) in
        Leaves-call _ _ (
          Leaves-bind {Q = λ u t'. Quiet P shared s t'}
            (Leaves-if_lcb_fail (P.cmd_set x t).0 _ (λ h. q') (λ h. (q', code-ne-zero 4)))
            λ u t' q''. Leaves-pure _ (refl, q''))

    pub set_up_all-Leaves :
        (xs : List Setting) (cmd : Command) {t : State}
        → Quiet P shared s t
        → Leaves
            (set_up_all P xs cmd)
            t
            (λ cmd' u. (cmd' ≡ all_set xs cmd) × Quiet P shared s u)
            (Unchanged P shared s)
    unfolding set_up_all
    set_up_all-Leaves [] cmd q = Leaves-pure cmd (refl, q)
    set_up_all-Leaves (x ∷ xs) cmd q =
        Leaves-bind (set_up-Leaves x cmd q)
          λ next u (e, q'). rw e (set_up_all-Leaves xs (set x cmd) q')

  later :
      {A : Type 0} {m : Io State A} {s t u : State} {Q : A → State → Type 0}
      → Quiet P shared s t
      → Leaves m u Q (Unchanged P shared t)
      → Leaves m u Q (Unchanged P shared s)
  later q l = Leaves-map l (λ a u h. h) λ e u (q', h). (Quiet-trans P shared q q', h)

  -- The callback fills in the bytes and the CAS value of the response.
  filled :
      (c : Collection) (k : CString) (result : Option SyncGetResult) (resp : Option Response)
      (t : State)
      → ((r : SyncGetResult) → result ≡ some r → r.value ≡ none)
      → ((r : Response) → resp ≡ some r → r.status ≡ success → shared.Issued t c k r.cas r.value)
      → Leaves
          (get_delivered P result resp)
          t
          (λ r u. Carries c k r u × Quiet P shared t u)
          (Unchanged P shared t)
  unfolding get_delivered sync_get_callback
  filled c k none none t n i = Leaves-pure none (tt, Quiet-refl P shared t)
  filled c k (some result) none t n i =
      Leaves-pure (some result)
        ((λ v e. absurd (none-ne-some v (sym (n result refl) ∙ e))), Quiet-refl P shared t)
  filled c k none (some resp) t n i = Leaves-pure none (tt, Quiet-refl P shared t)
  filled c k (some result) (some resp) t n i =
      Leaves-if (is_success resp.status) _ _
        (λ ok.
          Leaves-bind (strdup-Leaves P shared t resp.key (Quiet-refl P shared t)) λ key t' (q, h).
            Leaves-bind (memdup-Leaves P shared t resp.value q) λ value u (q', e). Leaves-pure _ (
              (λ v h. rw (e v h) (
                q'.1 c k resp.cas resp.value (i resp refl (is_success_iff resp.status ok)),
                refl,
              )),
              q',
            ))
        λ failed.
          Leaves-pure _
            ((λ v e. absurd (none-ne-some v (sym (n result refl) ∙ e))), Quiet-refl P shared t)

  zeroed-no_value : (b : Bool) (r : SyncGetResult) → allocated b zeroed ≡ some r → r.value ≡ none
  zeroed-no_value true r e = ap (λ (x : SyncGetResult). x.value) (sym (some-injective zeroed r e))
  zeroed-no_value false r e = cc

  module _ (s : State) (c : Collection) (k : CString) (cmd : Command) {t : State}
      (q : Quiet P shared s t) (in_c : cmd.collection ≡ some c) (at_k : cmd.key ≡ some k) where
    sync_get-Leaves :
        cmd.kind ≡ Kind.get
        → Leaves
            (sync_get P cmd)
            t
            (λ r u. Carries c k r.1 u × Quiet P shared s u)
            (Unchanged P shared s)
    unfolding sync_get
    sync_get-Leaves kind =
        let t' : State = (P.calloc t).1 in
        let q' : Quiet P shared s t' = Quiet-trans P shared q (shared.calloc_quiet t) in
        let done : Quiet P shared s (completed P cmd t') =
          Quiet-trans P shared q' (shared.get_quiet cmd t' kind) in
        Leaves-call _ _ (
          Leaves-call _ _ (
            Leaves-if (is_success (P.schedule cmd t').0) _ _
              (λ ok. Leaves-call _ _ (
                Leaves-call _ _ (
                  Leaves-bind
                    (later done (
                      filled c k (allocated (P.calloc t).0 zeroed) (answer P cmd t').1
                        (completed P cmd t') (zeroed-no_value (P.calloc t).0)
                        (λ r. shared.get_issued c k cmd t' r kind in_c at_k)))
                    λ r u (h, q''). Leaves-pure _ (h, Quiet-trans P shared done q''))))
              λ failed. Leaves-pure _ (
                carried (allocated (P.calloc t).0 zeroed) (P.schedule cmd t').1
                    (zeroed-no_value (P.calloc t).0),
                Quiet-trans P shared q' (shared.schedule_quiet cmd t'),
              )))
      where
        carried :
            (r : Option SyncGetResult) (u : State)
            → ((r' : SyncGetResult) → r ≡ some r' → r'.value ≡ none)
            → Carries c k r u
        carried none u n = tt
        carried (some r) u n = λ v e. absurd (none-ne-some v (sym (n r refl) ∙ e))

    pub run_get-Leaves :
        cmd.kind ≡ Kind.get
        → Leaves
            (run_get P cmd)
            t
            (λ r u. Carries c k (some r) u × Quiet P shared s u)
            (Unchanged P shared s)
    unfolding run_get
    run_get-Leaves kind = Leaves-bind (sync_get-Leaves kind) λ ran u (h, q').
        Leaves-bind {Q = λ a v. v ≡ u}
          (Leaves-if_lcb_fail ran.0 _ (λ e. refl) (λ e. (q', code-ne-zero 4)))
          λ a v same.
            Leaves-bind {Q = λ r v'. Carries c k (some r) v' × Quiet P shared s v'}
              (Leaves-deref ran.1 (λ r e. rw same (carry e h, q')) (rw same (q', fault-ne-zero)))
              λ r v' (h', q'').
                Leaves-bind {Q = λ a w. Carries c k (some r) w × Quiet P shared s w}
                  (Leaves-if_lcb_fail r.status _ (λ e. (h', q'')) (λ e. (q'', code-ne-zero 1)))
                  λ a w h''. Leaves-pure r h''
      where
        carry :
            {o : Option SyncGetResult} {r : SyncGetResult} {u : State}
            → o ≡ some r
            → Carries c k o u
            → Carries c k (some r) u
        carry {u = u} e h = rw e at h

  module _ (s : State) (c : Collection) (k : CString) {t : State} (q : Quiet P shared s t) where
    -- A get changes nothing, and gives the bytes of a document with its CAS value.
    pub get_document-Leaves :
        Leaves
          (get_document P c k)
          t
          (λ r u. Carries c k (some r) u × Quiet P shared s u)
          (Unchanged P shared s)
    unfolding get_document
    get_document-Leaves = Leaves-bind (create-Leaves s Kind.get q) λ created u (e, q').
        Leaves-bind (set_up_all-Leaves s (in_collection c ∷ with_key k ∷ []) created q')
          λ cmd v (e', q'').
            let is : cmd ≡ all_set (in_collection c ∷ with_key k ∷ []) (new_command Kind.get) =
              rw e at e' in
            run_get-Leaves s c k cmd q'' (ap (λ (x : Command). x.collection) is)
              (ap (λ (x : Command). x.key) is) (ap (λ (x : Command). x.kind) is)
