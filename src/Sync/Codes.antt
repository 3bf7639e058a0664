-- ===== src/Sync/Codes.antt =====
-- With which codes the requests end, on any platform.
use cbfuse.Prelude.{ℤ, negate, refl, Option, some, none, List, [], ◌∷◌, CString, length}
use cbfuse.Common.{Collection, eio, enoent}
use cbfuse.Io.Codes.{
  Ensures, IsCode, Ensures-pure, Ensures-perform, Ensures-deref, Ensures-bind, Ensures-then,
  Ensures-if, Ensures-jump,
}
use cbfuse.Platform.{
  Status, is_success, success, document_not_found, failure, Kind, StoreMode, Setting, Command,
  Response, Platform,
}
use cbfuse.Util.{memdup}
use cbfuse.Util.Codes.{strdup-Ensures, memdupm-Ensures}
use cbfuse.Sync.{SyncGetResult, sync_get, sync_store, sync_remove, get_delivered, sync_get_callback}
use cbfuse.Sync.Commands.{
  if_lcb_fail, create, set_up, set_up_all, run_get, run_store, run_remove, get_document,
  store_document, remove_document,
}

pub Ensures-if_lcb_fail :
    {S : Type 0} (rc : Status) (fr : ℤ)
    → IsCode fr
    → Ensures {S = S} (if_lcb_fail rc fr) (λ a. Unit {0})
Ensures-if_lcb_fail success fr c = Ensures-pure tt tt
Ensures-if_lcb_fail document_not_found fr c = Ensures-jump fr c
Ensures-if_lcb_fail (failure n) fr c = Ensures-jump fr c

module _ (P : Platform) where
  pub create-Ensures : (k : Kind) → Ensures (create P k) (λ a. Unit {0})
  unfolding create
  create-Ensures k =
      Ensures-bind (Ensures-perform _)
        λ rc q. Ensures-bind (Ensures-if_lcb_fail rc (negate eio) refl) λ u q'. Ensures-pure _ tt

  pub set_up-Ensures : (x : Setting) (cmd : Command) → Ensures (set_up P x cmd) (λ a. Unit {0})
  unfolding set_up
  set_up-Ensures x cmd =
      Ensures-then (Ensures-perform _)
        λ rc. Ensures-then (Ensures-if_lcb_fail rc (negate eio) refl) λ u. Ensures-pure _ tt

  pub set_up_all-Ensures :
      (xs : List Setting) (cmd : Command) → Ensures (set_up_all P xs cmd) (λ a. Unit {0})
  unfolding set_up_all
  set_up_all-Ensures [] cmd = Ensures-pure cmd tt
  set_up_all-Ensures (x ∷ xs) cmd =
      Ensures-then (set_up-Ensures x cmd) λ next. set_up_all-Ensures xs next

  delivered :
      (result : Option SyncGetResult) (resp : Response)
      → Ensures (sync_get_callback P result resp) (λ a. Unit {0})
  unfolding sync_get_callback memdup
  delivered none resp = Ensures-pure none tt
  delivered (some result) resp =
      Ensures-if (is_success resp.status) _ _
        (Ensures-then (strdup-Ensures P resp.key) λ key.
          Ensures-then (memdupm-Ensures P (some resp.value) (length resp.value) (length resp.value))
            λ value. Ensures-pure _ tt)
        (Ensures-pure _ tt)

  filled :
      (result : Option SyncGetResult) (resp : Option Response)
      → Ensures (get_delivered P result resp) (λ a. Unit {0})
  unfolding get_delivered
  filled result none = Ensures-pure result tt
  filled result (some resp) = delivered result resp

  sync_get-Ensures : (cmd : Command) → Ensures (sync_get P cmd) (λ a. Unit {0})
  unfolding sync_get
  sync_get-Ensures cmd = Ensures-then (Ensures-perform _) λ memory.
      Ensures-then (Ensures-perform _) λ rc.
        Ensures-if (is_success rc) _ _
          (Ensures-then (Ensures-perform _) λ d.
            Ensures-then (Ensures-perform _)
              λ waited. Ensures-then (filled _ waited.1) λ r. Ensures-pure _ tt)
          (Ensures-pure _ tt)

  pub sync_store-Ensures : (cmd : Command) → Ensures (sync_store P cmd) (λ a. Unit {0})
  unfolding sync_store
  sync_store-Ensures cmd = Ensures-then (Ensures-perform _) λ memory.
      Ensures-then (Ensures-perform _) λ rc.
        Ensures-if (is_success rc) _ _
          (Ensures-then (Ensures-perform _)
            λ d. Ensures-then (Ensures-perform _) λ waited. Ensures-pure _ tt)
          (Ensures-pure _ tt)

  sync_remove-Ensures : (cmd : Command) → Ensures (sync_remove P cmd) (λ a. Unit {0})
  unfolding sync_remove
  sync_remove-Ensures cmd = Ensures-then (Ensures-perform _) λ memory.
      Ensures-then (Ensures-perform _) λ rc.
        Ensures-if (is_success rc) _ _
          (Ensures-then (Ensures-perform _)
            λ d. Ensures-then (Ensures-perform _) λ waited. Ensures-pure _ tt)
          (Ensures-pure _ tt)

  pub run_get-Ensures : (cmd : Command) → Ensures (run_get P cmd) (λ a. Unit {0})
  unfolding run_get
  run_get-Ensures cmd = Ensures-then (sync_get-Ensures cmd) λ ran.
      Ensures-then (Ensures-if_lcb_fail ran.0 (negate eio) refl) λ u.
        Ensures-then (Ensures-deref ran.1) λ r.
          Ensures-then (Ensures-if_lcb_fail r.status (negate enoent) refl) λ v. Ensures-pure r tt

  run_store-Ensures : (cmd : Command) → Ensures (run_store P cmd) (λ a. Unit {0})
  unfolding run_store
  run_store-Ensures cmd = Ensures-then (sync_store-Ensures cmd) λ ran.
      Ensures-then (Ensures-if_lcb_fail ran.0 (negate eio) refl) λ u.
        Ensures-then (Ensures-deref ran.1) λ r. Ensures-if_lcb_fail r.status (negate enoent) refl

  run_remove-Ensures : (cmd : Command) → Ensures (run_remove P cmd) (λ a. Unit {0})
  unfolding run_remove
  run_remove-Ensures cmd = Ensures-then (sync_remove-Ensures cmd) λ ran.
      Ensures-then (Ensures-if_lcb_fail ran.0 (negate eio) refl) λ u.
        Ensures-then (Ensures-deref ran.1) λ r. Ensures-if_lcb_fail r.status (negate enoent) refl

  pub get_document-Ensures :
      (c : Collection) (k : CString) → Ensures (get_document P c k) (λ a. Unit {0})
  unfolding get_document
  get_document-Ensures c k =
      Ensures-then (create-Ensures Kind.get)
        λ created. Ensures-then (set_up_all-Ensures _ created) λ cmd. run_get-Ensures cmd

  pub store_document-Ensures :
      (mode : StoreMode) (settings : List Setting)
      → Ensures (store_document P mode settings) (λ a. Unit {0})
  unfolding store_document
  store_document-Ensures mode settings =
      Ensures-then (create-Ensures (Kind.store mode))
        λ created. Ensures-then (set_up_all-Ensures settings created) λ cmd. run_store-Ensures cmd

  pub remove_document-Ensures :
      (c : Collection) (k : CString) → Ensures (remove_document P c k) (λ a. Unit {0})
  unfolding remove_document
  remove_document-Ensures c k =
      Ensures-then (create-Ensures Kind.remove)
        λ created. Ensures-then (set_up_all-Ensures _ created) λ cmd. run_remove-Ensures cmd
