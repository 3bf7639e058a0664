-- ===== src/Sync/Commits.antt =====
-- A whole store and a whole remove on a server that other clients use too.
use cbfuse.Prelude.{ℕ, ◌≡◌, ◌≢◌, ap, Option, some, none, List, [], ◌∷◌, CString}
use cbfuse.Common.{Collection}
use cbfuse.Io.Leaves.{Leaves, Leaves-bind}
use cbfuse.Platform.{
  Kind, StoreMode, Setting, Command, new_command, Platform, in_collection, with_key,
}
use cbfuse.Platform.Reliable.{Contents}
use cbfuse.Platform.Shared.{IsShared, Quiet, Suits}
use cbfuse.Sync.{SyncStoreResult, SyncRemoveResult}
use cbfuse.Sync.Commands.{run_store, run_remove, store_document, remove_document}
use cbfuse.Sync.Shared.{create-Leaves, set_up_all-Leaves, all_set}
use cbfuse.Sync.Changes.{
  Made, Torn, Torn-Unchanged, Asked, Fitting, checked, sync_store-Leaves, sync_remove-Leaves,
}

module _ (P : Platform) (shared : IsShared P) where
  open P use {State}

  module _ (s : State) (c : Collection) (k : CString) (cmd : Command) {t : State}
      (q : Quiet P shared s t) (in_c : cmd.collection ≡ some c) (at_k : cmd.key ≡ some k) where
    pub run_store-Leaves :
        (m : StoreMode) (v : List ℕ)
        → cmd.kind ≡ Kind.store m
        → cmd.value ≡ some v
        → Leaves
            (run_store P cmd)
            t
            (λ a u.
              Made P shared s
                (Asked P shared c k (some v) (Fitting P shared s c k cmd q in_c at_k m))
                u)
            (Torn P shared s
              (Asked P shared c k (some v) (Fitting P shared s c k cmd q in_c at_k m)))
    unfolding run_store
    run_store-Leaves m v kind value =
        Leaves-bind (sync_store-Leaves P shared s c k cmd q in_c at_k m v kind value)
          λ ran u h. checked P shared (λ (x : SyncStoreResult). x.status) s _ ran h

    pub run_remove-Leaves :
        cmd.kind ≡ Kind.remove
        → Leaves
            (run_remove P cmd)
            t
            (λ a u. Made P shared s (Asked P shared c k none (λ before. before c k ≢ none)) u)
            (Torn P shared s (Asked P shared c k none (λ before. before c k ≢ none)))
    unfolding run_remove
    run_remove-Leaves kind =
        Leaves-bind (sync_remove-Leaves P shared s c k cmd q in_c at_k kind)
          λ ran u h. checked P shared (λ (x : SyncRemoveResult). x.status) s _ ran h

  module _ (s : State) (c : Collection) (k : CString) {t : State} (q : Quiet P shared s t) where
    -- A document as it was given out with this CAS value, if the store asks for one.
    abbrev pub IsCurrent : Option ℕ → Contents → Type 0
    IsCurrent cas before =
        (n : ℕ) (w : List ℕ) → cas ≡ some n → shared.Issued s c k n w → before c k ≡ some w

    -- A store makes one change at most, and it has made it where it goes on.
    pub store_document-Leaves :
        (m : StoreMode) (settings : List Setting) (v : List ℕ)
        → (all_set settings (new_command (Kind.store m))).kind ≡ Kind.store m
        → (all_set settings (new_command (Kind.store m))).collection ≡ some c
        → (all_set settings (new_command (Kind.store m))).key ≡ some k
        → (all_set settings (new_command (Kind.store m))).value ≡ some v
        → Leaves
            (store_document P m settings)
            t
            (λ a u.
              Made P shared s
                (Asked P shared c k (some v) (λ before.
                  Suits m (before c k)
                  × IsCurrent (all_set settings (new_command (Kind.store m))).cas before))
                u)
            (Torn P shared s (
              Asked P shared c k (some v) (λ before.
                Suits m (before c k)
                × IsCurrent (all_set settings (new_command (Kind.store m))).cas before)))
    unfolding store_document
    store_document-Leaves m settings v kind in_c at_k value =
        Leaves-bind (Torn-Unchanged P shared (create-Leaves P shared s (Kind.store m) q))
          λ created u (e, q').
            Leaves-bind (Torn-Unchanged P shared (set_up_all-Leaves P shared s settings created q'))
              λ cmd w (e', q'').
                let is : cmd ≡ all_set settings (new_command (Kind.store m)) = rw e at e' in
                rw is (
                  run_store-Leaves s c k (all_set settings (new_command (Kind.store m))) q'' in_c
                    at_k m v kind value)

    -- A remove deletes one document at most, and it has deleted it where it goes on.
    pub remove_document-Leaves :
        Leaves
          (remove_document P c k)
          t
          (λ a u. Made P shared s (Asked P shared c k none (λ before. before c k ≢ none)) u)
          (Torn P shared s (Asked P shared c k none (λ before. before c k ≢ none)))
    unfolding remove_document
    remove_document-Leaves =
        Leaves-bind (Torn-Unchanged P shared (create-Leaves P shared s Kind.remove q))
          λ created u (e, q').
            Leaves-bind
              (Torn-Unchanged P shared
                (set_up_all-Leaves P shared s (in_collection c ∷ with_key k ∷ []) created q'))
              λ cmd w (e', q'').
                let is : cmd
                    ≡ all_set (in_collection c ∷ with_key k ∷ []) (new_command Kind.remove) =
                  rw e at e' in
                run_remove-Leaves s c k cmd q'' (ap (λ (x : Command). x.collection) is)
                  (ap (λ (x : Command). x.key) is) (ap (λ (x : Command). x.kind) is)
