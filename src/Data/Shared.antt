-- ===== src/Data/Shared.antt =====
-- The removal of a block where other clients use the bucket and every call may fail.
use cbfuse.Prelude.{◌≢◌, none, CString}
use cbfuse.Common.{blocks}
use cbfuse.Platform.{Platform}
use cbfuse.Platform.Shared.{IsShared, Quiet}
use cbfuse.Util.Shared.{Quiet-refl}
use cbfuse.Sync.Changes.{Asked}
use cbfuse.Sync.Commits.{remove_document-Leaves}
use cbfuse.Stats.Shared.{Commits, Commits-finish, Attempts-zero}
use cbfuse.Data.{remove_data}

module _ (P : Platform) (shared : IsShared P) (s : P.State) where
  pub remove_data-Commits :
      (k : CString) {t : P.State}
      → Quiet P shared s t
      → Commits P shared s
          (remove_data P k)
          t
          (Asked P shared blocks k none (λ before. before blocks k ≢ none))
  unfolding remove_data
  remove_data-Commits k q = Commits-finish P shared (
      Attempts-zero P shared (Quiet-refl P shared s) (λ ch h. h)
        (remove_document-Leaves P shared s blocks k q))
