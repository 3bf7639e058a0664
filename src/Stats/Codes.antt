-- ===== src/Stats/Codes.antt =====
-- With which codes the operations on stats end, on any platform.
use cbfuse.Prelude.{ℕ, ℤ, pos, negate, refl, Option, CString}
use cbfuse.Common.{stats, eio, ebadf}
use cbfuse.Io.{Io, pure, ◌>>=◌, or_done, finish}
use cbfuse.Io.Codes.{
  Ensures, IsCode, IsReply, Ensures-pure, Ensures-perform, Ensures-then, Ensures-bind,
  Ensures-if_true, Ensures-if_null, Ensures-or_done, Ensures-returning, Ensures-finish, Ensures-if,
}
use cbfuse.Platform.{StoreMode, Stat, Timespec, Platform}
use cbfuse.Util.Codes.{read_bytes-Ensures}
use cbfuse.Sync.Codes.{get_document-Ensures, store_document-Ensures, remove_document-Ensures}
use cbfuse.Stats.{
  get_stat, get_time, insert_stat, remove_stat, write_back, needs_now, update_stat_atime,
  update_stat_utimens, update_stat_size, update_stat_mode,
}

module _ (P : Platform) where
  pub get_stat-Ensures : (k : CString) → Ensures (get_stat P k) IsReply
  unfolding get_stat
  get_stat-Ensures k = Ensures-returning (
      Ensures-then (get_document-Ensures P stats k) λ r.
        Ensures-then (Ensures-if_true _ (negate ebadf) refl) λ u.
          Ensures-then (read_bytes-Ensures r.value P.stat_struct_size)
            λ bytes. Ensures-pure {Q = λ a. Unit {0}} _ tt)

  get_time-Ensures : Ensures (get_time P) (λ a. Unit {0})
  unfolding get_time
  get_time-Ensures = Ensures-then (Ensures-perform _) λ ts. Ensures-if_null ts (negate eio) refl

  write_back-Ensures :
      (k : CString) (x : Stat) (cas : ℕ) → Ensures (write_back P k x cas) (λ a. Unit {0})
  unfolding write_back
  write_back-Ensures k x cas = store_document-Ensures P StoreMode.replace _

  pub insert_stat-Ensures : (k : CString) (mode : ℕ) → Ensures (insert_stat P k mode) IsCode
  unfolding insert_stat
  insert_stat-Ensures k mode = Ensures-finish (
      Ensures-then get_time-Ensures λ ts.
        Ensures-then (store_document-Ensures P StoreMode.insert _) λ u. Ensures-pure (pos 0) refl)

  pub remove_stat-Ensures : (k : CString) → Ensures (remove_stat P k) IsCode
  unfolding remove_stat
  remove_stat-Ensures k =
      Ensures-finish
        (Ensures-then (remove_document-Ensures P stats k) λ u. Ensures-pure (pos 0) refl)

  -- A stat is read, and what follows ends with a code.
  updated :
      (k : CString) (rest : Stat × ℕ → Io P.State ℤ)
      → ((read : Stat × ℕ) → Ensures (rest read) IsCode)
      → Ensures (finish (get_stat P k >>= λ got. or_done got >>= rest)) IsCode
  updated k rest e =
      Ensures-finish
        (Ensures-bind (get_stat-Ensures k) λ got reply. Ensures-then (Ensures-or_done got reply) e)

  -- The write at the end of an update.
  written :
      (k : CString) (x : Stat) (cas : ℕ)
      → Ensures (write_back P k x cas >>= λ u. pure (pos 0)) IsCode
  written k x cas = Ensures-then (write_back-Ensures k x cas) λ u. Ensures-pure (pos 0) refl

  pub update_stat_atime-Ensures : (k : CString) → Ensures (update_stat_atime P k) IsCode
  unfolding update_stat_atime
  update_stat_atime-Ensures k =
      updated k _ λ read. Ensures-then get_time-Ensures λ ts. written k _ read.1

  pub update_stat_utimens-Ensures :
      (k : CString) (tv : Option (Timespec × Timespec))
      → Ensures (update_stat_utimens P k tv) IsCode
  unfolding update_stat_utimens
  update_stat_utimens-Ensures k tv = updated k _ λ read.
      Ensures-then (Ensures-if (needs_now tv) _ _ get_time-Ensures (Ensures-pure _ tt))
        λ ts. written k _ read.1

  pub update_stat_size-Ensures : (k : CString) (n : ℕ) → Ensures (update_stat_size P k n) IsCode
  unfolding update_stat_size
  update_stat_size-Ensures k n =
      updated k _ λ read. Ensures-then get_time-Ensures λ ts. written k _ read.1

  pub update_stat_mode-Ensures :
      (k : CString) (mode : ℕ) → Ensures (update_stat_mode P k mode) IsCode
  unfolding update_stat_mode
  update_stat_mode-Ensures k mode = updated k _ λ read. written k _ read.1
