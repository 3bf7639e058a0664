-- ===== src/Cbfuse/Codes.antt =====
-- With which codes the operations end, on any platform.
use cbfuse.Prelude.{ℕ, ℤ, pos, negate, refl, not, Option, some, CString, ◌==◌}
use cbfuse.Common.{enoent, einval, enametoolong}
use cbfuse.Io.{Io, pure, ◌>>=◌, ◌>>◌, if_fr_error}
use cbfuse.Io.Codes.{
  Ensures, IsCode, Ensures-pure, Ensures-then, Ensures-bind, Ensures-if_true, Ensures-if_false,
  Ensures-if_null, Ensures-if_fr_error, Ensures-or_done, Ensures-finish,
}
use cbfuse.Platform.{Timespec, Platform}
use cbfuse.Util.Codes.{strdup-Ensures}
use cbfuse.Stats.Codes.{
  get_stat-Ensures, insert_stat-Ensures, remove_stat-Ensures, update_stat_mode-Ensures,
  update_stat_utimens-Ensures,
}
use cbfuse.Data.Codes.{remove_data-Ensures, truncate_data-Ensures}
use cbfuse.Json.{CJson}
use cbfuse.Dentries.Codes.{
  add_new_dentry-Ensures, add_child_to_dentry-Ensures, remove_dentry-Ensures,
  remove_child_from_dentry-Ensures,
}
use cbfuse.Cbfuse.{
  Fuse, s_isreg, or_ifdir, split_path, cbfuse_open, cbfuse_create, cbfuse_unlink, cbfuse_chmod,
  cbfuse_truncate, cbfuse_utimens, cbfuse_mkdir, cbfuse_rmdir,
}

-- The result of a last call is returned, whether it is an error or not.
answered :
    {S : Type 0} (m : Io S ℤ)
    → Ensures m IsCode
    → Ensures (m >>= λ fr. if_fr_error fr >> pure fr) IsCode
answered m e = Ensures-bind e λ fr c. Ensures-then (Ensures-if_fr_error fr c) λ u. Ensures-pure fr c

module _ (P : Platform) (J : CJson P) (F : Fuse P) where
  split_path-Ensures : (path : CString) → Ensures (split_path P J F path) (λ a. Unit {0})
  unfolding split_path
  split_path-Ensures path =
      Ensures-then (strdup-Ensures P path)
        λ d. Ensures-then (strdup-Ensures P path) λ b. Ensures-if_null _ (negate enoent) refl

  cbfuse_create-Ensures :
      (path : CString) (mode : ℕ) → Ensures (cbfuse_create P J F path mode) IsCode
  unfolding cbfuse_create
  cbfuse_create-Ensures path mode = Ensures-finish (
      Ensures-then (split_path-Ensures path) λ names.
        Ensures-then (Ensures-if_false (s_isreg mode) (negate einval) refl) λ u.
          Ensures-then (Ensures-if_true _ (pos enametoolong) refl) λ v.
            Ensures-bind (insert_stat-Ensures P path mode) λ fr c.
              Ensures-then (Ensures-if_fr_error fr c)
                λ w. answered _ (add_child_to_dentry-Ensures P J names.0 names.1))

  cbfuse_mkdir-Ensures : (path : CString) (mode : ℕ) → Ensures (cbfuse_mkdir P J F path mode) IsCode
  unfolding cbfuse_mkdir
  cbfuse_mkdir-Ensures path mode = Ensures-finish (
      Ensures-then (split_path-Ensures path) λ names.
        Ensures-then (Ensures-if_false (not (or_ifdir mode == 0)) (negate einval) refl) λ u.
          Ensures-bind (insert_stat-Ensures P path mode) λ fr c.
            Ensures-then (Ensures-if_fr_error fr c) λ w.
              Ensures-bind (add_new_dentry-Ensures P J path path (some names.0)) λ fr' c'.
                Ensures-then (Ensures-if_fr_error fr' c')
                  λ w'. answered _ (add_child_to_dentry-Ensures P J names.0 names.1))

  cbfuse_unlink-Ensures : (path : CString) → Ensures (cbfuse_unlink P J F path) IsCode
  unfolding cbfuse_unlink
  cbfuse_unlink-Ensures path = Ensures-finish (
      Ensures-then (split_path-Ensures path) λ names. Ensures-then (remove_data-Ensures P path) λ r.
        Ensures-then (remove_child_from_dentry-Ensures P J names.0 names.1)
          λ r'. answered _ (remove_stat-Ensures P path))

  cbfuse_rmdir-Ensures : (path : CString) → Ensures (cbfuse_rmdir P J F path) IsCode
  unfolding cbfuse_rmdir
  cbfuse_rmdir-Ensures path = Ensures-finish (
      Ensures-then (split_path-Ensures path) λ names.
        Ensures-then (remove_dentry-Ensures P J path) λ r.
          Ensures-then (remove_child_from_dentry-Ensures P J names.0 names.1)
            λ r'. answered _ (remove_stat-Ensures P path))

  cbfuse_open-Ensures : (path : CString) → Ensures (cbfuse_open P J F path) IsCode
  unfolding cbfuse_open
  cbfuse_open-Ensures path = Ensures-finish (
      Ensures-then (Ensures-if_true _ (pos enametoolong) refl) λ u.
        Ensures-bind (get_stat-Ensures P path)
          λ got reply. Ensures-then (Ensures-or_done got reply) λ r. Ensures-pure (pos 0) refl)

  -- Whatever the server, memory, the clock, cJSON and the path functions do, the result with
  -- which open, create, unlink, chmod, truncate, utimens, mkdir or rmdir returns, where it
  -- returns, is 0, one of -EIO, -ENOENT, -EBADF, -ENOMEM, -EINVAL and -EFBIG, or ENAMETOOLONG
  -- with no minus sign.
  pub operations-IsCode :
      (path : CString) (mode size : ℕ) (tv : Option (Timespec × Timespec))
      → Ensures (cbfuse_open P J F path) IsCode
        × Ensures (cbfuse_create P J F path mode) IsCode
        × Ensures (cbfuse_unlink P J F path) IsCode
        × Ensures (cbfuse_chmod P J F path mode) IsCode
        × Ensures (cbfuse_truncate P J F path size) IsCode
        × Ensures (cbfuse_utimens P J F path tv) IsCode
        × Ensures (cbfuse_mkdir P J F path mode) IsCode
        × Ensures (cbfuse_rmdir P J F path) IsCode
  unfolding cbfuse_chmod cbfuse_truncate cbfuse_utimens
  operations-IsCode path mode size tv = (
    cbfuse_open-Ensures path,
    cbfuse_create-Ensures path mode,
    cbfuse_unlink-Ensures path,
    Ensures-finish (answered _ (update_stat_mode-Ensures P path mode)),
    Ensures-finish (answered _ (truncate_data-Ensures P path size)),
    Ensures-finish (answered _ (update_stat_utimens-Ensures P path tv)),
    cbfuse_mkdir-Ensures path mode,
    cbfuse_rmdir-Ensures path,
  )
