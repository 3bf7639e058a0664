-- ===== src/Common.antt =====
-- The constants of cbfuse/common.c, and the numbers of errno.h (as on macOS, where cbfuse runs).
use cbfuse.Prelude.{ℕ, ◌*◌, CString, codes}

abbrev pub max_key_len : ℕ
max_key_len = 250

abbrev pub max_doc_len : ℕ
max_doc_len = 20 * 1024 * 1024

abbrev pub max_path_len : ℕ
max_path_len = max_key_len

abbrev pub max_file_blocks : ℕ
max_file_blocks = 256

abbrev pub max_file_len : ℕ
max_file_len = max_file_blocks * max_doc_len

abbrev pub root_dir_string : CString
root_dir_string = codes "/"

-- The collections of the default scope that the program names.
pub data Collection : Type 0 where
  stats dentries blocks : Collection

-- The members of a directory entry: its own path, its parent's, and the names of its children.
abbrev pub dentry_dir_path : CString
dentry_dir_path = codes "d"

abbrev pub dentry_par_path : CString
dentry_par_path = codes "p"

abbrev pub dentry_children : CString
dentry_children = codes "c"

abbrev pub enoent : ℕ
enoent = 2

abbrev pub eio : ℕ
eio = 5

abbrev pub ebadf : ℕ
ebadf = 9

abbrev pub enomem : ℕ
enomem = 12

abbrev pub einval : ℕ
einval = 22

abbrev pub efbig : ℕ
efbig = 27

abbrev pub enametoolong : ℕ
enametoolong = 63
