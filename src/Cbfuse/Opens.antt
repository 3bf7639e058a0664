-- ===== src/Cbfuse/Opens.antt =====
-- open over a reliable server, on every branch.
use cbfuse.Prelude.{
  ℕ, ◌≤◌, ◌<◌, ℤ, pos, negate, ◌≡◌, ◌≢◌, refl, ap, ◌∙◌, Option, none, some, List, CString, length,
  le→ltb, lt→ltb, eq→==, ne→==,
}
use cbfuse.Common.{stats, max_path_len, enoent, ebadf, enametoolong}
use cbfuse.Io.{value, ok, err}
use cbfuse.Io.Rules.{
  Ends, Ends-then, Ends-pure, Ends-jump, Ends-jump_at, Ends-next, Ends-finish, Ends-finish_jump,
}
use cbfuse.Io.Guards.{Ends-eq, if_true-jump, if_true-pass}
use cbfuse.Platform.{Stat, Platform}
use cbfuse.Platform.Reliable.{IsReliable}
use cbfuse.Sync.Rules.{Same, Same-refl}
use cbfuse.Stats.Reads.{get_stat-Ends, stat_reply}
use cbfuse.Json.{CJson}
use cbfuse.Cbfuse.{Fuse, cbfuse_open}

-- What open has to say of a path, by its length and the document of its stat: `size` is that of the
-- struct.
pub data Opening (size : ℕ) (path : CString) (there : Option (List ℕ)) (r : ℤ) : Type 0 where
  too_long : max_path_len < length path → r ≡ pos enametoolong → Opening size path there r
  missing :
      length path ≤ max_path_len → there ≡ none → r ≡ negate enoent → Opening size path there r
  opened :
      (v : List ℕ)
      → length path ≤ max_path_len
      → there ≡ some v
      → length v ≡ size
      → r ≡ pos 0
      → Opening size path there r
  corrupt :
      (v : List ℕ)
      → length path ≤ max_path_len
      → there ≡ some v
      → length v ≢ size
      → r ≡ negate ebadf
      → Opening size path there r

module _ (P : Platform) (rel : IsReliable P) (J : CJson P) (F : Fuse P) (path : CString)
    (s : P.State) where
  open P use {State, stat_struct_size}
  open rel use {contents, cas_at}

  -- The reply of get_stat decides.
  opened-ok :
      (x : Stat × ℕ)
      → length path ≤ max_path_len
      → stat_reply P rel (contents s stats path) (cas_at s stats path) ≡ ok x
      → Ends (cbfuse_open P J F path) s (value (pos 0)) (Same P rel s)
  unfolding cbfuse_open
  opened-ok x short e = Ends-finish (
      if_true-pass _ _ _ (le→ltb max_path_len (length path) short) (
        Ends-then _ (Ends-eq (ap value e) (get_stat-Ends P rel path s))
          λ t same. Ends-next _ (Ends-pure (pos 0) t same)))

  opened-err :
      (fr : ℤ)
      → length path ≤ max_path_len
      → stat_reply P rel (contents s stats path) (cas_at s stats path) ≡ err fr
      → Ends (cbfuse_open P J F path) s (value fr) (Same P rel s)
  unfolding cbfuse_open
  opened-err fr short e = Ends-finish_jump (
      if_true-pass _ _ _ (le→ltb max_path_len (length path) short) (
        Ends-then _ (Ends-eq (ap value e) (get_stat-Ends P rel path s))
          λ t same. Ends-jump _ (Ends-jump_at fr t same)))

  opened-too_long :
      max_path_len < length path
      → Ends (cbfuse_open P J F path) s (value (pos enametoolong)) (Same P rel s)
  unfolding cbfuse_open
  opened-too_long long =
      Ends-finish_jump
        (if_true-jump _ _ _ (lt→ltb max_path_len (length path) long) (Same-refl P rel s))

  -- open on every branch: ENAMETOOLONG with no minus sign for a path of more than 250 characters;
  -- for any other -ENOENT where it has no stat, 0 where the document of the stat has the size of
  -- the struct, and -EBADF where it has another size. No document changes. The platform is
  -- reliable.
  pub open-Opening :
      (r : ℤ)
      → Opening stat_struct_size path (contents s stats path) r
      → Ends (cbfuse_open P J F path) s (value r) (Same P rel s)
  open-Opening r (too_long long e) = rw e (opened-too_long long)
  open-Opening r (missing short gone e) =
      rw e
        (opened-err (negate enoent) short (ap (λ o. stat_reply P rel o (cas_at s stats path)) gone))
  open-Opening r (opened v short there size e) = rw e (
      opened-ok (P.stat_of_bytes v, cas_at s stats path) short
        (ap (λ o. stat_reply P rel o (cas_at s stats path)) there
          ∙ rw (eq→== (length v) stat_struct_size size) refl))
  open-Opening r (corrupt v short there size e) = rw e (
      opened-err (negate ebadf) short (
        ap (λ o. stat_reply P rel o (cas_at s stats path)) there
        ∙ rw (ne→== (length v) stat_struct_size size) refl))
