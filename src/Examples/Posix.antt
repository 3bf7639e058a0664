-- ===== src/Examples/Posix.antt =====
-- dirname and basename on absolute paths, which split at the last slash.
use cbfuse.Prelude.{
  ℕ, pos, ◌≡◌, sym, ap₂, ◌∙◌, Option, none, some, some-injective, [], ◌∷◌, ◌++◌, CString, codes,
  ◌==◌, str_eq, if◌then◌else◌,
}
use cbfuse.Platform.{Platform}
use cbfuse.Cbfuse.{Fuse}
use cbfuse.Tree.{IsPosix}
use cbfuse.Examples.Server.{server}

abbrev extend : ℕ → Option (CString × CString) → CString → Option (CString × CString)
extend c (some (d, n)) s = some (c ∷ d, n)
extend c none s = if c == 47 then some ([], s) else none

-- What stands before and behind the last slash.
unfoldable pub last_slash : CString → Option (CString × CString)
last_slash [] = none
last_slash (c ∷ s) = extend c (last_slash s) s

abbrev directory_part : Option (CString × CString) → CString
directory_part none = codes "."
directory_part (some ([], n)) = codes "/"
directory_part (some (c ∷ d, n)) = c ∷ d

abbrev name_part : Option (CString × CString) → CString → CString
name_part none s = s
name_part (some (d, [])) s = s
name_part (some (d, c ∷ n)) s = c ∷ n

abbrev pub dirname_of : CString → CString
dirname_of s = directory_part (last_slash s)

abbrev pub basename_of : CString → CString
basename_of s = name_part (last_slash s) s

abbrev pub over : (CString → CString) → Option CString → Option CString
over f none = none
over f (some s) = some (f s)

abbrev pub join : CString → CString → CString
join d n = if str_eq d (codes "/") then 47 ∷ n else d ++ (47 ∷ n)

abbrev pub posix_on : (P : Platform) → Fuse P
posix_on P = record {
  dirname = over dirname_of;
  basename = over basename_of;
  context = λ m. ((501, 20), m);
  filler = λ n off m. (pos 0, m);
}

abbrev pub posix_fuse : Fuse server
posix_fuse = posix_on server

-- A path that its parts make up again.
abbrev pub posix_paths : IsPosix posix_fuse
posix_paths = record {
  IsNormal = λ p. join (dirname_of p) (basename_of p) ≡ p;
  dirname-basename = λ p q d n hp hq dp dq bp bq.
      sym hp
      ∙ ap₂ join (some-injective (dirname_of p) d dp ∙ sym (some-injective (dirname_of q) d dq))
          (some-injective (basename_of p) n bp ∙ sym (some-injective (basename_of q) n bq))
      ∙ hq;
}
