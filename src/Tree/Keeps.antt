-- ===== src/Tree/Keeps.antt =====
-- A tree stays a tree under a change of one node, the addition of a node and the removal of one.
use cbfuse.Prelude.{ℕ, ◌≡◌, sym, ap, ◌∙◌, Option, some, List, CString, length, inl, inr}
use cbfuse.Common.{root_dir_string}
use cbfuse.Platform.{Stat, Platform}
use cbfuse.Data.Writes.{bytes_of}
use cbfuse.Cbfuse.{Fuse}
use cbfuse.Tree.{Node, file, directory, Fs, set, IsPosix, IsTree, Listed}
use cbfuse.Tree.Names.{set-cases}

module _ {P : Platform} (F : Fuse P) (posix : IsPosix F) (fs fs' : Fs) where
  Listed-kept :
      (path : CString)
      → ((d : CString) (y : Stat) (ns : List CString)
          → fs d ≡ some (directory y ns)
          → (z : Stat) × (fs' d ≡ some (directory z ns)))
      → Listed F posix fs path
      → Listed F posix fs' path
  Listed-kept path dirs (d, m, y, ns, normal, hd, hb, there, member) =
      let (z, there') = dirs d y ns there in (d, m, z, ns, normal, hd, hb, there', member)

  -- Stats change, and no path becomes or ceases to be a directory or a file.
  same_shape :
      ((d : CString) (y : Stat) (ns : List CString)
        → fs d ≡ some (directory y ns)
        → (z : Stat) × (fs' d ≡ some (directory z ns)))
      → ((d : CString) (y : Stat) (ns : List CString)
          → fs' d ≡ some (directory y ns)
          → (z : Stat) × (fs d ≡ some (directory z ns)))
      → ((q : CString) (n : Node) → fs q ≡ some n → (n' : Node) × (fs' q ≡ some n'))
      → ((q : CString) (n : Node) → fs' q ≡ some n → (n' : Node) × (fs q ≡ some n'))
      → ((q : CString) (x : Stat) (b : Option (List ℕ))
          → fs' q ≡ some (file x b)
          → x.size ≡ length (bytes_of b))
      → IsTree F posix fs
      → IsTree F posix fs'
  same_shape dirs dirs_back nodes nodes_back sizes T = record {
    root =
        let (y, ns, there) = T.root in
        let (z, there') = dirs root_dir_string y ns there in (z, ns, there');
    listed = λ q n h apart.
        let (n', h') = nodes_back q n h in Listed-kept q dirs (T.listed q n' h' apart);
    leads = λ d m y ns h member.
        let (z, h') = dirs_back d y ns h in
        let (q, n, normal, hd, hb, there) = T.leads d m z ns h' member in
        let (n', there') = nodes q n there in (q, n', normal, hd, hb, there');
    sizes = sizes;
  }

module _ {P : Platform} (F : Fuse P) (posix : IsPosix F) (fs : Fs) (path : CString) where
  -- A file gets another stat and other bytes, of one size.
  pub file-IsTree :
      (x x' : Stat) (b b' : Option (List ℕ))
      → fs path ≡ some (file x b)
      → x'.size ≡ length (bytes_of b')
      → IsTree F posix fs
      → IsTree F posix (set path (some (file x' b')) fs)
  file-IsTree x x' b b' there fits T =
      same_shape F posix fs (set path (some (file x' b')) fs)
        (λ d y ns h. elim (set-cases path (some (file x' b')) fs d) [
          | inl (same, e) ↦ cc
          | inr (other, e) ↦ (y, e ∙ h)
        ])
        (λ d y ns h. elim (set-cases path (some (file x' b')) fs d) [
          | inl (same, e) ↦ cc
          | inr (other, e) ↦ (y, sym e ∙ h)
        ])
        (λ q n h. elim (set-cases path (some (file x' b')) fs q) [
          | inl (same, e) ↦ (file x' b', e)
          | inr (other, e) ↦ (n, e ∙ h)
        ])
        (λ q n h. elim (set-cases path (some (file x' b')) fs q) [
          | inl (same, e) ↦ (file x b, ap fs (sym same) ∙ there)
          | inr (other, e) ↦ (n, sym e ∙ h)
        ])
        (λ q z c h. elim (set-cases path (some (file x' b')) fs q) [
          | inl (same, e) ↦ cc
          | inr (other, e) ↦ T.sizes q z c (sym e ∙ h)
        ])
        T

  -- A directory gets another stat.
  pub directory-IsTree :
      (x x' : Stat) (names : List CString)
      → fs path ≡ some (directory x names)
      → IsTree F posix fs
      → IsTree F posix (set path (some (directory x' names)) fs)
  directory-IsTree x x' names there T =
      same_shape F posix fs (set path (some (directory x' names)) fs)
        (λ d y ns h. elim (set-cases path (some (directory x' names)) fs d) [
          | inl (same, e) ↦ (x', cc)
          | inr (other, e) ↦ (y, e ∙ h)
        ])
        (λ d y ns h. elim (set-cases path (some (directory x' names)) fs d) [
          | inl (same, e) ↦ (x, cc)
          | inr (other, e) ↦ (y, sym e ∙ h)
        ])
        (λ q n h. elim (set-cases path (some (directory x' names)) fs q) [
          | inl (same, e) ↦ (directory x' names, e)
          | inr (other, e) ↦ (n, e ∙ h)
        ])
        (λ q n h. elim (set-cases path (some (directory x' names)) fs q) [
          | inl (same, e) ↦ (directory x names, ap fs (sym same) ∙ there)
          | inr (other, e) ↦ (n, sym e ∙ h)
        ])
        (λ q z c h. elim (set-cases path (some (directory x' names)) fs q) [
          | inl (same, e) ↦ cc
          | inr (other, e) ↦ T.sizes q z c (sym e ∙ h)
        ])
        T
