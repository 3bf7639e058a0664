-- ===== src/Tree/Removals.antt =====
-- unlink and rmdir change the documents of a path and its directory as the tree says.
use cbfuse.Prelude.{ℕ, pos, ◌≡◌, ◌≢◌, refl, sym, ap, ◌∙◌, Option, some, none, List, CString}
use cbfuse.Common.{Collection, stats, dentries, blocks}
use cbfuse.Io.Rules.{Yields, Yields-map}
use cbfuse.Platform.{Stat, Platform}
use cbfuse.Platform.Reliable.{IsReliable, Contents, put}
use cbfuse.Platform.Puts.{put_self, put_other, put_ne}
use cbfuse.Json.{CJson}
use cbfuse.Json.Lawful.{IsLawful}
use cbfuse.Dentries.Entries.{HasChildren}
use cbfuse.Dentries.Removal.{without}
use cbfuse.Cbfuse.{Fuse, cbfuse_unlink, cbfuse_rmdir}
use cbfuse.Cbfuse.Removal.{unlink-removes, rmdir-removes}
use cbfuse.Tree.{file, directory, Fs, set, Splits}
use cbfuse.Tree.Represents.{At, Represents, at, set_two-Represents}

module _ (P : Platform) (rel : IsReliable P) (J : CJson P) (F : Fuse P) (lawful : IsLawful P rel J)
    (fs : Fs) (path dir name : CString) (s : P.State) (R : Represents P rel J lawful fs s)
    (splits : Splits F path dir name) where
  open P use {State}
  open rel use {contents}

  module _ (y : Stat) (names : List CString) (parent : fs dir ≡ some (directory y names)) where
    dir-At : At P rel J lawful (some (directory y names)) dir s
    dir-At = at P rel J lawful fs dir (some (directory y names)) s parent R

    -- What unlink and rmdir leave, where `c` is the collection that they clear beside the stats.
    removed-Represents :
        (c : Collection) (text : CString) (t : State)
        → path ≢ dir
        → contents t
          ≡ put stats path none (put dentries dir (some text) (put c path none (contents s)))
        → put c path none (contents s) dentries path ≡ none
        → put c path none (contents s) blocks path ≡ none
        → HasChildren P rel J lawful dir (without name names) t
        → Represents P rel J lawful
            (set dir (some (directory y (without name names))) (set path none fs))
            t
    removed-Represents c text t apart docs no_entry no_block listed =
        let low : Contents = put c path none (contents s) in
        let mid : Contents = put dentries dir (some text) low in
        set_two-Represents P rel J lawful fs dir _ path none s t
          (λ j far away d.
            ap (λ f. f d j) docs
            ∙ put_ne stats d path j none mid away
            ∙ put_ne dentries d dir j (some text) low far
            ∙ put_ne c d path j none (contents s) away)
          (
            ap (λ f. f stats dir) docs
                ∙ put_ne stats stats path dir none mid apart
                ∙ put_other dentries stats dir dir (some text) low refl
                ∙ put_ne c stats path dir none (contents s) apart
                ∙ dir-At.0,
            listed,
            ap (λ f. f blocks dir) docs
                ∙ put_ne stats blocks path dir none mid apart
                ∙ put_other dentries blocks dir dir (some text) low refl
                ∙ put_ne c blocks path dir none (contents s) apart
                ∙ dir-At.2,
          )
          (
            ap (λ f. f stats path) docs ∙ put_self stats path none mid,
            ap (λ f. f dentries path) docs
                ∙ put_other stats dentries path path none mid refl
                ∙ put_ne dentries dentries dir path (some text) low (λ q. apart (sym q))
                ∙ no_entry,
            ap (λ f. f blocks path) docs
                ∙ put_other stats blocks path path none mid refl
                ∙ put_other dentries blocks dir path (some text) low refl
                ∙ no_block,
          )
          R

    pub unlink_file-Represents :
        (x : Stat) (b : Option (List ℕ))
        → fs path ≡ some (file x b)
        → Yields (cbfuse_unlink P J F path) s (λ r t.
          (r ≡ pos 0)
          × Represents P rel J lawful
              (set dir (some (directory y (without name names))) (set path none fs))
              t)
    unlink_file-Represents x b there =
        let (h, h', h'') = at P rel J lawful fs path (some (file x b)) s there R in
        let clash : path ≡ dir → some (file x b) ≡ some (directory y names) =
          λ e. sym there ∙ ap fs e ∙ parent in
        Yields-map
          (unlink-removes P rel J F lawful path dir name names (P.stat_bytes x) s splits.0 splits.1
            h dir-At.1)
          λ r t (e, text, docs, listed). (
            e,
            removed-Represents blocks text t (λ q. cc) docs
                (put_other blocks dentries path path none (contents s) refl ∙ h')
                (put_self blocks path none (contents s)) listed,
          )

    pub rmdir-Represents :
        (x : Stat) (kids : List CString)
        → path ≢ dir
        → fs path ≡ some (directory x kids)
        → Yields (cbfuse_rmdir P J F path) s (λ r t.
          (r ≡ pos 0)
          × Represents P rel J lawful
              (set dir (some (directory y (without name names))) (set path none fs))
              t)
    rmdir-Represents x kids apart there =
        let (h, (j, (entry, found, parses), names_of), h'') =
          at P rel J lawful fs path (some (directory x kids)) s there R in
        Yields-map
          (rmdir-removes P rel J F lawful path dir name names (P.stat_bytes x) entry s apart
            splits.0 splits.1 h found dir-At.1)
          λ r t (e, text, docs, listed). (
            e,
            removed-Represents dentries text t apart docs (put_self dentries path none (contents s))
                (put_other dentries blocks path path none (contents s) refl ∙ h'') listed,
          )
