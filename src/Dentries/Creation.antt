-- ===== src/Dentries/Creation.antt =====
-- A new directory entry over a reliable server and a lawful cJSON.
use cbfuse.Prelude.{
  ◌≤◌, length, pos, ◌≡◌, ◌≢◌, refl, ap, ◌∙◌, Option, none, some, List, [], CString, map, str_eq,
  str_eq_iff, false≢true,
}
use cbfuse.Common.{max_key_len, dentries, dentry_dir_path, dentry_par_path, dentry_children}
use cbfuse.Io.Rules.{
  Yields, Yields-then, Yields-bind, Yields-next, Yields-pure, Yields-call, Yields-perform,
  Yields-map, Yields-finish, Yields-returning,
}
use cbfuse.Platform.{StoreMode, Platform}
use cbfuse.Platform.Reliable.{IsReliable, put}
use cbfuse.Platform.Puts.{put_self}
use cbfuse.Sync.Rules.{Same, Same-trans}
use cbfuse.Sync.Documents.{Same-at, store_document-accepted}
use cbfuse.Json.{CJson}
use cbfuse.Json.Lawful.{IsLawful, HasNames}
use cbfuse.Dentries.{create_dentry, add_names, add_new_dentry, dentry_settings, null_if_done}
use cbfuse.Dentries.Entries.{Relisted}

par-ne-dir : dentry_par_path ≢ dentry_dir_path
unfolding str_eq
par-ne-dir e = false≢true ((str_eq_iff dentry_par_path dentry_dir_path).1 e)

children-ne-dir : dentry_children ≢ dentry_dir_path
unfolding str_eq
children-ne-dir e = false≢true ((str_eq_iff dentry_children dentry_dir_path).1 e)

children-ne-par : dentry_children ≢ dentry_par_path
unfolding str_eq
children-ne-par e = false≢true ((str_eq_iff dentry_children dentry_par_path).1 e)

module _ (P : Platform) (rel : IsReliable P) (J : CJson P) (lawful : IsLawful P rel J) where
  open P use {State}
  open rel use {contents}
  open J use {Json}

  -- The text of an entry that lists these children.
  abbrev pub Lists : List CString → Option CString → State → State → Type 0
  Lists names r s t =
      (text : CString) × (i : Json) × (r ≡ some text)
      × ((u : State) → (J.parse (some text) u).0 ≡ some i)
      × HasNames J i dentry_children names
      × Same P rel s t

  -- A new entry lists no children.
  create_dentry-Yields :
      (dir : CString) (parent : Option CString) (s : State)
      → Yields (create_dentry P J dir parent []) s (λ r t. Lists [] r s t)
  unfolding create_dentry add_names
  create_dentry-Yields dir parent s =
      let (o, e, bare, s1) = lawful.create_object_lem s in
      let (d, ed, s2) = lawful.create_string_reference_lem (some dir) _ in
      let (o1, e1, has1, same1, s3) =
        lawful.add_item_to_object_lem o d dentry_dir_path _ (bare dentry_dir_path) in
      let (p, ep, s4) = lawful.create_string_reference_lem parent _ in
      let (o2, e2, has2, same2, s5) =
        lawful.add_item_to_object_lem o1 p dentry_par_path _
          (same1 dentry_par_path par-ne-dir ∙ bare dentry_par_path) in
      let (a, ea, array, empty, s6) = lawful.create_array_lem _ in
      let (o3, e3, has3, same3, s7) = lawful.add_item_to_object_lem o2 a dentry_children _ (
        same2 dentry_children children-ne-par
        ∙ same1 dentry_children children-ne-dir
        ∙ bare dentry_children) in
      let (text, i, et, parses, keeps, s8) = lawful.print_lem o3 _ in
      let same = Same-trans P rel s1 (
        Same-trans P rel s2 (
          Same-trans P rel s3 (
            Same-trans P rel s4
              (Same-trans P rel s5 (Same-trans P rel s6 (Same-trans P rel s7 s8)))))) in
      Yields-bind {Q = λ r t. Lists [] (null_if_done r) s t}
        (Yields-map
          (Yields-returning (
            Yields-call _ _ e (
              Yields-next _ (
                Yields-call _ _ ed (
                  Yields-call _ _ e1 (
                    Yields-next _ (
                      Yields-call _ _ ep (
                        Yields-call _ _ e2 (
                          Yields-next _ (
                            Yields-call _ _ ea (
                              Yields-next _ (
                                Yields-call _ _ e3 (
                                  Yields-next _ (
                                    Yields-perform et (
                                      text,
                                      i,
                                      refl,
                                      parses,
                                      keeps dentry_children []
                                          (a, has3, array, ap (map J.string_value) empty),
                                      same,
                                    )))))))))))))))
          λ r t (b, e', q). rw e' q)
        λ r t q. Yields-pure _ t q

  -- For a path that fits and has no entry, add_new_dentry stores one that parses to an object with an empty
  -- list of children; no other document changes. The platform and cJSON are reliable.
  pub add_new_dentry-Yields :
      (key dir : CString) (parent : Option CString) (s : State)
      → length key ≤ max_key_len
      → contents s dentries key ≡ none
      → Yields (add_new_dentry P J key dir parent) s (Relisted P rel J lawful key [] s)
  unfolding add_new_dentry
  add_new_dentry-Yields key dir parent s short gone = Yields-finish (
      Yields-bind (create_dentry-Yields dir parent s) λ r t (text, i, e, parses, listed, same).
        rw e (
          Yields-next _ (
            Yields-then _
              (store_document-accepted P rel StoreMode.insert (dentry_settings key text) dentries
                key text t refl refl refl refl (short, tt) (Same-at P rel dentries key same ∙ gone))
              λ u docs.
                let docs' = docs ∙ ap (put dentries key (some text)) same.docs in
                Yields-pure (pos 0) u (
                  refl,
                  text,
                  docs',
                  (
                    i,
                    (
                      text,
                      ap (λ f. f dentries key) docs'
                          ∙ put_self dentries key (some text) (contents s),
                      parses,
                    ),
                    listed,
                  ),
                ))))
