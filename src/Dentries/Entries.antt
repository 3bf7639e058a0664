-- ===== src/Dentries/Entries.antt =====
-- The change of a directory entry over a reliable server and a lawful cJSON.
use cbfuse.Prelude.{
  ℤ, pos, negate, ◌≡◌, ◌≢◌, refl, sym, ap, ◌∙◌, true, none, some, some-ne-none, List, [], ◌∷◌, ◌++◌,
  CString, length, take, take_all,
}
use mathlib.Core.List.{map-append}
use cbfuse.Common.{dentries, enoent, eio, dentry_children}
use cbfuse.Io.{value, ok, err}
use cbfuse.Io.Rules.{
  Ends, Yields, Ends-then, Ends-bind, Ends-pure, Ends-jump, Ends-returning, Ends-returning_value,
  Yields-then, Yields-next, Yields-pure, Yields-call, Yields-finish, Ends-finish_jump, Ends-jump_at,
}
use cbfuse.Platform.{StoreMode, Platform}
use cbfuse.Platform.Reliable.{IsReliable, put}
use cbfuse.Platform.Puts.{put_self}
use cbfuse.Sync.Rules.{Same, Same-trans}
use cbfuse.Sync.Documents.{
  Same-at, present-key, get_document-found, get_document-missing, store_document-accepted,
}
use cbfuse.Json.{CJson}
use cbfuse.Json.Lawful.{IsLawful, HasNames}
use cbfuse.Dentries.{
  get_dentry_json, if_not_array, replace_dentry, add_child_to_dentry, dentry_settings,
}

module _ (P : Platform) (rel : IsReliable P) (J : CJson P) (lawful : IsLawful P rel J) where
  open P use {State}
  open rel use {contents}
  open J use {Json}

  -- The entry of a directory parses to `j`.
  abbrev pub Parses : CString → Json → State → Type 0
  Parses key j s =
      (text : CString) × (contents s dentries key ≡ some text)
      × ((u : State) → (J.parse (some text) u).0 ≡ some j)

  -- The directory has an entry, which lists these children in this order.
  abbrev pub HasChildren : CString → List CString → State → Type 0
  HasChildren key names s = (j : Json) × Parses key j s × HasNames J j dentry_children names

  -- The children of a directory are those of its document.
  pub HasChildren-at :
      (key : CString) (names : List CString) (s t : State)
      → contents t dentries key ≡ contents s dentries key
      → HasChildren key names s
      → HasChildren key names t
  HasChildren-at key names s t e (j, (text, there, parses), listed) =
      (j, (text, e ∙ there, parses), listed)

  pub get_dentry_json-found :
      (key : CString) (j : Json) (s : State)
      → Parses key j s
      → Ends (get_dentry_json P J key) s (value (ok (some j))) (Same P rel s)
  unfolding get_dentry_json
  get_dentry_json-found key j s (text, there, parses) = Ends-returning_value (
      Ends-bind (get_document-found P rel dentries key text s there) λ r t (h1, h2, h3, same).
        rw (h1, h2)
          (let e : (J.parse (some (take (length text) text)) t).0 ≡ some j =
              ap (λ b. (J.parse (some b) t).0) (take_all text) ∙ parses t in
            record {
              after = (J.parse (some (take (length text) text)) t).1;
              runs = ap (λ x. (value x, (J.parse (some (take (length text) text)) t).1)) e;
              holds = Same-trans P rel same (lawful.parse_lem _ t);
            }))

  pub get_dentry_json-missing :
      (key : CString) (s : State)
      → contents s dentries key ≡ none
      → Ends (get_dentry_json P J key) s (value (err (negate enoent))) (Same P rel s)
  unfolding get_dentry_json
  get_dentry_json-missing key s gone =
      Ends-returning (Ends-jump _ (get_document-missing P rel dentries key s gone))

  -- One entry is rewritten, and it lists these children.
  abbrev pub Relisted : CString → List CString → State → ℤ → State → Type 0
  Relisted key names s fr t =
      (fr ≡ pos 0)
      × (text : CString) × (contents t ≡ put dentries key (some text) (contents s))
      × HasChildren key names t

  -- A tree that lists `names` is printed and stored over the entry.
  pub replace_dentry-Yields :
      (key : CString) (j : Json) (names : List CString) (s t : State)
      → contents s dentries key ≢ none
      → Same P rel s t
      → HasNames J j dentry_children names
      → Yields (replace_dentry P J key j) t (Relisted key names s)
  unfolding replace_dentry
  replace_dentry-Yields key j names s t there same listed =
      let (text, i, e, parses, keeps, same') = lawful.print_lem j t in
      let both = Same-trans P rel same same' in
      Yields-call _ _ e (
        Yields-next _ (
          Yields-then _
            (store_document-accepted P rel StoreMode.replace (dentry_settings key text) dentries key
              text (J.print j t).1 refl refl refl refl (present-key P rel dentries key s there, tt)
              (λ gone. there (sym (Same-at P rel dentries key both) ∙ gone)))
            λ u docs.
              let docs' = docs ∙ ap (put dentries key (some text)) both.docs in
              Yields-pure (pos 0) u (
                refl,
                text,
                docs',
                (
                  i,
                  (
                    text,
                    ap (λ f. f dentries key) docs' ∙ put_self dentries key (some text) (contents s),
                    parses,
                  ),
                  keeps dentry_children names listed,
                ),
              )))

  pub if_not_array-Ends :
      (a : Json) (fr : ℤ) (s : State) (Q : State → Type 0)
      → J.is_array a ≡ true
      → Q s
      → Ends (if_not_array P J (some a) fr) s (value a) Q
  unfolding if_not_array
  if_not_array-Ends a fr s Q h q = rw h (Ends-pure a s q)

  -- Adding a child to a directory with an entry rewrites the entry so that it lists the old names
  -- and then the new one; no other document changes. The platform and cJSON are reliable.
  pub add_child_to_dentry-Yields :
      (key child : CString) (names : List CString) (s : State)
      → HasChildren key names s
      → Yields (add_child_to_dentry P J key child) s (Relisted key (names ++ (child ∷ [])) s)
  unfolding add_child_to_dentry
  add_child_to_dentry-Yields key child names s (j, entry, (a, member, array, listed)) =
      Yields-finish (
        Yields-then _ (get_dentry_json-found key j s entry) λ t same. Yields-next _ (
          Yields-next _ (
            rw member (
              Yields-then _ (if_not_array-Ends a (negate eio) t (Same P rel s) array same)
                λ u same'.
                  let (x, e, named, after) = lawful.create_string_lem child u in
                  let (b, grown, array', listed') =
                    lawful.add_item_to_array_lem a x child array named in
                  Yields-call _ _ e (
                    rw grown (
                      Yields-next _ (
                        replace_dentry-Yields key (J.set_member j dentry_children b)
                          (names ++ (child ∷ [])) s _
                          (λ gone. some-ne-none entry.0 (sym entry.1 ∙ gone))
                          (Same-trans P rel same' after)
                          (
                            b,
                            lawful.get-set j b dentry_children
                                (λ gone. some-ne-none a (sym member ∙ gone)),
                            array',
                            listed'
                                ∙ ap (λ l. l ++ (some child ∷ [])) listed
                                ∙ sym (map-append some names (child ∷ [])),
                          ))))))))

  -- A directory with no entry gets no child.
  pub add_child_to_dentry-missing :
      (key child : CString) (s : State)
      → contents s dentries key ≡ none
      → Ends (add_child_to_dentry P J key child) s (value (negate enoent)) (Same P rel s)
  unfolding add_child_to_dentry
  add_child_to_dentry-missing key child s gone = Ends-finish_jump (
      Ends-then _ (get_dentry_json-missing key s gone)
        λ t same. Ends-jump _ (Ends-jump_at (negate enoent) t same))
