-- ===== src/Dentries/Shared.antt =====
-- The operations on entries where other clients use the bucket and every call may fail.
use cbfuse.Prelude.{negate, ◌≡◌, ◌≢◌, inl, refl, Option, some, none, List, [], ◌∷◌, CString, str_eq}
use cbfuse.Common.{dentries, eio}
use cbfuse.Io.Leaves.{
  Leaves, Replied, Leaves-pure, Leaves-jump, Leaves-perform, Leaves-bind, Leaves-call, Leaves-if,
  Leaves-if_null, Leaves-returning, Leaves-or_done,
}
use cbfuse.Platform.{StoreMode, Platform}
use cbfuse.Platform.Shared.{IsShared, Quiet, Change}
use cbfuse.Util.Shared.{Unchanged, code-ne-zero, Quiet-trans, Quiet-refl}
use cbfuse.Sync.Shared.{get_document-Leaves}
use cbfuse.Sync.Changes.{Asked, Torn-Unchanged}
use cbfuse.Sync.Commits.{store_document-Leaves, remove_document-Leaves}
use cbfuse.Stats.Shared.{Attempts, Commits, Commits-finish, Attempts-zero}
use cbfuse.Json.{CJson}
use cbfuse.Json.Local.{IsLocal}
use cbfuse.Dentries.{
  get_dentry_json, if_not_array, replace_dentry, add_child_to_dentry, remove_dentry,
  remove_child_from_dentry, copy_other, copy_others, dentry_settings,
}

module _ (P : Platform) (shared : IsShared P) (J : CJson P) (local : IsLocal P shared J) where
  open P use {State}
  open J use {Json}

  -- The entry that stands for the directory by then is written over.
  abbrev pub Relists : CString → Change → Type 0
  Relists k ch =
      (ch.collection ≡ dentries)
      × (ch.key ≡ k)
      × (text : CString) × (ch.new ≡ some text)
      × (ch.before dentries k ≢ none)

  -- An entry that was not there.
  abbrev pub Enters : CString → Change → Type 0
  Enters k ch =
      (ch.collection ≡ dentries)
      × (ch.key ≡ k)
      × (text : CString) × (ch.new ≡ some text)
      × (ch.before dentries k ≡ none)

  module _ (s : State) where
    if_not_array-Leaves :
        (o : Option Json) {t : State}
        → Quiet P shared s t
        → Leaves
            (if_not_array P J o (negate eio))
            t
            (λ j u. Quiet P shared s u)
            (Unchanged P shared s)
    unfolding if_not_array
    if_not_array-Leaves none q = Leaves-jump _ (q, code-ne-zero 4)
    if_not_array-Leaves (some j) q =
        Leaves-if (J.is_array j) _ _ (λ h. Leaves-pure j q) λ h. Leaves-jump _ (q, code-ne-zero 4)

    get_dentry_json-Leaves :
        (k : CString) {t : State}
        → Quiet P shared s t
        → Leaves
            (get_dentry_json P J k)
            t
            (Replied (λ j u. Quiet P shared s u) (Unchanged P shared s))
            (Unchanged P shared s)
    unfolding get_dentry_json
    get_dentry_json-Leaves k q = Leaves-returning _ _ (
        Leaves-bind (get_document-Leaves P shared s dentries k q)
          λ r u (h, q'). Leaves-perform _ (Quiet-trans P shared q' (local.parse_quiet _ u)))

    replace_dentry-Attempts :
        (k : CString) (j : Json) {t : State}
        → Quiet P shared s t
        → Attempts P shared s (replace_dentry P J k j) t (Relists k)
    unfolding replace_dentry
    replace_dentry-Attempts k j {t} q =
        let q' : Quiet P shared s (J.print j t).1 =
          Quiet-trans P shared q (local.print_quiet j t) in
        Leaves-call _ _ (
          Leaves-bind {Q = λ text u. Quiet P shared s u}
            (Leaves-if_null (J.print j t).0 _ (λ text e. q') (inl (q', code-ne-zero 4)))
            λ text u q''.
              Attempts-zero P shared (Quiet-refl P shared s)
                (λ ch (in_c, at_k, is, (there, current)). (in_c, at_k, text, is, there))
                (store_document-Leaves P shared s dentries k q'' StoreMode.replace
                  (dentry_settings k text) text refl refl refl refl))

    pub add_child_to_dentry-Commits :
        (k name : CString) {t : State}
        → Quiet P shared s t
        → Commits P shared s (add_child_to_dentry P J k name) t (Relists k)
    unfolding add_child_to_dentry
    add_child_to_dentry-Commits k name q = Commits-finish P shared (
        Leaves-bind (Torn-Unchanged P shared (get_dentry_json-Leaves k q)) λ got u reply.
          Leaves-bind (Torn-Unchanged P shared (Leaves-or_done _ _ got reply)) λ parsed u' q'.
            Leaves-bind {Q = λ d u. Quiet P shared s u}
              (Leaves-if_null parsed _ (λ d e. q') (inl (q', code-ne-zero 4)))
              λ dentry v q''.
                Leaves-bind (Torn-Unchanged P shared (if_not_array-Leaves _ q'')) λ children w q3.
                  Leaves-call _ _ (
                    Leaves-bind {Q = λ d u. Quiet P shared s u}
                      (Leaves-if_null _ _
                        (λ d e. Quiet-trans P shared q3 (local.string_quiet name w))
                        (inl (Quiet-trans P shared q3 (local.string_quiet name w), code-ne-zero 4)))
                      λ grown w' q4. replace_dentry-Attempts k _ q4))

    pub remove_dentry-Commits :
        (k : CString) {t : State}
        → Quiet P shared s t
        → Commits P shared s
            (remove_dentry P J k)
            t
            (Asked P shared dentries k none (λ before. before dentries k ≢ none))
    unfolding remove_dentry
    remove_dentry-Commits k q = Commits-finish P shared (
        Attempts-zero P shared (Quiet-refl P shared s) (λ ch h. h)
          (remove_document-Leaves P shared s dentries k q))

    copy_other-Leaves :
        (name : CString) (copied : Option Json) (text : Option CString) {t : State}
        → Quiet P shared s t
        → Leaves
            (copy_other P J name copied text)
            t
            (λ j u. Quiet P shared s u)
            (Unchanged P shared s)
    unfolding copy_other
    copy_other-Leaves name copied none q = Leaves-pure copied q
    copy_other-Leaves name copied (some text) {t} q =
        let q' : Quiet P shared s (J.create_string text t).1 =
          Quiet-trans P shared q (local.string_quiet text t) in
        Leaves-if (str_eq text name) _ _ (λ h. Leaves-pure copied q)
          λ h. Leaves-call _ _ (
            Leaves-bind {Q = λ d u. Quiet P shared s u}
              (Leaves-if_null _ _ (λ d e. q') (q', code-ne-zero 4))
              λ grown u q''. Leaves-pure _ q'')

    copy_others-Leaves :
        (name : CString) (copied : Option Json) (children : List Json) {t : State}
        → Quiet P shared s t
        → Leaves
            (copy_others P J name copied children)
            t
            (λ j u. Quiet P shared s u)
            (Unchanged P shared s)
    unfolding copy_others
    copy_others-Leaves name copied [] q = Leaves-pure copied q
    copy_others-Leaves name copied (child ∷ children) q =
        Leaves-bind (copy_other-Leaves name copied _ q)
          λ next u q'. copy_others-Leaves name next children q'

    pub remove_child_from_dentry-Commits :
        (k name : CString) {t : State}
        → Quiet P shared s t
        → Commits P shared s (remove_child_from_dentry P J k name) t (Relists k)
    unfolding remove_child_from_dentry
    remove_child_from_dentry-Commits k name q = Commits-finish P shared (
        Leaves-bind (Torn-Unchanged P shared (get_dentry_json-Leaves k q)) λ got u reply.
          Leaves-bind (Torn-Unchanged P shared (Leaves-or_done _ _ got reply)) λ parsed u' q'.
            Leaves-bind {Q = λ d u. Quiet P shared s u}
              (Leaves-if_null parsed _ (λ d e. q') (inl (q', code-ne-zero 4)))
              λ dentry v q''.
                Leaves-bind (Torn-Unchanged P shared (if_not_array-Leaves _ q'')) λ children w q3.
                  Leaves-call _ _ (
                    Leaves-bind
                      (Torn-Unchanged P shared (
                        copy_others-Leaves name _ _
                          (Quiet-trans P shared q3 (local.array_quiet w))))
                      λ copied w' q4. Leaves-call _ _ (
                        replace_dentry-Attempts k _
                          (Quiet-trans P shared q4 (local.replace_quiet dentry _ copied w')))))
