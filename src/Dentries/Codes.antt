-- ===== src/Dentries/Codes.antt =====
-- With which codes the operations on entries end, on any platform and with any cJSON.
use cbfuse.Prelude.{ℤ, pos, negate, refl, Option, some, none, List, [], ◌∷◌, CString, str_eq}
use cbfuse.Common.{dentries, eio}
use cbfuse.Io.Codes.{
  Ensures, IsCode, IsReply, Ensures-pure, Ensures-jump, Ensures-perform, Ensures-then, Ensures-bind,
  Ensures-if_null, Ensures-or_done, Ensures-returning, Ensures-finish, Ensures-if,
}
use cbfuse.Platform.{StoreMode, Platform}
use cbfuse.Sync.Codes.{get_document-Ensures, store_document-Ensures, remove_document-Ensures}
use cbfuse.Json.{CJson}
use cbfuse.Dentries.{
  get_dentry_json, create_dentry, add_names, add_new_dentry, if_not_array, replace_dentry,
  add_child_to_dentry, remove_dentry, remove_child_from_dentry, copy_other, copy_others,
}

module _ (P : Platform) (J : CJson P) where
  open J use {Json}

  get_dentry_json-Ensures : (k : CString) → Ensures (get_dentry_json P J k) IsReply
  unfolding get_dentry_json
  get_dentry_json-Ensures k =
      Ensures-returning (Ensures-then (get_document-Ensures P dentries k) λ r. Ensures-perform _)

  if_not_array-Ensures :
      (o : Option Json) (fr : ℤ) → IsCode fr → Ensures (if_not_array P J o fr) (λ a. Unit {0})
  unfolding if_not_array
  if_not_array-Ensures none fr c = Ensures-jump fr c
  if_not_array-Ensures (some j) fr c =
      Ensures-if (J.is_array j) _ _ (Ensures-pure j tt) (Ensures-jump fr c)

  create_dentry-Ensures :
      (dir : CString) (parent : Option CString) (names : List CString)
      → Ensures (create_dentry P J dir parent names) (λ a. Unit {0})
  unfolding create_dentry add_names
  create_dentry-Ensures dir parent names =
      Ensures-then
        (Ensures-returning (
          Ensures-then (Ensures-perform _) λ made.
            Ensures-then (Ensures-if_null made (pos 0) refl) λ dentry.
              Ensures-then (Ensures-perform _) λ d. Ensures-then (Ensures-perform _) λ added.
                Ensures-then (Ensures-if_null added (pos 0) refl) λ with_dir.
                  Ensures-then (Ensures-perform _) λ p. Ensures-then (Ensures-perform _) λ added'.
                    Ensures-then (Ensures-if_null added' (pos 0) refl) λ with_parent.
                      Ensures-then (Ensures-perform _) λ array.
                        Ensures-then (add_names-Ensures array names) λ children.
                          Ensures-then (Ensures-perform _) λ added''.
                            Ensures-then (Ensures-if_null added'' (pos 0) refl)
                              λ complete. Ensures-perform _))
        λ ended. Ensures-pure _ tt
    where
      add_names-Ensures :
          (children : Option Json) (ns : List CString)
          → Ensures (add_names P J children ns) (λ a. Unit {0})
      add_names-Ensures children [] = Ensures-pure children tt
      add_names-Ensures children (n ∷ ns) = Ensures-then (Ensures-perform _) λ item.
          Ensures-then (Ensures-if_null _ (pos 0) refl) λ grown. add_names-Ensures (some grown) ns

  pub add_new_dentry-Ensures :
      (k dir : CString) (parent : Option CString) → Ensures (add_new_dentry P J k dir parent) IsCode
  unfolding add_new_dentry
  add_new_dentry-Ensures k dir parent = Ensures-finish (
      Ensures-then (create_dentry-Ensures dir parent []) λ dentry.
        Ensures-then (Ensures-if_null dentry (pos 0) refl) λ text.
          Ensures-then (store_document-Ensures P StoreMode.insert _) λ u. Ensures-pure (pos 0) refl)

  replace_dentry-Ensures : (k : CString) (j : Json) → Ensures (replace_dentry P J k j) IsCode
  unfolding replace_dentry
  replace_dentry-Ensures k j = Ensures-then (Ensures-perform _) λ printed.
      Ensures-then (Ensures-if_null printed (negate eio) refl) λ text.
        Ensures-then (store_document-Ensures P StoreMode.replace _) λ u. Ensures-pure (pos 0) refl

  pub add_child_to_dentry-Ensures :
      (k name : CString) → Ensures (add_child_to_dentry P J k name) IsCode
  unfolding add_child_to_dentry
  add_child_to_dentry-Ensures k name = Ensures-finish (
      Ensures-bind (get_dentry_json-Ensures k) λ got reply.
        Ensures-then (Ensures-or_done got reply) λ parsed.
          Ensures-then (Ensures-if_null parsed (negate eio) refl) λ dentry.
            Ensures-then (if_not_array-Ensures _ (negate eio) refl) λ children.
              Ensures-then (Ensures-perform _) λ item.
                Ensures-then (Ensures-if_null _ (negate eio) refl)
                  λ grown. replace_dentry-Ensures k _)

  pub remove_dentry-Ensures : (k : CString) → Ensures (remove_dentry P J k) IsCode
  unfolding remove_dentry
  remove_dentry-Ensures k =
      Ensures-finish
        (Ensures-then (remove_document-Ensures P dentries k) λ u. Ensures-pure (pos 0) refl)

  copy_other-Ensures :
      (name : CString) (copied : Option Json) (text : Option CString)
      → Ensures (copy_other P J name copied text) (λ a. Unit {0})
  unfolding copy_other
  copy_other-Ensures name copied none = Ensures-pure copied tt
  copy_other-Ensures name copied (some text) =
      Ensures-if (str_eq text name) _ _ (Ensures-pure copied tt) (
        Ensures-then (Ensures-perform _)
          λ item. Ensures-then (Ensures-if_null _ (negate eio) refl) λ grown. Ensures-pure _ tt)

  copy_others-Ensures :
      (name : CString) (copied : Option Json) (children : List Json)
      → Ensures (copy_others P J name copied children) (λ a. Unit {0})
  unfolding copy_others
  copy_others-Ensures name copied [] = Ensures-pure copied tt
  copy_others-Ensures name copied (child ∷ children) =
      Ensures-then (copy_other-Ensures name copied _) λ next. copy_others-Ensures name next children

  pub remove_child_from_dentry-Ensures :
      (k name : CString) → Ensures (remove_child_from_dentry P J k name) IsCode
  unfolding remove_child_from_dentry
  remove_child_from_dentry-Ensures k name = Ensures-finish (
      Ensures-bind (get_dentry_json-Ensures k) λ got reply.
        Ensures-then (Ensures-or_done got reply) λ parsed.
          Ensures-then (Ensures-if_null parsed (negate eio) refl) λ dentry.
            Ensures-then (if_not_array-Ensures _ (negate eio) refl) λ children.
              Ensures-then (Ensures-perform _) λ array.
                Ensures-then (copy_others-Ensures name array _) λ copied.
                  Ensures-then (Ensures-perform _) λ replaced. replace_dentry-Ensures k replaced)
