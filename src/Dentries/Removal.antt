-- ===== src/Dentries/Removal.antt =====
-- The removal of a child from a directory entry over a reliable server and a lawful cJSON.
use mathlib.Core.List.{map-append, append_assoc, append-nil}
use cbfuse.Prelude.{
  negate, ◌≡◌, refl, sym, ap, ◌∙◌, true, Option, some, some-ne-none, List, [], ◌∷◌, ◌++◌, CString,
  map, str_eq, if◌then◌else◌, Bool-cases, inl, inr,
}
use cbfuse.Common.{eio, dentry_children}
use cbfuse.Io.Rules.{
  Yields, Yields-then, Yields-bind, Yields-next, Yields-pure, Yields-map, Yields-call,
  Yields-finish,
}
use cbfuse.Platform.{Platform}
use cbfuse.Platform.Reliable.{IsReliable}
use cbfuse.Sync.Rules.{Same, Same-refl, Same-trans}
use cbfuse.Json.{CJson}
use cbfuse.Json.Lawful.{IsLawful, texts}
use cbfuse.Dentries.{copy_other, copy_others, remove_child_from_dentry}
use cbfuse.Dentries.Entries.{
  HasChildren, Relisted, get_dentry_json-found, if_not_array-Ends, replace_dentry-Yields,
}

-- The names that are not `name`, in their order.
abbrev pub without : CString → List CString → List CString
without name [] = []
without name (n ∷ ns) = let rest = without name ns in if str_eq n name then rest else n ∷ rest

head_or : Option CString → List (Option CString) → Option CString
head_or d [] = d
head_or d (x ∷ xs) = x

rest_of : List (Option CString) → List (Option CString)
rest_of [] = []
rest_of (x ∷ xs) = xs

pub cons-head :
    {x y : Option CString} {xs ys : List (Option CString)}
    → ◌≡◌ {A = List (Option CString)} (x ∷ xs) (y ∷ ys)
    → x ≡ y
unfolding head_or
cons-head {x = x} e = ap (head_or x) e

pub cons-tail :
    {x y : Option CString} {xs ys : List (Option CString)}
    → ◌≡◌ {A = List (Option CString)} (x ∷ xs) (y ∷ ys)
    → xs ≡ ys
unfolding rest_of
cons-tail e = ap rest_of e

module _ (P : Platform) (rel : IsReliable P) (J : CJson P) (lawful : IsLawful P rel J) where
  open P use {State}
  open rel use {contents}
  open J use {Json}

  -- The array that is built lists these names.
  abbrev Built : List CString → Option Json → State → State → Type 0
  Built names r s t =
      (d : Json) × (r ≡ some d)
      × (J.is_array d ≡ true)
      × (texts J d ≡ map some names)
      × Same P rel s t

  -- One string is copied to the end, or is the name and left out.
  copy_other-Yields :
      (name n : CString) (c : Json) (acc : List CString) (s : State)
      → J.is_array c ≡ true
      → texts J c ≡ map some acc
      → Yields
          (copy_other P J name (some c) (some n))
          s
          (λ r t. Built (acc ++ without name (n ∷ [])) r s t)
  unfolding copy_other
  copy_other-Yields name n c acc s array listed = elim (Bool-cases (str_eq n name)) [
    | inl same_name ↦ rw same_name (
        Yields-pure _ s
          (c, refl, array, listed ∙ ap (map some) (sym (append-nil acc)), Same-refl P rel s))
    | inr other ↦ rw other (
        let (x, e, named, after) = lawful.create_string_lem n s in
        let (b, grown, array', listed') = lawful.add_item_to_array_lem c x n array named in
        Yields-call _ _ e (
          rw grown (
            Yields-next _ (
              Yields-pure _ _ (
                b,
                refl,
                array',
                listed' ∙ ap (λ l. l ++ (some n ∷ [])) listed ∙ sym (map-append some acc (n ∷ [])),
                after,
              )))))
  ]

  without-cons :
      (name n : CString) (ns acc : List CString)
      → (acc ++ without name (n ∷ [])) ++ without name ns ≡ acc ++ without name (n ∷ ns)
  without-cons name n ns acc = elim (Bool-cases (str_eq n name)) [
    | inl same_name ↦ rw same_name (ap (λ l. l ++ without name ns) (append-nil acc))
    | inr other ↦ rw other (append_assoc acc (n ∷ []) (without name ns))
  ]

  -- The loop copies the names that differ, in their order.
  copy_others-Yields :
      (name : CString) (js : List Json) (names : List CString) (c : Json) (acc : List CString)
      (s : State)
      → map J.string_value js ≡ map some names
      → J.is_array c ≡ true
      → texts J c ≡ map some acc
      → Yields (copy_others P J name (some c) js) s (λ r t. Built (acc ++ without name names) r s t)
  unfolding copy_others
  copy_others-Yields name [] [] c acc s e array listed =
      Yields-pure _ s
        (c, refl, array, listed ∙ ap (map some) (sym (append-nil acc)), Same-refl P rel s)
  copy_others-Yields name [] (n ∷ ns) c acc s e array listed = cc
  copy_others-Yields name (j ∷ js) [] c acc s e array listed = cc
  copy_others-Yields name (j ∷ js) (n ∷ ns) c acc s e array listed = rw (cons-head e) (
      Yields-bind (copy_other-Yields name n c acc s array listed)
        λ r t (d, e', array', listed', same). rw e' (
          Yields-map
            (copy_others-Yields name js ns d (acc ++ without name (n ∷ [])) t (cons-tail e) array'
              listed')
            λ r' u (f, e'', array'', listed'', same'). (
              f,
              e'',
              array'',
              listed'' ∙ ap (map some) (without-cons name n ns acc),
              Same-trans P rel same same',
            )))

  -- Removing a child from a directory with an entry rewrites the entry so that it lists all other
  -- names in their order, wherever and however often the name stood in it; no other document
  -- changes. The platform and cJSON are reliable.
  pub remove_child_from_dentry-Yields :
      (key child : CString) (names : List CString) (s : State)
      → HasChildren P rel J lawful key names s
      → Yields
          (remove_child_from_dentry P J key child)
          s
          (Relisted P rel J lawful key (without child names) s)
  unfolding remove_child_from_dentry
  remove_child_from_dentry-Yields key child names s (j, entry, (a, member, array, listed)) =
      Yields-finish (
        Yields-then _ (get_dentry_json-found P rel J lawful key j s entry) λ t same. Yields-next _ (
          Yields-next _ (
            rw member (
              Yields-then _
                (if_not_array-Ends P rel J lawful a (negate eio) t (Same P rel s) array same)
                λ u same'.
                  let (c, e, fresh, empty, after) = lawful.create_array_lem u in
                  Yields-call _ _ e (
                    Yields-bind
                      (copy_others-Yields child (J.items a) names c [] _ listed fresh
                        (ap (map J.string_value) empty))
                      λ r w (d, e', array', listed', after'). rw e' (
                        let replaced =
                          lawful.get-replace j d dentry_children w
                            (λ gone. some-ne-none a (sym member ∙ gone)) in
                        Yields-call _ _ refl (
                          replace_dentry-Yields P rel J lawful key _ (without child names) s _
                            (λ gone. some-ne-none entry.0 (sym entry.1 ∙ gone))
                            (Same-trans P rel same'
                              (Same-trans P rel after (Same-trans P rel after' replaced.1)))
                            (d, replaced.0, array', listed'))))))))
