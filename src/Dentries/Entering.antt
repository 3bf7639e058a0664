-- ===== src/Dentries/Entering.antt =====
-- A new entry, where other clients use the bucket and every call may fail.
use cbfuse.Prelude.{ℤ, pos, ◌≡◌, ◌⊎◌, inl, inr, refl, Option, some, none, List, [], ◌∷◌, CString}
use cbfuse.Common.{dentries}
use cbfuse.Io.{Io, Reply, ok, err, perform, if_null, ◌>>=◌}
use cbfuse.Io.Leaves.{
  Leaves, Replied, Leaves-pure, Leaves-bind, Leaves-call, Leaves-perform, Leaves-if_null,
  Leaves-map, Leaves-returning, Leaves-finish,
}
use cbfuse.Platform.{StoreMode, Platform}
use cbfuse.Platform.Shared.{IsShared, Quiet}
use cbfuse.Util.Shared.{Quiet-trans, Quiet-refl}
use cbfuse.Sync.Changes.{Made, Torn, Torn-after, Made-map}
use cbfuse.Sync.Commits.{store_document-Leaves}
use cbfuse.Json.{CJson}
use cbfuse.Json.Local.{IsLocal}
use cbfuse.Dentries.{create_dentry, add_names, add_new_dentry, dentry_settings}
use cbfuse.Dentries.Shared.{Enters}

module _ (P : Platform) (shared : IsShared P) (J : CJson P) (local : IsLocal P shared J)
    (s : P.State) where
  open P use {State}

  -- A body that changes nothing.
  abbrev IsCalm : {A : Type 0} → Io State A → State → Type 0
  IsCalm m t = Leaves m t (λ a u. Quiet P shared s u) (λ e u. Quiet P shared s u)

  IsCalm-call :
      {A B : Type 0} (f : State → A × State) (g : A → Io State B) {t : State}
      → Quiet P shared t (f t).1
      → Quiet P shared s t
      → ((a : A) (u : State) → Quiet P shared s u → IsCalm (g a) u)
      → IsCalm (perform f >>= g) t
  IsCalm-call f g {t} quiet q h = Leaves-call f g (h (f t).0 (f t).1 (Quiet-trans P shared q quiet))

  IsCalm-if_null :
      {A B : Type 0} (o : Option A) (fr : ℤ) (g : A → Io State B) {t : State}
      → Quiet P shared s t
      → ((a : A) (u : State) → Quiet P shared s u → IsCalm (g a) u)
      → IsCalm (if_null o fr >>= g) t
  IsCalm-if_null o fr g q h =
      Leaves-bind {Q = λ a u. Quiet P shared s u} (Leaves-if_null o fr (λ a e. q) q) h

  add_names-IsCalm :
      (children : Option J.Json) (names : List CString) {t : State}
      → Quiet P shared s t
      → IsCalm (add_names P J children names) t
  unfolding add_names
  add_names-IsCalm children [] q = Leaves-pure children q
  add_names-IsCalm children (name ∷ names) {t} q =
      IsCalm-call _ _ (local.reference_quiet (some name) t) q λ item u q'.
        IsCalm-if_null _ (pos 0) _ q' λ grown w q''. add_names-IsCalm (some grown) names q''

  create_dentry-IsCalm :
      (dir : CString) (parent : Option CString) (names : List CString) {t : State}
      → Quiet P shared s t
      → IsCalm (create_dentry P J dir parent names) t
  unfolding create_dentry
  create_dentry-IsCalm dir parent names {t} q =
      Leaves-bind {Q = λ a u. Quiet P shared s u}
        (Leaves-map
          (Leaves-returning (λ a u. Quiet P shared s u) (λ e u. Quiet P shared s u)
            (IsCalm-call _ _ (local.object_quiet t) q λ made t1 q1.
              IsCalm-if_null made (pos 0) _ q1 λ dentry t2 q2.
                IsCalm-call _ _ (local.reference_quiet _ t2) q2 λ d t3 q3.
                  IsCalm-call _ _ (local.member_quiet _ _ _ t3) q3 λ added t4 q4.
                    IsCalm-if_null added (pos 0) _ q4 λ with_dir t5 q5.
                      IsCalm-call _ _ (local.reference_quiet _ t5) q5 λ p t6 q6.
                        IsCalm-call _ _ (local.member_quiet _ _ _ t6) q6 λ added' t7 q7.
                          IsCalm-if_null added' (pos 0) _ q7 λ with_parent t8 q8.
                            IsCalm-call _ _ (local.array_quiet t8) q8 λ array t9 q9.
                              Leaves-bind (add_names-IsCalm array names q9) λ children ta qa.
                                IsCalm-call _ _ (local.member_quiet _ _ _ ta) qa λ added'' tb qb.
                                  IsCalm-if_null added'' (pos 0) _ qb λ complete tc qc.
                                    Leaves-perform _
                                      (Quiet-trans P shared qc (local.print_quiet complete tc))))
          replied λ e u h. h)
        λ ended u q'. Leaves-pure _ q'
    where
      replied :
          {A : Type 0} (r : Reply A) (u : State)
          → Replied (λ a u. Quiet P shared s u) (λ e u. Quiet P shared s u) r u
          → Quiet P shared s u
      replied (ok a) u h = h
      replied (err fr) u h = h

  -- The entry is put where none stood, or nothing has changed, also where the result is 0.
  pub add_new_dentry-Leaves :
      (k dir : CString) (parent : Option CString) {t : State}
      → Quiet P shared s t
      → Leaves
          (add_new_dentry P J k dir parent)
          t
          (λ r u. Quiet P shared s u ⊎ Made P shared s (Enters P shared J local k) u)
          (λ e u. (e ≡ none) × (Quiet P shared s u ⊎ Made P shared s (Enters P shared J local k) u))
  unfolding add_new_dentry
  add_new_dentry-Leaves k dir parent q =
      Leaves-finish _ _ (λ e u. Quiet P shared s u ⊎ Made P shared s (Enters P shared J local k) u)
        _
        (Leaves-bind (Leaves-map (create_dentry-IsCalm dir parent [] q) (λ a u h. h) λ e u h. inl h)
          λ dentry u q'.
            Leaves-bind {Q = λ a w. Quiet P shared s w}
              (Leaves-if_null dentry (pos 0) (λ a e. q') (inl q'))
              λ text w q''.
                Leaves-bind
                  (Leaves-map
                    (store_document-Leaves P shared s dentries k q'' StoreMode.insert
                      (dentry_settings k text) text refl refl refl refl)
                    (λ a v made.
                      Made-map P shared
                        (λ ch (in_c, at_k, is, (there, current)). (in_c, at_k, text, is, there))
                        made)
                    (λ e v torn. entered (
                      Torn-after P shared e (Quiet-refl P shared s)
                        (λ ch (in_c, at_k, is, (there, current)). (in_c, at_k, text, is, there))
                        torn)))
                  λ a v made. Leaves-pure _ (inr made))
        (λ fr u h. h) (λ fr u h. h) (λ u h. (refl, h))
    where
      entered :
          {e : Option ℤ} {v : State}
          → Torn P shared s (Enters P shared J local k) e v
          → Quiet P shared s v ⊎ Made P shared s (Enters P shared J local k) v
      entered (inl (h, z)) = inl h
      entered (inr m) = inr m
