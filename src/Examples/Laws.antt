-- ===== src/Examples/Laws.antt =====
-- The server in memory is reliable.
use cbfuse.Prelude.{
  ℕ, zero, suc, ◌≡◌, ◌≢◌, refl, sym, ap, ap₂, ◌∙◌, ℤ, pos, negsuc, true, false, Option, none, some,
  List, [], CString, length, eq→==, ne→==, Bool-cases, Option-cases, inl, inr, some-ne-none,
  none-ne-some, some-injective, false≢true, arith,
}
use cbfuse.Common.{Collection}
use cbfuse.Platform.{
  success, document_not_found, failure, StoreMode, insert, replace, upsert, Kind, Command, Response,
  Timespec, Stat,
}
use cbfuse.Platform.Reliable.{put, Accepts, IsSized, Fits, IsReliable, answer, completed}
use cbfuse.Examples.Fits.{fits_dec-yes, fits_dec-no}
use cbfuse.Examples.Server.{
  Memory, accepts, served, served_get, served_remove, served_fit, served_store, response, zeros,
  now, sign, magnitude, signed, stat_cells, cells_stat, server,
}

accepts-Accepts :
    (m : StoreMode) (there : Option (List ℕ)) (cas : Option ℕ) (n : ℕ)
    → Accepts m there cas n
    → accepts m there cas n ≡ true
accepts-Accepts insert none none n h = refl
accepts-Accepts insert (some v) none n h = cc
accepts-Accepts insert none (some c) n h = elim h [ ]
accepts-Accepts insert (some v) (some c) n h = elim h [ ]
accepts-Accepts replace none none n h = absurd (h refl)
accepts-Accepts replace (some v) none n h = refl
accepts-Accepts replace none (some c) n h = absurd (h.0 refl)
accepts-Accepts replace (some v) (some c) n h = eq→== c n h.1
accepts-Accepts upsert there none n h = refl
accepts-Accepts upsert there (some c) n h = elim h [ ]

refuses-Accepts :
    (m : StoreMode) (there : Option (List ℕ)) (cas : Option ℕ) (n : ℕ)
    → ¬ Accepts m there cas n
    → accepts m there cas n ≡ false
refuses-Accepts insert none none n h = absurd (h refl)
refuses-Accepts insert (some v) none n h = refl
refuses-Accepts insert none (some c) n h = refl
refuses-Accepts insert (some v) (some c) n h = refl
refuses-Accepts replace none none n h = refl
refuses-Accepts replace (some v) none n h = absurd (h (λ e. cc))
refuses-Accepts replace none (some c) n h = refl
refuses-Accepts replace (some v) (some c) n h = ne→== c n (λ e. h ((λ q. cc), e))
refuses-Accepts upsert there none n h = absurd (h tt)
refuses-Accepts upsert there (some c) n h = refl

pub length-zeros : (n : ℕ) → length (zeros n) ≡ n
length-zeros zero = refl
length-zeros (suc n) = ap suc (length-zeros n)

signed_parts : (z : ℤ) → signed (sign z) (magnitude z) ≡ z
signed_parts (pos n) = refl
signed_parts (negsuc n) = refl

timespec_parts :
    (t : Timespec)
    → (let r : Timespec = record {
      sec = signed (sign t.sec) (magnitude t.sec);
      nsec = signed (sign t.nsec) (magnitude t.nsec);
    } in
        r)
      ≡ t
timespec_parts t =
    ap₂ (λ a b. record { sec = a; nsec = b }) (signed_parts t.sec) (signed_parts t.nsec)

pub stat_parts : (x : Stat) → cells_stat (stat_cells x) ≡ x
stat_parts x = λ i. record {
  mode = x.mode;
  size = x.size;
  atime = timespec_parts x.atime i;
  mtime = timespec_parts x.mtime i;
  ctime = timespec_parts x.ctime i;
}

served-eq :
    (cmd : Command) (m : Memory) {kind : Kind} {c : Option Collection} {k : Option CString}
    → cmd.kind ≡ kind
    → cmd.collection ≡ c
    → cmd.key ≡ k
    → served cmd.kind cmd.collection cmd.key cmd.value cmd.cas m
      ≡ served kind c k cmd.value cmd.cas m
served-eq cmd m p q r = λ i. served (p i) (q i) (r i) cmd.value cmd.cas m

-- The state in which a scheduled command waits.
abbrev pub waiting : Command → Memory → Memory
waiting cmd m = record m { pending = some cmd }

pub get_law :
    (c : Collection) (k : CString) (cmd : Command) (m : Memory)
    → cmd.kind ≡ Kind.get
    → cmd.collection ≡ some c
    → cmd.key ≡ some k
    → (r : Response) × (answer server cmd m ≡ (success, some r))
      × ((completed server cmd m).docs ≡ m.docs)
      × ((completed server cmd m).version ≡ m.version)
      × ((m.docs c k ≡ none → r.status ≡ document_not_found)
          × ((v : List ℕ)
              → m.docs c k ≡ some v
              → (r.status ≡ success) × (r.value ≡ v) × (r.cas ≡ m.version)))
get_law c k cmd m p q s =
    let e = served-eq cmd (waiting cmd m) p q s in
    elim (Option-cases (m.docs c k)) [
      | inl gone ↦
          let f = e ∙ ap (λ o. served_get o (waiting cmd m)) gone in
          (
            response document_not_found [] 0,
            ap (λ x. (success, some x.0)) f,
            ap (λ x. x.1.docs) f,
            ap (λ x. x.1.version) f,
            (λ g. refl, λ v there. absurd (none-ne-some v (sym gone ∙ there))),
          )
      | inr (w, there) ↦
          let f = e ∙ ap (λ o. served_get o (waiting cmd m)) there in
          (
            response success w m.version,
            ap (λ x. (success, some x.0)) f,
            ap (λ x. x.1.docs) f,
            ap (λ x. x.1.version) f,
            (
              λ gone. absurd (some-ne-none w (sym there ∙ gone)),
              λ v there'. (refl, some-injective w v (sym there ∙ there'), refl),
            ),
          )
    ]

failed-ne-success : (n : ℕ) → failure n ≢ success
failed-ne-success n h = cc

pub store_law :
    (mode : StoreMode) (c : Collection) (k : CString) (v : List ℕ) (cmd : Command) (m : Memory)
    → cmd.kind ≡ Kind.store mode
    → cmd.collection ≡ some c
    → cmd.key ≡ some k
    → cmd.value ≡ some v
    → Fits c k v
    → (r : Response) × (answer server cmd m ≡ (success, some r))
      × ((Accepts mode (m.docs c k) cmd.cas m.version
            → (r.status ≡ success) × ((completed server cmd m).docs ≡ put c k (some v) m.docs))
          × (¬ Accepts mode (m.docs c k) cmd.cas m.version
              → (r.status ≢ success) × ((completed server cmd m).docs ≡ m.docs)))
store_law mode c k v cmd m p q s t fit =
    let e =
      served-eq cmd (waiting cmd m) p q s
      ∙ ap (λ o. served (Kind.store mode) (some c) (some k) o cmd.cas (waiting cmd m)) t in
    let ok_if = accepts-Accepts mode (m.docs c k) cmd.cas m.version in
    let bad_if = refuses-Accepts mode (m.docs c k) cmd.cas m.version in
    elim (Bool-cases (accepts mode (m.docs c k) cmd.cas m.version)) [
      | inl yes_it ↦
          let (fit', taken) = fits_dec-yes c k v fit in
          let f =
            e
            ∙ ap (λ b. served_store b c k v (waiting cmd m)) yes_it
            ∙ ap (λ d. served_fit c k v d (waiting cmd m)) taken in
          (
            response success [] 0,
            ap (λ x. (success, some x.0)) f,
            (λ a. (refl, ap (λ x. x.1.docs) f), λ n. absurd (false≢true (sym (bad_if n) ∙ yes_it))),
          )
      | inr no_it ↦
          let f = e ∙ ap (λ b. served_store b c k v (waiting cmd m)) no_it in
          (
            response (failure 12) [] 0,
            ap (λ x. (success, some x.0)) f,
            (
              λ a. absurd (false≢true (sym no_it ∙ ok_if a)),
              λ n. (failed-ne-success 12, ap (λ x. x.1.docs) f),
            ),
          )
    ]

-- A document that is too large gets an error.
pub too_large_law :
    (mode : StoreMode) (c : Collection) (k : CString) (v : List ℕ) (cmd : Command) (m : Memory)
    → cmd.kind ≡ Kind.store mode
    → cmd.collection ≡ some c
    → cmd.key ≡ some k
    → cmd.value ≡ some v
    → ¬ IsSized c v
    → (r : Response) × (n : ℕ) × (answer server cmd m ≡ (success, some r))
      × (r.status ≡ failure n)
      × ((completed server cmd m).docs ≡ m.docs)
too_large_law mode c k v cmd m p q s t large =
    let e =
      served-eq cmd (waiting cmd m) p q s
      ∙ ap (λ o. served (Kind.store mode) (some c) (some k) o cmd.cas (waiting cmd m)) t in
    elim (Bool-cases (accepts mode (m.docs c k) cmd.cas m.version)) [
      | inl yes_it ↦
          let (not_fit, refused) = fits_dec-no c k v (λ fit. large fit.1) in
          let f =
            e
            ∙ ap (λ b. served_store b c k v (waiting cmd m)) yes_it
            ∙ ap (λ d. served_fit c k v d (waiting cmd m)) refused in
          (
            response (failure 4) [] 0,
            4,
            ap (λ x. (success, some x.0)) f,
            refl,
            ap (λ x. x.1.docs) f,
          )
      | inr no_it ↦
          let f = e ∙ ap (λ b. served_store b c k v (waiting cmd m)) no_it in
          (
            response (failure 12) [] 0,
            12,
            ap (λ x. (success, some x.0)) f,
            refl,
            ap (λ x. x.1.docs) f,
          )
    ]

pub remove_law :
    (c : Collection) (k : CString) (cmd : Command) (m : Memory)
    → cmd.kind ≡ Kind.remove
    → cmd.collection ≡ some c
    → cmd.key ≡ some k
    → (r : Response) × (answer server cmd m ≡ (success, some r))
      × ((completed server cmd m).docs ≡ put c k none m.docs)
      × ((m.docs c k ≡ none → r.status ≡ document_not_found)
          × (m.docs c k ≢ none → r.status ≡ success))
remove_law c k cmd m p q s =
    let e = served-eq cmd (waiting cmd m) p q s in
    elim (Option-cases (m.docs c k)) [
      | inl gone ↦
          let f = e ∙ ap (λ o. served_remove o c k (waiting cmd m)) gone in
          (
            response document_not_found [] 0,
            ap (λ x. (success, some x.0)) f,
            ap (λ x. x.1.docs) f,
            (λ g. refl, λ n. absurd (n gone)),
          )
      | inr (w, there) ↦
          let f = e ∙ ap (λ o. served_remove o c k (waiting cmd m)) there in
          (
            response success [] 0,
            ap (λ x. (success, some x.0)) f,
            ap (λ x. x.1.docs) f,
            (λ gone. absurd (some-ne-none w (sym there ∙ gone)), λ n. refl),
          )
    ]

unfoldable pub server-IsReliable : IsReliable server
server-IsReliable = record {
  contents = λ m. m.docs;
  cas_at = λ m c k. m.version;
  documents_fit = λ c k v m. m.docs_fit c k v;
  create_succeeds = λ k m. refl;
  create_contents = λ k m. refl;
  create_cas = λ k m. refl;
  set_succeeds = λ x m. refl;
  set_contents = λ x m. refl;
  set_cas = λ x m. refl;
  schedule_succeeds = λ cmd m. refl;
  get_answer = λ c k cmd m p q s.
      let (r, a, b, d, f) = get_law c k cmd m p q s in (r, a, b, (λ i c' k'. d i), f);
  store_answer = store_law;
  store_too_large = λ n c k v cmd m p q s t short large. too_large_law n c k v cmd m p q s t large;
  remove_answer = λ c k cmd m p q s t. remove_law c k cmd m p q s;
  malloc_succeeds = λ n m. (zeros n, refl, length-zeros n);
  malloc_contents = λ n m. refl;
  malloc_cas = λ n m. refl;
  calloc_succeeds = λ m. refl;
  calloc_contents = λ m. refl;
  calloc_cas = λ m. refl;
  clock_succeeds = λ m. (now, refl);
  clock_contents = λ m. refl;
  clock_cas = λ m. refl;
  stat_fits = omega arith;
  stat_length = λ x. refl;
  stat_round_trip = stat_parts;
}
