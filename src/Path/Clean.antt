-- ===== src/Path/Clean.antt =====
-- What filepath.Clean and filepath.Dir return for absolute paths.
use mingyue_go.Base.{
  All, All-append_left, All-append_right, Bool, Bool-cases, Lacks, List, Text, [], ap, append-nil,
  append_assoc, arith, codes, if◌then◌else◌, inl, inr, is_empty, join, not, refl, select, split,
  split-Lacks, split-append, split-join, split_of_Lacks, sym, text_eq, text_eq_iff, true, ◌++◌,
  ◌==◌, ◌∙◌, ◌∷◌, ◌≡◌, ◌≢◌,
}
use mathlib.Core.List.{reverse, reverse-cons, reverse-reverse}
use mingyue_go.Path.{
  slash, root_path, is_abs, resolve, normalize_from, render, clean, upto_last_slash, dir,
  components,
}

-- A name of a file or a directory: it is not empty, "." or "..", and has no slash.
abbrev pub IsName : Text → Type 0
IsName part = (part ≢ []) × (part ≢ codes ".") × (part ≢ codes "..") × Lacks slash part

All-reverse : (xs ys : List Text) → All IsName xs → All IsName ys → All IsName (reverse xs ++ ys)
All-reverse [] ys h k = k
All-reverse (x ∷ xs) ys (hx, h) k =
    rw (reverse-cons, append_assoc) (All-reverse xs (x ∷ ys) h (hx, k))

resolve-IsName :
    (stack : List Text) (part : Text)
    → All IsName stack
    → Lacks slash part
    → All IsName (resolve true stack part)
unfolding resolve
resolve-IsName [] part h k =
    ground (arith, text_eq_iff part [], text_eq_iff part (codes "."), text_eq_iff part (codes ".."))
resolve-IsName (e ∷ stack) part h k = ground (
  arith,
  text_eq_iff part [],
  text_eq_iff part (codes "."),
  text_eq_iff part (codes ".."),
  text_eq_iff e (codes ".."),
)

normalize_from-IsName :
    (stack parts : List Text)
    → All IsName stack
    → All (Lacks slash) parts
    → All IsName (normalize_from true stack parts)
unfolding normalize_from
normalize_from-IsName stack [] h _ = rw (← append-nil (reverse stack)) (All-reverse stack [] h tt)
normalize_from-IsName stack (part ∷ parts) h (k, ks) =
    normalize_from-IsName (resolve true stack part) parts (resolve-IsName stack part h k) ks

resolve_of_IsName :
    (rooted : Bool) (stack : List Text) (part : Text)
    → IsName part
    → resolve rooted stack part ≡ part ∷ stack
unfolding resolve
resolve_of_IsName rooted stack part h =
    ground (arith, text_eq_iff part [], text_eq_iff part (codes "."), text_eq_iff part (codes ".."))

reverse_onto :
    (part : Text) (parts stack : List Text)
    → reverse parts ++ part ∷ stack ≡ reverse (part ∷ parts) ++ stack
reverse_onto part parts stack = simp (reverse-cons, append_assoc)

normalize_from_of_IsName :
    (stack parts more : List Text)
    → All IsName parts
    → normalize_from true stack (parts ++ more) ≡ normalize_from true (reverse parts ++ stack) more
unfolding normalize_from
normalize_from_of_IsName stack [] more _ = refl
normalize_from_of_IsName stack (part ∷ parts) more (plain, h) =
    ap (λ s. normalize_from true s (parts ++ more)) (resolve_of_IsName true stack part plain)
    ∙ normalize_from_of_IsName (part ∷ stack) parts more h
    ∙ ap (λ s. normalize_from true s more) (reverse_onto part parts stack)

-- The absolute path of a list of names.
abbrev pub abs_path : List Text → Text
abs_path names = slash ∷ join names root_path

-- A cleaned absolute path spells a list of names.
pub clean_abs :
    (p : Text)
    → is_abs p ≡ true
    → (names : List Text) × (clean p ≡ abs_path names) × All IsName names
unfolding clean render
clean_abs p h = (
  normalize_from true [] (split slash p),
  rw h,
  normalize_from-IsName [] (split slash p) tt (split-Lacks slash p),
)

join-concat :
    (p : Text) (ps : List Text) (q : Text)
    → join (p ∷ ps ++ q ∷ []) root_path ≡ join (p ∷ ps) root_path ++ slash ∷ q
unfolding join
join-concat p [] q = refl
join-concat p (r ∷ ps) q = simp (join-concat r ps q, append_assoc)

IsName→Lacks : (names : List Text) → All IsName names → All (Lacks slash) names
IsName→Lacks [] h = tt
IsName→Lacks (n ∷ names) (h, hs) = (h.3, IsName→Lacks names hs)

split-join_names :
    (p : Text) (ps : List Text)
    → All IsName (p ∷ ps)
    → split slash (join (p ∷ ps) root_path) ≡ p ∷ ps
split-join_names p ps h = split-join slash p ps (IsName→Lacks (p ∷ ps) h)

-- Cleaning an absolute path, by its parts.
clean-slash : (s : Text) → clean (slash ∷ s) ≡ abs_path (normalize_from true [] (split slash s))
unfolding clean is_abs render split
clean-slash s = refl

normalize_names :
    (names more : List Text)
    → All IsName names
    → normalize_from true [] (names ++ more) ≡ normalize_from true (reverse names) more
normalize_names names more h =
    normalize_from_of_IsName [] names more h
    ∙ ap (λ s. normalize_from true s more) (append-nil (reverse names))

normalize-All : (names : List Text) → All IsName names → normalize_from true [] names ≡ names
unfolding normalize_from
normalize-All names h =
    ap (λ n. normalize_from true [] n) (sym (append-nil names))
    ∙ normalize_names names [] h
    ∙ reverse-reverse names

pub abs_path-nil : abs_path [] ≡ root_path
unfolding join
abs_path-nil = refl

clean-root_path : clean root_path ≡ root_path
unfolding clean
clean-root_path = refl

components-root_path : components root_path ≡ []
unfolding components
components-root_path = refl

-- Such a path is clean already.
pub clean-abs_path :
    (names : List Text) → All IsName names → clean (abs_path names) ≡ abs_path names
clean-abs_path [] h = rw abs_path-nil clean-root_path
clean-abs_path (p ∷ ps) h =
    clean-slash _
    ∙ ap abs_path (ap (normalize_from true []) (split-join_names p ps h) ∙ normalize-All (p ∷ ps) h)

select_names : (names : List Text) → All IsName names → select (λ e. not (is_empty e)) names ≡ names
select_names [] h = refl
select_names ([] ∷ names) (h, hs) = absurd (h.0 refl)
select_names ((c ∷ n) ∷ names) (h, hs) = ap (λ r. (c ∷ n) ∷ r) (select_names names hs)

components-slash : (s : Text) → components (slash ∷ s) ≡ components s
unfolding components split
components-slash s = refl

components_lem : (s : Text) → components s ≡ select (λ e. not (is_empty e)) (split slash s)
unfolding components
components_lem s = refl

-- The components of the path of some names are those names.
pub components-abs_path :
    (names : List Text) → All IsName names → components (abs_path names) ≡ names
components-abs_path [] h = rw abs_path-nil components-root_path
components-abs_path (p ∷ ps) h =
    components-slash _
    ∙ components_lem (join (p ∷ ps) root_path)
    ∙ ap (select (λ e. not (is_empty e))) (split-join_names p ps h)
    ∙ select_names (p ∷ ps) h

select-append :
    (p : Text → Bool) (xs ys : List Text) → select p (xs ++ ys) ≡ select p xs ++ select p ys
select-append p [] ys = refl
select-append p (x ∷ xs) ys = elim (Bool-cases (p x)) [
  | inl e ↦ rw (e, select) (ap (λ r. x ∷ r) (select-append p xs ys))
  | inr e ↦ rw (e, select) (select-append p xs ys)
]

-- The components below a directory.
pub components-append : (s t : Text) → components (s ++ slash ∷ t) ≡ components s ++ components t
unfolding components
components-append s t =
    ap (select (λ e. not (is_empty e))) (split-append slash s t)
    ∙ select-append (λ e. not (is_empty e)) (split slash s) (split slash t)

upto_last_slash_of_Lacks : (s : Text) → Lacks slash s → upto_last_slash s ≡ []
unfolding upto_last_slash
upto_last_slash_of_Lacks [] h = refl
upto_last_slash_of_Lacks (c ∷ s) h = ground (arith, upto_last_slash_of_Lacks s h.1)

upto_last_slash-append :
    (s n : Text) → Lacks slash n → upto_last_slash (s ++ slash ∷ n) ≡ s ++ slash ∷ []
unfolding upto_last_slash
upto_last_slash-append [] n h = ground (arith, upto_last_slash_of_Lacks n h)
upto_last_slash-append (c ∷ s) n h = rw (upto_last_slash-append s n h) (extend s)
  where
    extend :
        (s : Text)
        → (if is_empty (s ++ slash ∷ [])
            then (if c == slash then c ∷ [] else [])
            else c ∷ (s ++ slash ∷ []))
          ≡ c ∷ (s ++ slash ∷ [])
    extend [] = refl
    extend (d ∷ s) = refl

normalize_trailing :
    (names : List Text) → All IsName names → normalize_from true [] (names ++ [] ∷ []) ≡ names
unfolding normalize_from resolve text_eq
normalize_trailing names h = normalize_names names ([] ∷ []) h ∙ reverse-reverse names

split-trailing :
    (p : Text) (ps : List Text)
    → All IsName (p ∷ ps)
    → split slash (join (p ∷ ps) root_path ++ slash ∷ []) ≡ (p ∷ ps) ++ [] ∷ []
split-trailing p ps h =
    split-append slash (join (p ∷ ps) root_path) []
    ∙ ap (λ parts. parts ++ split slash []) (split-join_names p ps h)
    ∙ ap (λ parts. (p ∷ ps) ++ parts) (split_of_Lacks slash [] tt)

clean_trailing :
    (p : Text) (ps : List Text)
    → All IsName (p ∷ ps)
    → clean (slash ∷ (join (p ∷ ps) root_path ++ slash ∷ [])) ≡ abs_path (p ∷ ps)
clean_trailing p ps h =
    clean-slash _
    ∙ ap (λ parts. abs_path (normalize_from true [] parts)) (split-trailing p ps h)
    ∙ ap abs_path (normalize_trailing (p ∷ ps) h)

dir-append : (s n : Text) → Lacks slash n → dir (s ++ slash ∷ n) ≡ clean (s ++ slash ∷ [])
unfolding dir
dir-append s n h = ap clean (upto_last_slash-append s n h)

join-one : (n : Text) → join (n ∷ []) root_path ≡ n
unfolding join
join-one n = refl

-- The parent directory of a path with a name at its end.
pub dir-abs_path :
    (names : List Text) (n : Text)
    → All IsName (names ++ n ∷ [])
    → dir (abs_path (names ++ n ∷ [])) ≡ abs_path names
dir-abs_path [] n h =
    ap (λ r. dir (slash ∷ r)) (join-one n)
    ∙ dir-append [] n h.0.3
    ∙ clean-root_path
    ∙ sym abs_path-nil
dir-abs_path (p ∷ ps) n h =
    ap (λ r. dir (slash ∷ r)) (join-concat p ps n)
    ∙ dir-append (slash ∷ join (p ∷ ps) root_path) n
        (All-append_right IsName (p ∷ ps) (n ∷ []) h).0.3
    ∙ clean_trailing p ps (All-append_left IsName (p ∷ ps) (n ∷ []) h)

pub dir-root_path : dir root_path ≡ root_path
unfolding dir clean
dir-root_path = refl
