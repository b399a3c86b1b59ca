-- ===== src/Process/Pages.antt =====
-- The pages of List in internal/service/process/manager.go.
use mingyue_go.Base.{
  Bool-cases, List, [], ap, arith, drop, false, if◌then◌else◌, inl, inr, leb, length, length-drop,
  ltb, none, refl, some, suc, sym, take, zero, ℕ, ◌*◌, ◌++◌, ◌+◌, ◌-◌, ◌<◌, ◌==◌, ◌^◌, ◌∙◌, ◌∷◌,
  ◌≡◌, ◌≤◌,
}
use mingyue_go.Errors.{Result, ok}
use mingyue_go.Process.{
  ProcessInfo, ListOptions, Listing, listed, list_error, slice_panic, infos, page_of, start_of,
  slice, wrap, is_negative, list_processes,
}

-- The processes of one page, as the documentation of List has it.
abbrev pub window : ListOptions → List ℕ → List ℕ
window opts pids = take opts.limit (drop ((page_of opts - 1) * opts.limit) pids)

pub infos-append :
    (info : ℕ → Result ProcessInfo) (ps qs : List ℕ)
    → infos info (ps ++ qs) ≡ infos info ps ++ infos info qs
unfolding infos
infos-append info [] qs = refl
infos-append info (p ∷ ps) qs = ground (arith, infos-append info ps qs)

suc_add : (m n : ℕ) → suc m + n ≡ suc (m + n)
suc_add m n = omega arith

module _ {A : Type 0} where
  take_all : (n : ℕ) (xs : List A) → length xs ≤ n → take n xs ≡ xs
  take_all zero [] h = refl
  take_all zero (x ∷ xs) h = absurd (omega arith)
  take_all (suc n) [] h = refl
  take_all (suc n) (x ∷ xs) h = ap (λ r. x ∷ r) (take_all n xs (omega arith))

  drop_all : (n : ℕ) (xs : List A) → length xs ≤ n → drop n xs ≡ []
  drop_all zero [] h = refl
  drop_all zero (x ∷ xs) h = absurd (omega arith)
  drop_all (suc n) [] h = refl
  drop_all (suc n) (x ∷ xs) h = drop_all n xs (omega arith)

  take_none : (n : ℕ) → take {A = A} n [] ≡ []
  take_none zero = refl
  take_none (suc n) = refl

  take_add : (m n : ℕ) (xs : List A) → take (m + n) xs ≡ take m xs ++ take n (drop m xs)
  take_add zero n xs = ap (λ k. take k xs) (omega arith)
  take_add (suc m) n [] = take_none (suc m + n) ∙ sym (take_none n)
  take_add (suc m) n (x ∷ xs) =
      ap (λ k. take k (x ∷ xs)) (suc_add m n) ∙ ap (λ r. x ∷ r) (take_add m n xs)

  -- An end that is cut at the length of the list takes the same elements.
  take-clip :
      (start limit : ℕ) (xs : List A)
      → start < length xs
      → take
          ((if ltb (length xs) (start + limit) then length xs else start + limit) - start)
          (drop start xs)
        ≡ take limit (drop start xs)
  take-clip start limit xs h = elim (Bool-cases (ltb (length xs) (start + limit))) [
    | inl e ↦ rw e (
        take_all (length xs - start) (drop start xs) (omega (arith, length-drop start xs))
        ∙ sym (take_all limit (drop start xs) (ground (arith, e, length-drop start xs))))
    | inr e ↦ rw e (ap (λ n. take n (drop start xs)) (omega arith))
  ]

pub wrap-small : (n : ℕ) → n < 2 ^ 63 → wrap n ≡ n
wrap-small n h = omega arith

pub small-positive : (n : ℕ) → n < 2 ^ 63 → is_negative n ≡ false
small-positive n h = ground arith

slice-take :
    (opts : ListOptions) (start : ℕ) (pids : List ℕ)
    → start + opts.limit < 2 ^ 63
    → start < length pids
    → slice opts start pids ≡ some (take opts.limit (drop start pids))
slice-take opts start pids small h =
    rw (wrap-small (start + opts.limit) small, small-positive (start + opts.limit) small)
      (ap some (take-clip start opts.limit pids h))

-- The three cases of List with a limit, for a start that is not negative.
page_from : (ℕ → Result ProcessInfo) → ListOptions → ℕ → List ℕ → Listing
page_from info opts start pids =
    if leb (length pids) start then listed [] (length pids) else elim (slice opts start pids) [
      | none ↦ slice_panic
      | some window ↦ listed (infos info window) (length pids)
    ]

page_from-window :
    (info : ℕ → Result ProcessInfo) (opts : ListOptions) (start : ℕ) (pids : List ℕ)
    → start + opts.limit < 2 ^ 63
    → page_from info opts start pids
      ≡ listed (infos info (take opts.limit (drop start pids))) (length pids)
unfolding page_from infos
page_from-window info opts start pids small = elim (Bool-cases (leb (length pids) start)) [
  | inl e ↦ rw e (ap (λ w. listed (infos info w) (length pids)) (sym (nothing (ground (arith, e)))))
  | inr e ↦ rw (e, slice-take opts start pids small (ground (arith, e))) refl
]
  where
    nothing : length pids ≤ start → take opts.limit (drop start pids) ≡ []
    nothing h = ap (take opts.limit) (drop_all start pids h) ∙ take_all opts.limit [] (omega arith)

module _ (info : ℕ → Result ProcessInfo) (opts : ListOptions) (pids : List ℕ)
    (limited : 0 < opts.limit) (small : (page_of opts - 1) * opts.limit + opts.limit < 2 ^ 63) where
  start_small : start_of opts ≡ (page_of opts - 1) * opts.limit
  start_small = wrap-small ((page_of opts - 1) * opts.limit) (omega arith)

  list_processes-page_from :
      list_processes (ok pids) info opts ≡ page_from info opts (start_of opts) pids
  unfolding list_processes page_from
  list_processes-page_from = elim (Bool-cases (opts.limit == 0)) [
    | inl e ↦ absurd (ground (arith, e))
    | inr e ↦ rw (e, small-positive (start_of opts) (omega (arith, start_small))) refl
  ]

  -- With a limit, and where the bounds of the page do not overflow, List returns exactly the
  -- processes of that page that can still be read, and the number of all identifiers.
  pub list_processes-window :
      list_processes (ok pids) info opts ≡ listed (infos info (window opts pids)) (length pids)
  list_processes-window =
      list_processes-page_from
      ∙ ap (λ s. page_from info opts s pids) start_small
      ∙ page_from-window info opts ((page_of opts - 1) * opts.limit) pids small

-- The processes of a page.
contents : Listing → List ProcessInfo
contents (listed ps total) = ps
contents (list_error e) = []
contents slice_panic = []

-- The first `k` pages, one behind the other.
pub pages : (ℕ → Result ProcessInfo) → ℕ → List ℕ → ℕ → List ProcessInfo
unfolding contents
pages info limit pids zero = []
pages info limit pids (suc k) =
    pages info limit pids k
    ++ contents (list_processes (ok pids) info (record { limit = limit; page = suc k }))

before_page : (limit k : ℕ) → page_of (record { limit = limit; page = suc k }) - 1 ≡ k
before_page limit k = ground arith

one_more : (k limit : ℕ) → suc k * limit ≡ k * limit + limit
one_more k limit = omega arith

zero_pages : (limit : ℕ) → 0 ≡ 0 * limit
zero_pages limit = omega arith

last_page :
    (info : ℕ → Result ProcessInfo) (limit : ℕ) (pids : List ℕ) (k : ℕ)
    → 0 < limit
    → suc k * limit < 2 ^ 63
    → contents (list_processes (ok pids) info (record { limit = limit; page = suc k }))
      ≡ infos info (take limit (drop (k * limit) pids))
unfolding contents
last_page info limit pids k limited small =
    ap contents (
      list_processes-window info (record { limit = limit; page = suc k }) pids limited
        (rw before_page (omega (arith, one_more k limit))))
    ∙ ap (λ n. infos info (take limit (drop (n * limit) pids))) (before_page limit k)

pages-take :
    (info : ℕ → Result ProcessInfo) (limit : ℕ) (pids : List ℕ) (k : ℕ)
    → 0 < limit
    → k * limit < 2 ^ 63
    → pages info limit pids k ≡ infos info (take (k * limit) pids)
unfolding pages infos
pages-take info limit pids zero limited small =
    ap (λ n. infos info (take n pids)) (zero_pages limit)
pages-take info limit pids (suc k) limited small =
    ap
      (λ ps.
        ps ++ contents (list_processes (ok pids) info (record { limit = limit; page = suc k })))
      (pages-take info limit pids k limited (omega (arith, one_more k limit)))
    ∙ ap (λ ps. infos info (take (k * limit) pids) ++ ps)
        (last_page info limit pids k limited small)
    ∙ sym (infos-append info (take (k * limit) pids) (take limit (drop (k * limit) pids)))
    ∙ ap (infos info) (sym (take_add (k * limit) limit pids))
    ∙ ap (λ n. infos info (take n pids)) (sym (one_more k limit))

-- With a limit, the pages of List put together are the list without pages: no process is lost or
-- listed twice, where enough pages are read and the bounds do not overflow.
pub pages-infos :
    (info : ℕ → Result ProcessInfo) (limit : ℕ) (pids : List ℕ) (k : ℕ)
    → 0 < limit
    → length pids ≤ k * limit
    → k * limit < 2 ^ 63
    → listed (pages info limit pids k) (length pids)
      ≡ list_processes (ok pids) info (record { limit = 0; page = 1 })
unfolding list_processes
pages-infos info limit pids k limited enough small =
    ap (λ ps. listed ps (length pids))
      (pages-take info limit pids k limited small
        ∙ ap (infos info) (take_all (k * limit) pids enough))
