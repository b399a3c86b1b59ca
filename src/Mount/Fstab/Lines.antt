-- ===== src/Mount/Fstab/Lines.antt =====
-- The lines of /etc/fstab in Persist and readLines of internal/service/disk/mount.go.
use mingyue_go.Base.{
  All, All-append_right, Lacks, Lacks-append, List, Text, [], ap, append_assoc, arith, false,
  if◌then◌else◌, is_empty, join, not, refl, replace_crlf, split, split-append, split-join, sym, ℕ,
  ◌&&◌, ◌++◌, ◌∙◌, ◌∷◌, ◌≡◌,
}
use mingyue_go.Mount.Fstab.{lines_of, fstab_text, drop_empty_last, ends_with_newline}

abbrev newline : Text
newline = 10 ∷ []

replace_crlf-Lacks : (s : Text) → Lacks 13 s → replace_crlf s ≡ s
unfolding replace_crlf
replace_crlf-Lacks [] h = refl
replace_crlf-Lacks (c ∷ []) h = refl
replace_crlf-Lacks (c ∷ d ∷ s) (n, h) = ground (arith, n, replace_crlf-Lacks (d ∷ s) h)

join-Lacks : (ls : List Text) → All (Lacks 13) ls → Lacks 13 (join ls newline)
unfolding join
join-Lacks [] h = tt
join-Lacks (l ∷ []) (h, _) = h
join-Lacks (l ∷ m ∷ ls) (h, k) =
    Lacks-append 13 l _ h (Lacks-append 13 newline _ (omega arith) (join-Lacks (m ∷ ls) k))

-- A joined text ends with its last part.
join-last :
    (ls : List Text) (x : Text) → (front : Text) × (join (ls ++ x ∷ []) newline ≡ front ++ x)
unfolding join
join-last [] x = ([], refl)
join-last (l ∷ []) x = (l ++ newline, sym (append_assoc l newline x))
join-last (l ∷ m ∷ ls) x =
    let (front, e) = join-last (m ∷ ls) x in
    (
      l ++ (newline ++ front),
      ap (λ r. l ++ (newline ++ r)) e ∙ sym (append_assoc l (newline ++ front) x),
    )

ends_with_newline-Lacks :
    (front : Text) (c : ℕ) (s : Text)
    → Lacks 10 (c ∷ s)
    → ends_with_newline (front ++ c ∷ s) ≡ false
ends_with_newline-Lacks [] c [] (n, _) = ground (arith, n)
ends_with_newline-Lacks [] c (d ∷ s) (_, h) = ends_with_newline-Lacks [] d s h
ends_with_newline-Lacks (b ∷ []) c s h = ends_with_newline-Lacks [] c s h
ends_with_newline-Lacks (b ∷ a ∷ front) c s h = ends_with_newline-Lacks (a ∷ front) c s h

drop_empty_last-append : (ls : List Text) → drop_empty_last (ls ++ [] ∷ []) ≡ ls
drop_empty_last-append [] = refl
drop_empty_last-append ([] ∷ []) = refl
drop_empty_last-append ((c ∷ l) ∷ []) = refl
drop_empty_last-append ([] ∷ m ∷ ls) = ap (λ r. [] ∷ r) (drop_empty_last-append (m ∷ ls))
drop_empty_last-append ((c ∷ l) ∷ m ∷ ls) = ap (λ r. (c ∷ l) ∷ r) (drop_empty_last-append (m ∷ ls))

closing :
    (t : Text)
    → is_empty t ≡ false
    → ends_with_newline t ≡ false
    → (if not (is_empty t) && not (ends_with_newline t) then t ++ newline else t) ≡ t ++ newline
closing t h k = rw (h, k) refl

is_empty-append : (front : Text) (c : ℕ) (s : Text) → is_empty (front ++ c ∷ s) ≡ false
is_empty-append [] c s = refl
is_empty-append (b ∷ front) c s = refl

split-lines :
    (ls : List Text) (x : Text)
    → All (Lacks 10) (ls ++ x ∷ [])
    → split 10 (join (ls ++ x ∷ []) newline) ≡ ls ++ x ∷ []
split-lines [] x h = split-join 10 x [] h
split-lines (l ∷ ls) x h = split-join 10 l (ls ++ x ∷ []) h

fstab_text-newline :
    (ls : List Text) (c : ℕ) (s : Text)
    → Lacks 10 (c ∷ s)
    → fstab_text (ls ++ (c ∷ s) ∷ []) ≡ join (ls ++ (c ∷ s) ∷ []) newline ++ newline
fstab_text-newline ls c s h =
    let (front, e) = join-last ls (c ∷ s) in
    closing (join (ls ++ (c ∷ s) ∷ []) newline) (ap is_empty e ∙ is_empty-append front c s)
      (ap ends_with_newline e ∙ ends_with_newline-Lacks front c s h)

split_end : split 10 [] ≡ [] ∷ []
unfolding split
split_end = refl

-- Reading the text that was written gives the lines back, where no line has a line end in it and
-- the last line is not empty.
pub lines_of-fstab_text :
    (ls : List Text) (c : ℕ) (s : Text)
    → All (Lacks 10) (ls ++ (c ∷ s) ∷ [])
    → All (Lacks 13) (ls ++ (c ∷ s) ∷ [])
    → lines_of (fstab_text (ls ++ (c ∷ s) ∷ [])) ≡ ls ++ (c ∷ s) ∷ []
lines_of-fstab_text ls c s h k =
    let content = join (ls ++ (c ∷ s) ∷ []) newline in
    ap lines_of (fstab_text-newline ls c s (All-append_right (Lacks 10) ls ((c ∷ s) ∷ []) h).0)
    ∙ ap (λ t. drop_empty_last (split 10 t))
        (replace_crlf-Lacks (content ++ newline)
          (Lacks-append 13 content newline (join-Lacks (ls ++ (c ∷ s) ∷ []) k) (omega arith)))
    ∙ ap drop_empty_last (split-append 10 content [])
    ∙ ap (λ r. drop_empty_last (r ++ split 10 [])) (split-lines ls (c ∷ s) h)
    ∙ ap (λ r. drop_empty_last ((ls ++ (c ∷ s) ∷ []) ++ r)) split_end
    ∙ drop_empty_last-append (ls ++ (c ∷ s) ∷ [])
