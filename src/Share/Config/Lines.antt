-- ===== src/Share/Config/Lines.antt =====
-- The lines of a disabled share in writeSambaConf of internal/service/share/filebackend.go.
use mingyue_go.Base.{
  All, Bool, Lacks, Lacks-append, List, Text, [], ap, append_assoc, arith, codes, false, refl,
  split, split-append, split_of_Lacks, sym, true, ◌++◌, ◌∙◌, ◌∷◌, ◌≡◌,
}
use mathlib.Core.Path.{subst}
use mingyue_go.Share.{Share}
use mingyue_go.Share.Config.{yes_no, disabled_section}

-- An empty line, or one that samba skips.
abbrev pub IsComment : Text → Type 0
IsComment [] = Unit
IsComment (c ∷ l) = c ≡ b'#'

-- One line in front of others.
split-line : (l rest : Text) → Lacks 10 l → split 10 (l ++ 10 ∷ rest) ≡ l ∷ split 10 rest
split-line l rest h =
    split-append 10 l rest ∙ ap (λ ls. ls ++ split 10 rest) (split_of_Lacks 10 l h)

name_line : Share → Text
name_line s = codes "# [" ++ (s.name ++ codes "] (disabled)")

path_line : Share → Text
path_line s = codes "#    path = " ++ s.path

comment_line : Share → Text
comment_line s = codes "#    comment = " ++ s.comment

mode_line : Share → Text
mode_line s = codes "#    read only = " ++ yes_no s.read_only

disabled_section_lines :
    (s : Share)
    → disabled_section s
      ≡ name_line s
        ++ 10 ∷ (path_line s ++ 10 ∷ (comment_line s ++ 10 ∷ (mode_line s ++ 10 ∷ 10 ∷ [])))
unfolding disabled_section name_line path_line comment_line mode_line
disabled_section_lines s = simp append_assoc

yes_no-Lacks : (b : Bool) → Lacks 10 (codes "#    read only = " ++ yes_no b)
yes_no-Lacks true = omega arith
yes_no-Lacks false = omega arith

split_end : split 10 (10 ∷ []) ≡ [] ∷ [] ∷ []
unfolding split
split_end = refl

-- Where the name, the path and the comment hold no newline, the section of a disabled share has
-- four comment lines and the empty lines behind them: nothing of it is active.
pub disabled_section-IsComment :
    (s : Share)
    → Lacks 10 s.name
    → Lacks 10 s.path
    → Lacks 10 s.comment
    → All IsComment (split 10 (disabled_section s))
unfolding name_line path_line comment_line mode_line
disabled_section-IsComment s hn hp hc =
    let lines : split 10 (disabled_section s)
        ≡ name_line s ∷ path_line s ∷ comment_line s ∷ mode_line s ∷ [] ∷ [] ∷ [] =
      ap (split 10) (disabled_section_lines s)
      ∙ split-line (name_line s) _ (
          Lacks-append 10 (codes "# [") _ (omega arith)
            (Lacks-append 10 s.name (codes "] (disabled)") hn (omega arith)))
      ∙ ap (λ ls. name_line s ∷ ls)
          (split-line (path_line s) _
              (Lacks-append 10 (codes "#    path = ") s.path (omega arith) hp)
            ∙ ap (λ ls. path_line s ∷ ls)
                (split-line (comment_line s) _
                    (Lacks-append 10 (codes "#    comment = ") s.comment (omega arith) hc)
                  ∙ ap (λ ls. comment_line s ∷ ls)
                      (split-line (mode_line s) (10 ∷ []) (yes_no-Lacks s.read_only)
                        ∙ ap (λ ls. mode_line s ∷ ls) split_end))) in
    subst (All IsComment) (sym lines) (refl, (refl, (refl, (refl, (tt, (tt, tt))))))

broken_comment :
    (s : Share) (before line : Text)
    → s.comment ≡ before ++ 10 ∷ line
    → name_line s
        ++ 10 ∷ (path_line s ++ 10 ∷ (comment_line s ++ 10 ∷ (mode_line s ++ 10 ∷ 10 ∷ [])))
      ≡ (name_line s ++ 10 ∷ (path_line s ++ 10 ∷ (codes "#    comment = " ++ before)))
        ++ 10 ∷ (line ++ 10 ∷ (mode_line s ++ 10 ∷ 10 ∷ []))
unfolding comment_line
broken_comment s before line e =
    ap
      (λ c.
        name_line s
        ++ 10
          ∷ (path_line s
              ++ 10 ∷ ((codes "#    comment = " ++ c) ++ 10 ∷ (mode_line s ++ 10 ∷ 10 ∷ []))))
      e
    ∙ simp append_assoc

-- What stands behind a newline in the comment of a disabled share is a line of its own, which the
-- '#' of the section does not cover.
pub disabled_section_injection :
    (s : Share) (before line : Text)
    → s.comment ≡ before ++ 10 ∷ line
    → Lacks 10 line
    → (above : List Text) × (below : List Text) × (split 10 (disabled_section s)
        ≡ above ++ line ∷ below)
disabled_section_injection s before line e h =
    let front = name_line s ++ 10 ∷ (path_line s ++ 10 ∷ (codes "#    comment = " ++ before)) in
    let back = mode_line s ++ 10 ∷ 10 ∷ [] in
    (
      split 10 front,
      split 10 back,
      ap (split 10) (disabled_section_lines s ∙ broken_comment s before line e)
          ∙ split-append 10 front (line ++ 10 ∷ back)
          ∙ ap (λ ls. split 10 front ++ ls) (split-line line back h),
    )
