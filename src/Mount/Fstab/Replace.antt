-- ===== src/Mount/Fstab/Replace.antt =====
-- The replaced line in Persist of internal/service/disk/mount.go.
use mingyue_go.Base.{
  HasNoSpace, IsTrimmed, List, Text, [], ap, append-IsTrimmed, arith, codes, fields, fields-word,
  is_space, refl, some, trim_right, trim_space, trim_space-append, true, ℕ, ◌++◌, ◌∙◌, ◌∷◌, ◌≡◌,
  ◌≢◌,
}
use mingyue_go.Mount.Fstab.{tab, line_mount_point, is_line_of, put_line, entry_text}

tab-is_space : is_space 9 ≡ true
unfolding is_space
tab-is_space = refl

zeros-IsTrimmed : IsTrimmed (tab ++ (codes "0" ++ (tab ++ codes "0")))
unfolding trim_right is_space
zeros-IsTrimmed = (refl, refl)

-- What stands in an entry behind its mount point.
abbrev last_fields : Text → Text → Text
last_fields fs_type mount_opts =
    fs_type ++ (tab ++ (mount_opts ++ (tab ++ (codes "0" ++ (tab ++ codes "0")))))

last_fields-IsTrimmed : (fs_type mount_opts : Text) → IsTrimmed (9 ∷ last_fields fs_type mount_opts)
last_fields-IsTrimmed fs_type mount_opts =
    append-IsTrimmed (9 ∷ fs_type) _ (append-IsTrimmed (9 ∷ mount_opts) _ zeros-IsTrimmed)

module _ (c d : ℕ) (source mount_point fs_type mount_opts : Text) (hs : HasNoSpace (c ∷ source))
    (hm : HasNoSpace (d ∷ mount_point)) where
  trim_space-entry_text :
      trim_space (entry_text (c ∷ source) (d ∷ mount_point) fs_type mount_opts)
      ≡ entry_text (c ∷ source) (d ∷ mount_point) fs_type mount_opts
  trim_space-entry_text =
      trim_space-append c source _ hs.0
        (append-IsTrimmed (9 ∷ d ∷ mount_point) _ (last_fields-IsTrimmed fs_type mount_opts))

  fields-entry_text :
      fields (entry_text (c ∷ source) (d ∷ mount_point) fs_type mount_opts)
      ≡ (c ∷ source) ∷ (d ∷ mount_point) ∷ fields (last_fields fs_type mount_opts)
  fields-entry_text =
      fields-word c source 9 _ hs tab-is_space
      ∙ ap (λ r. (c ∷ source) ∷ r) (fields-word d mount_point 9 _ hm tab-is_space)

second_field :
    (line : Text) (c : ℕ) (s a b : Text) (rest : List Text)
    → trim_space line ≡ c ∷ s
    → c ≢ b'#'
    → fields (c ∷ s) ≡ a ∷ b ∷ rest
    → line_mount_point line ≡ some b
unfolding line_mount_point
second_field line c s a b rest t plain f = rw (t, f) (ground (arith, plain))

-- The entry that is written for a mount names its mount point, where the source and the mount
-- point have no white space and are not empty, and the source does not start a comment.
pub line_mount_point-entry_text :
    (c d : ℕ) (source mount_point fs_type mount_opts : Text)
    → c ≢ b'#'
    → HasNoSpace (c ∷ source)
    → HasNoSpace (d ∷ mount_point)
    → line_mount_point (entry_text (c ∷ source) (d ∷ mount_point) fs_type mount_opts)
      ≡ some (d ∷ mount_point)
line_mount_point-entry_text c d source mount_point fs_type mount_opts plain hs hm =
    second_field _ c _ _ _ _ (trim_space-entry_text c d source mount_point fs_type mount_opts hs hm)
      plain (fields-entry_text c d source mount_point fs_type mount_opts hs hm)

module _ (entry mount_point : Text) (own : is_line_of mount_point entry ≡ true) where
  -- For an entry that names its mount point, a second Persist of the same entry leaves the lines
  -- as the first one did.
  pub put_line-put_line :
      (lines : List Text)
      → put_line entry mount_point (put_line entry mount_point lines)
        ≡ put_line entry mount_point lines
  unfolding put_line
  put_line-put_line [] = ground (arith, own)
  put_line-put_line (l ∷ lines) = ground (arith, own, put_line-put_line lines)
