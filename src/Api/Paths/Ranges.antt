-- ===== src/Api/Paths/Ranges.antt =====
-- parsePIDFromPath and extractMountpointFromPath of internal/api: the ranges of their results.
use mingyue_go.Base.{
  Bool, Bool-cases, Option, Option-cases, Text, [], append-has_prefix, arith, codes, cut_prefix,
  false, has_prefix, if◌then◌else◌, inl, inr, none, some, true, ℕ, ◌<◌, ◌==◌, ◌^◌, ◌∷◌, ◌≡◌,
}
use mingyue_go.Errors.{ok}
use mingyue_go.Process.{is_negative}
use mingyue_go.Api.System.{Codecs}
use mingyue_go.Api.Paths.{
  parse_int, parse_pid_from_path, split_last, extract_mountpoint_from_path, prepend_slash, signed,
  magnitude,
}

signed-lt :
    (negative : Bool) (o : Option ℕ) (n : ℕ)
    → signed 32 negative o ≡ some n
    → is_negative n ≡ false
    → n < 2 ^ 31
signed-lt true none n e s = cc
signed-lt false none n e s = cc
signed-lt true (some m) n e s = ground (arith, e, s)
signed-lt false (some m) n e s = ground (arith, e)

-- An identifier that ParseInt(s, 10, 32) gives and that is not negative fits in an int32.
parse_int-lt : (s : Text) (n : ℕ) → parse_int 32 s ≡ some n → is_negative n ≡ false → n < 2 ^ 31
unfolding parse_int
parse_int-lt [] n e k = cc
parse_int-lt (c ∷ s) n e k = by_sign (c == b'-') (c == b'+') e
  where
    by_sign :
        (minus plus : Bool)
        → (if minus
            then signed 32 true (magnitude s)
            else if plus
            then signed 32 false (magnitude s)
            else signed 32 false (magnitude (c ∷ s)))
          ≡ some n
        → n < 2 ^ 31
    by_sign true plus f = signed-lt true (magnitude s) n f k
    by_sign false true f = signed-lt false (magnitude s) n f k
    by_sign false false f = signed-lt false (magnitude (c ∷ s)) n f k

-- A process identifier that is read from a path is positive and fits in an int32.
pub parse_pid_from_path-lt :
    (path : Text) (n : ℕ) → parse_pid_from_path path ≡ some n → (0 < n) × (n < 2 ^ 31)
unfolding parse_pid_from_path
parse_pid_from_path-lt path n e = elim (Option-cases (split_last path)) [
  | inl none_there ↦ absurd (nothing none_there)
  | inr ((before, segment), there) ↦ elim (Option-cases (parse_int 32 segment)) [
    | inl bad ↦ absurd (unread there bad)
    | inr (m, good) ↦ read there good
  ]
]
  where
    nothing : split_last path ≡ none → ⊥
    nothing h = ground (arith, h, e)

    unread :
        {before segment : Text}
        → split_last path ≡ some (before, segment)
        → parse_int 32 segment ≡ none
        → ⊥
    unread h k = ground (arith, h, k, e)

    read :
        {before segment : Text} {m : ℕ}
        → split_last path ≡ some (before, segment)
        → parse_int 32 segment ≡ some m
        → (0 < n) × (n < 2 ^ 31)
    read {segment = segment} {m = m} h k = ground (arith, h, k, e, parse_int-lt segment m k)

prepend_slash-has_prefix : (p : Text) → has_prefix (prepend_slash p) (codes "/") ≡ true
prepend_slash-has_prefix p = elim (Bool-cases (has_prefix p (codes "/"))) [
  | inl e ↦ rw e e
  | inr e ↦ rw e (append-has_prefix (codes "/") p)
]

-- A mount point that is read from a path begins with '/'.
pub extract_mountpoint_from_path-has_prefix :
    (codecs : Codecs) (escaped mp : Text)
    → extract_mountpoint_from_path codecs escaped ≡ ok mp
    → has_prefix mp (codes "/") ≡ true
unfolding extract_mountpoint_from_path
extract_mountpoint_from_path-has_prefix codecs escaped mp e =
    elim (Option-cases
      (codecs.path_unescape (cut_prefix escaped (codes "/api/v1/disks/mounts/")))) [
        | inl u ↦ ground (arith, e, u)
        | inr (p, u) ↦ ground (arith, e, u, prepend_slash-has_prefix p)
      ]
