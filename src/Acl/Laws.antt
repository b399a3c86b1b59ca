-- ===== src/Acl/Laws.antt =====
-- SetACL and parseGetfaclOutput of internal/service/acl/manager.go.
use mingyue_go.Base.{
  All, Bool, List, Option, Option-cases, Text, [], arith, byte_len, codes, false, has_prefix,
  if◌then◌else◌, inl, inr, is_empty, none, refl, scan_lines, some, split_n, sym, trim_space, true,
  ◌&&◌, ◌*◌, ◌++◌, ◌==◌, ◌||◌, ◌∷◌, ◌≡◌, ◌⊎◌,
}
use mathlib.Core.Path.{subst}
use mingyue_go.Errors.{exec_not_found, not_found, internal, ok, err, GoError}
use mingyue_go.Errors.Laws.{Result-cases}
use mingyue_go.Audit.{AuditEvent, event, failure, log_audit, reported}
use mingyue_go.Shell.{Shell}
use mingyue_go.Path.{is_abs}
use mingyue_go.SafePath.{safe_path}
use mingyue_go.SafePath.Contained.{IsBelow, safe_path-IsBelow}
use mingyue_go.Acl.{
  without_default, from_fields, permissions_of, AclPermission, AclEnv, is_acl_type, parse_entry,
  parse_entries, parse_getfacl_output, set_command, set_acl,
}

-- The commands of a call: none, or one setfacl with these entries on a path below the root.
abbrev pub IsGuarded : Text → List Text → List (List Text) → List (List Text) → Type 0
IsGuarded root entries old new =
    (new ≡ old) ⊎ ((abs : Text) × IsBelow root abs × (new ≡ old ++ set_command entries abs ∷ []))

set_acl_refused :
    (env : AclEnv) (root path : Text) (entries : List Text) (source : Text) (s : Shell)
    {e : GoError}
    → safe_path env.eval_symlinks root path ≡ err e
    → (set_acl env root path entries source s).1.commands ≡ s.commands
unfolding set_acl
set_acl_refused env root path entries source s e = rw (e, set_acl) refl

set_acl_accepted :
    (env : AclEnv) (root path : Text) (entries : List Text) (source : Text) (s : Shell) {abs : Text}
    → safe_path env.eval_symlinks root path ≡ ok abs
    → ((set_acl env root path entries source s).1.commands ≡ s.commands)
      ⊎ ((set_acl env root path entries source s).1.commands
          ≡ s.commands ++ set_command entries abs ∷ [])
unfolding set_acl
set_acl_accepted env root path [] source s e = rw (e, set_acl) (inl refl)
set_acl_accepted env root path (first ∷ rest) source s {abs} e =
    elim (Option-cases (env.run (set_command (first ∷ rest) abs)).1) [
      | inl r ↦ rw (e, set_acl) (rw (r, set_acl) (inr refl))
      | inr (x, r) ↦ rw (e, set_acl) (rw (r, set_acl) (inr refl))
    ]

-- Under an absolute root, SetACL runs at most one command, and that is setfacl with the given
-- entries on a path at or below the root, whatever path was asked for.
pub set_acl-IsGuarded :
    (env : AclEnv) (root path : Text) (entries : List Text) (source : Text) (s : Shell)
    → is_abs root ≡ true
    → IsGuarded root entries s.commands (set_acl env root path entries source s).1.commands
set_acl-IsGuarded env root path entries source s rooted =
    elim (Result-cases (safe_path env.eval_symlinks root path)) [
      | inr (e, h) ↦ inl (set_acl_refused env root path entries source s h)
      | inl (abs, h) ↦ elim (set_acl_accepted env root path entries source s h) [
        | inl none_run ↦ inl none_run
        | inr one ↦ inr (abs, safe_path-IsBelow env.eval_symlinks root path rooted h, one)
      ]
    ]

-- A standard type, and three bytes of permissions.
abbrev pub IsStandard : AclPermission → Type 0
IsStandard e = (is_acl_type e.kind ≡ true) × (byte_len e.permissions ≡ 3)

from_fields-IsStandard :
    (parts : List Text) (e : AclPermission) → from_fields parts ≡ some e → IsStandard e
from_fields-IsStandard [] e h = cc
from_fields-IsStandard (t ∷ []) e h = cc
from_fields-IsStandard (t ∷ q ∷ []) e h = cc
from_fields-IsStandard (t ∷ q ∷ p ∷ []) e h =
    three (is_acl_type (trim_space t)) (byte_len (permissions_of p) == 3) refl refl h
  where
    three :
        (a b : Bool)
        → is_acl_type (trim_space t) ≡ a
        → (byte_len (permissions_of p) == 3) ≡ b
        → (if a && b
            then some (record {
              kind = trim_space t;
              qualifier = trim_space q;
              permissions = permissions_of p;
            })
            else none)
          ≡ some e
        → IsStandard e
    three true true f g k =
        let same : record {
          kind = trim_space t;
          qualifier = trim_space q;
          permissions = permissions_of p;
        }
            ≡ e =
          cc in
        subst IsStandard same (f, ground (arith, g))
    three true false f g k = cc
    three false b f g k = cc
from_fields-IsStandard (t ∷ q ∷ p ∷ r ∷ rest) e h = cc

guarded :
    (a b : Bool) (o : Option AclPermission) (e : AclPermission)
    → (if a then none else if b then none else o) ≡ some e
    → o ≡ some e
guarded true b o e h = cc
guarded false true o e h = cc
guarded false false o e h = h

parse_entry-IsStandard :
    (line : Text) (e : AclPermission) → parse_entry line ≡ some e → IsStandard e
unfolding parse_entry
parse_entry-IsStandard line e h =
    let text = without_default (trim_space line) in
    from_fields-IsStandard (split_n b':' 3 text) e (
      guarded (is_empty (trim_space line) || has_prefix (trim_space line) (codes "#"))
        (is_empty text) (from_fields (split_n b':' 3 text)) e h)

parse_entries-IsStandard : (ls : List Text) → All IsStandard (parse_entries ls)
unfolding parse_entries
parse_entries-IsStandard [] = tt
parse_entries-IsStandard (l ∷ ls) = elim (Option-cases (parse_entry l)) [
  | inl e ↦ subst (All IsStandard) (sym (skipped e)) (parse_entries-IsStandard ls)
  | inr (x, e) ↦
      subst (All IsStandard) (sym (kept x e))
        (parse_entry-IsStandard l x e, parse_entries-IsStandard ls)
]
  where
    skipped : parse_entry l ≡ none → parse_entries (l ∷ ls) ≡ parse_entries ls
    skipped e = rw (e, parse_entries) refl

    kept :
        (x : AclPermission) → parse_entry l ≡ some x → parse_entries (l ∷ ls) ≡ x ∷ parse_entries ls
    kept x e = rw (e, parse_entries) refl

-- Whatever getfacl prints, every entry that is read has a standard type and three bytes of
-- permissions.
pub parse_getfacl_output-IsStandard : (out : Text) → All IsStandard (parse_getfacl_output out)
unfolding parse_getfacl_output
parse_getfacl_output-IsStandard out = parse_entries-IsStandard (scan_lines (64 * 1024) out).0

-- Where the path is accepted, there are entries and setfacl is not installed, the caller gets
-- NOT_FOUND and the audit log records INTERNAL.
pub set_acl-exec_not_found :
    (env : AclEnv) (root path entry : Text) (entries : List Text) (source abs : Text) (s : Shell)
    (es : List AuditEvent)
    → s.journal ≡ some es
    → safe_path env.eval_symlinks root path ≡ ok abs
    → (env.run (set_command (entry ∷ entries) abs)).1 ≡ some exec_not_found
    → (reported (set_acl env root path (entry ∷ entries) source s).0 ≡ some not_found)
      × ((set_acl env root path (entry ∷ entries) source s).1.journal
          ≡ some (es ++ event source (codes "acl.set") path failure (some internal) ∷ []))
unfolding set_acl log_audit reported
set_acl-exec_not_found env root path entry entries source abs s es j e r =
    rw (e, set_acl) (rw (r, set_acl) (ground (arith, j)))
