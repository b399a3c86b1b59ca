-- ===== src/SafePath/Inside.antt =====
-- safePath of internal/service/file/manager.go: what is known of an accepted path, links included.
use mingyue_go.Base.{All, List, Option, Text, arith, false, some, sym, true, ◌∙◌, ◌≡◌}
use mathlib.Core.List.{reverse}
use mingyue_go.Errors.{ok}
use mingyue_go.Path.{is_abs}
use mingyue_go.Path.Clean.{IsName, abs_path}
use mingyue_go.SafePath.{escapes, safe_path}
use mingyue_go.SafePath.Ancestors.{nearest, nearest_allowed}
use mingyue_go.SafePath.Contained.{IsBelow, escapes-IsBelow, decision_ok, safe_path-decision}

-- `p` is a clean path at or below the root, and so is the path that its nearest existing ancestor
-- comes to when the symbolic links are resolved by `eval`.
pub record IsInside (eval : Text → Option Text) (root p : Text) : Type 0 where
  pub names : List Text
  pub is_path : p ≡ abs_path names
  pub are_names : All IsName names
  pub below : IsBelow root p
  pub resolved :
      (real : List Text)
      → All IsName real
      → nearest eval (reverse names) ≡ some (abs_path real)
      → IsBelow root (abs_path real)

allowed-escapes :
    (root p : Text) (found : Option Text)
    → nearest_allowed root found ≡ true
    → found ≡ some p
    → escapes root p ≡ false
allowed-escapes root p found h e = ground arith

-- Under an absolute root, an accepted path is inside it.
pub safe_path-IsInside :
    (eval : Text → Option Text) (root path : Text) {abs : Text}
    → is_abs root ≡ true
    → safe_path eval root path ≡ ok abs
    → IsInside eval root abs
safe_path-IsInside eval root path h e =
    let (names, _, all, d) = safe_path-decision eval root path h in
    let (here, inside, allowed) = decision_ok eval root names (sym d ∙ e) in
    record {
      names = names;
      is_path = here;
      are_names = all;
      below = rw here (escapes-IsBelow root names all inside);
      resolved = λ real all_real found.
          escapes-IsBelow root real all_real
            (allowed-escapes root (abs_path real) (nearest eval (reverse names)) allowed found);
    }
