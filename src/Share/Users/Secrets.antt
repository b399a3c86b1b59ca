-- ===== src/Share/Users/Secrets.antt =====
-- The password of internal/service/share/sambauser.go: where it goes.
use mingyue_go.Base.{
  Bool-cases, List, Text, [], ap, append-nil, codes, false, if◌then◌else◌, inl, inr, is_empty, refl,
  sym, trim_space, ◌++◌, ◌∙◌, ◌∷◌, ◌≡◌,
}
use mingyue_go.Errors.{Status}
use mingyue_go.Share.Users.{UserCall, UserRunner, add_user, set_password, add_call, password_call}

-- The command lines of a list of calls, which other users of the host can read.
abbrev pub command_lines : List UserCall → List (List Text)
command_lines [] = []
command_lines (c ∷ cs) = c.command ∷ command_lines cs

command_lines-append :
    (cs ds : List UserCall) → command_lines (cs ++ ds) ≡ command_lines cs ++ command_lines ds
command_lines-append [] ds = refl
command_lines-append (c ∷ cs) ds = ap (λ l. c.command ∷ l) (command_lines-append cs ds)

-- What the calls of a list read on their standard inputs.
abbrev pub stdins : List UserCall → List Text
stdins [] = []
stdins (c ∷ cs) = c.stdin ∷ stdins cs

stdins-append : (cs ds : List UserCall) → stdins (cs ++ ds) ≡ stdins cs ++ stdins ds
stdins-append [] ds = refl
stdins-append (c ∷ cs) ds = ap (λ l. c.stdin ∷ l) (stdins-append cs ds)

-- The runner's error depends on the command line alone.
abbrev pub IsBlind : UserRunner → Type 0
IsBlind run =
    (command : List Text) (a b : Text)
    → (run (record { stdin = a; command = command })).1
      ≡ (run (record { stdin = b; command = command })).1

-- What is read on the standard input for a password: its line twice, where the user is named.
abbrev pub given : Text → Text → List Text
given username password =
    if is_empty (trim_space username)
    then []
    else (password ++ (codes "\n" ++ (password ++ codes "\n"))) ∷ []

-- The two operations with one password beside those with another: the same result and the same
-- command lines, and each standard input is the old ones and that of the password.
abbrev pub IsSecret :
    (Text → Text → List UserCall → Status × List UserCall)
    → Text
    → Text
    → Text
    → List UserCall
    → Type 0
IsSecret op username p q calls =
    ((op username p calls).0 ≡ (op username q calls).0)
    × (command_lines (op username p calls).1 ≡ command_lines (op username q calls).1)
    × (stdins (op username p calls).1 ≡ stdins calls ++ given username p)

module _ (run : UserRunner) (blind : IsBlind run) (username p q : Text) (calls : List UserCall)
    (hp : is_empty (trim_space p) ≡ false) (hq : is_empty (trim_space q) ≡ false) where
  add_user-IsSecret : IsSecret (add_user run) username p q calls
  unfolding add_user
  add_user-IsSecret = elim (Bool-cases (is_empty (trim_space username))) [
    | inl e ↦ rw (e, add_user) (refl, refl, sym (append-nil (stdins calls)))
    | inr e ↦
        rw (e, hp, hq)
          (
            rw
                (blind (add_call username p).command (add_call username p).stdin
                  (add_call username q).stdin)
                refl,
            command_lines-append calls (add_call username p ∷ [])
                ∙ sym (command_lines-append calls (add_call username q ∷ [])),
            stdins-append calls (add_call username p ∷ []),
          )
  ]

  set_password-IsSecret : IsSecret (set_password run) username p q calls
  unfolding set_password
  set_password-IsSecret = elim (Bool-cases (is_empty (trim_space username))) [
    | inl e ↦ rw (e, set_password) (refl, refl, sym (append-nil (stdins calls)))
    | inr e ↦
        rw (e, hp, hq)
          (
            rw
                (blind (password_call username p).command (password_call username p).stdin
                  (password_call username q).stdin)
                refl,
            command_lines-append calls (password_call username p ∷ [])
                ∙ sym (command_lines-append calls (password_call username q ∷ [])),
            stdins-append calls (password_call username p ∷ []),
          )
  ]

-- For two passwords that are not blank, and commands whose errors do not depend on their standard
-- input, AddUser returns the same result and runs the same command lines, so that neither tells
-- anything of the password. Where the user's name is not blank, the command reads the password twice,
-- each time with a line end, and nothing else; where it is blank, no command reads anything.
-- SetPassword does the same.
pub add_user-set_password :
    (run : UserRunner) (username p q : Text) (calls : List UserCall)
    → IsBlind run
    → is_empty (trim_space p) ≡ false
    → is_empty (trim_space q) ≡ false
    → IsSecret (add_user run) username p q calls × IsSecret (set_password run) username p q calls
add_user-set_password run username p q calls blind hp hq = (
  add_user-IsSecret run blind username p q calls hp hq,
  set_password-IsSecret run blind username p q calls hp hq,
)
