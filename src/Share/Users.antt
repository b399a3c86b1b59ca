-- ===== src/Share/Users.antt =====
-- SambaUserManager of internal/service/share/sambauser.go.
pub mod Secrets
use mingyue_go.Base.{
  Bool, List, Option, String, Text, [], codes, fields, if◌then◌else◌, is_empty, none, scan_lines,
  some, split_n, trim_space, ◌*◌, ◌++◌, ◌∷◌,
}
use mingyue_go.Errors.{
  GoError, OsError, app, wrapped, invalid_input, internal, os, lit, quoted, other, Result, ok, err,
  Status, done,
}

-- A command that was run, and what it read on its standard input.
pub record UserCall : Type 0 where
  pub stdin : Text
  pub command : List Text

-- What a command prints and returns.
abbrev pub UserRunner : Type 0
UserRunner = UserCall → Text × Option OsError

-- The loop of ListUsers over the lines of pdbedit
unfoldable pub user_names : List Text → List Text
unfolding trim_space split_n
user_names [] = []
user_names (l ∷ ls) =
    let rest = user_names ls in
    if is_empty (trim_space l) then rest else elim (split_n b':' 2 (trim_space l)) [
      | [] ↦ rest
      | name ∷ fields ↦ if is_empty name then rest else name ∷ rest
    ]

abbrev pub list_call : UserCall
list_call = record { stdin = []; command = codes "pdbedit" ∷ codes "-L" ∷ [] }

-- ListUsers; a line of 64 KiB or more ends the scan with bufio.ErrTooLong.
unfoldable pub list_users : UserRunner → Result (List Text)
unfolding scan_lines user_names
list_users run = elim (run list_call).1 [
  | some e ↦ err (wrapped internal (lit "failed to list samba users" ∷ []) (os e))
  | none ↦
      let (lines, too_long) = scan_lines (64 * 1024) (run list_call).0 in
      if too_long
      then err (
          wrapped internal (lit "failed to parse samba users" ∷ [])
            (os (other (codes "bufio.Scanner: token too long"))))
      else ok (user_names lines)
]

abbrev is_blank : Text → Bool
is_blank s = is_empty (trim_space s)

abbrev username_empty : Status
username_empty = err (app invalid_input (lit "username must not be empty" ∷ []))

abbrev password_empty : Status
password_empty = err (app invalid_input (lit "password must not be empty" ∷ []))

-- password + "\n" + password + "\n"
abbrev pub twice : Text → Text
twice password = password ++ 10 ∷ (password ++ 10 ∷ [])

abbrev call_status : String → Text → Text × Option OsError → Status
call_status failed username (output, e) = elim e [
  | none ↦ done
  | some e ↦ err (wrapped internal (lit failed ∷ quoted username ∷ []) (os e))
]

abbrev pub add_call : Text → Text → UserCall
add_call username password = record {
  stdin = twice password;
  command = codes "smbpasswd" ∷ codes "-a" ∷ codes "-s" ∷ username ∷ [];
}

abbrev pub password_call : Text → Text → UserCall
password_call username password = record {
  stdin = twice password;
  command = codes "smbpasswd" ∷ codes "-s" ∷ username ∷ [];
}

abbrev pub remove_call : Text → UserCall
remove_call username = record {
  stdin = [];
  command = codes "smbpasswd" ∷ codes "-x" ∷ username ∷ [];
}

-- AddUser; the state is the calls that were made, the oldest first.
unfoldable pub add_user : UserRunner → Text → Text → List UserCall → Status × List UserCall
unfolding trim_space
add_user run username password calls =
    if is_blank username
    then (username_empty, calls)
    else if is_blank password
    then (password_empty, calls)
    else (
      call_status "failed to add samba user " username (run (add_call username password)),
      calls ++ add_call username password ∷ [],
    )

-- RemoveUser
unfoldable pub remove_user : UserRunner → Text → List UserCall → Status × List UserCall
unfolding trim_space
remove_user run username calls = if is_blank username then (username_empty, calls) else (
  call_status "failed to remove samba user " username (run (remove_call username)),
  calls ++ remove_call username ∷ [],
)

-- SetPassword
unfoldable pub set_password : UserRunner → Text → Text → List UserCall → Status × List UserCall
unfolding trim_space
set_password run username password calls =
    if is_blank username
    then (username_empty, calls)
    else if is_blank password
    then (password_empty, calls)
    else (
      call_status "failed to set password for samba user " username
          (run (password_call username password)),
      calls ++ password_call username password ∷ [],
    )
