-- ===== src/Share/Store.antt =====
-- fileBackend of internal/service/share/filebackend.go: the shares in memory, and the three files
-- that Reload writes. What the file system and the services answer is the environment of a call.
pub mod Reload
pub mod Persistence
pub mod View
pub mod Restart
use mingyue_go.Base.{
  Bool, Dict, List, Option, Text, [], false, if◌then◌else◌, insert, lookup, ltb, none, remove, some,
  true, values, ◌&&◌, ◌==◌, ◌||◌, ◌∷◌, ◌≡◌,
}
use mingyue_go.Errors.{
  ErrorCode, GoError, app, os, OsError, not_found, conflict, lit, quoted, Result, ok, err, Status,
  done,
}
use mingyue_go.Share.{Share, is_smb, is_nfs}

-- The state file, the samba snippet and the NFS snippet: none where there is no file.
pub record Disk : Type 0 where
  pub state : Option Text
  pub samba : Option Text
  pub nfs : Option Text

pub record FileStore : Type 0 where
  pub shares : Dict Share
  pub disk : Disk
  -- the commands that were run, the oldest first
  pub commands : List (List Text)

-- encoding/json on a list of shares: marshalling texts and flags does not fail, and what was
-- marshalled is read back. A ShareType is a string in the source, so `other_type s` stands for a
-- string other than "smb" and "nfs".
pub record Codec (A : Type 0) : Type 0 where
  pub encode : List A → Text
  pub decode : Text → Option (List A)
  pub decode-encode : (xs : List A) → decode (encode xs) ≡ some xs

unfoldable pub list_shares : FileStore → List Share
list_shares s = values s.shares

unfoldable pub get_share : Text → FileStore → Result Share
get_share name s = elim (lookup name s.shares) [
  | some x ↦ ok x
  | none ↦ err (app not_found (lit "share " ∷ quoted name ∷ lit " not found" ∷ []))
]

unfoldable pub create_share : Share → FileStore → Status × FileStore
create_share x s = elim (lookup x.name s.shares) [
  | some _ ↦ (err (app conflict (lit "share " ∷ quoted x.name ∷ lit " already exists" ∷ [])), s)
  | none ↦ (done, record s { shares = insert x.name x s.shares })
]

unfoldable pub update_share : Share → FileStore → Status × FileStore
update_share x s = elim (lookup x.name s.shares) [
  | none ↦ (err (app not_found (lit "share " ∷ quoted x.name ∷ lit " not found" ∷ [])), s)
  | some _ ↦ (done, record s { shares = insert x.name x s.shares })
]

unfoldable pub delete_share : Text → FileStore → Status × FileStore
delete_share name s = elim (lookup name s.shares) [
  | none ↦ (err (app not_found (lit "share " ∷ quoted name ∷ lit " not found" ∷ [])), s)
  | some _ ↦ (done, record s { shares = remove name s.shares })
]

-- `for _, s := range shares { b.shares[s.Name] = s }`
unfoldable pub add_all : List Share → Dict Share → Dict Share
add_all [] m = m
add_all (x ∷ xs) m = add_all xs (insert x.name x m)

-- load, at start-up: a file that is missing, unreadable or not a list of shares leaves no shares.
unfoldable pub load : Codec Share → Option Text → Dict Share
unfolding add_all
load codec none = []
load codec (some content) = elim (codec.decode content) [ none ↦ [] | some xs ↦ add_all xs [] ]

-- a < b on Go strings
unfoldable pub text_lt : Text → Text → Bool
text_lt [] [] = false
text_lt [] (d ∷ t) = true
text_lt (c ∷ s) [] = false
text_lt (c ∷ s) (d ∷ t) = ltb c d || (c == d && text_lt s t)

unfoldable pub insert_sorted : Share → List Share → List Share
insert_sorted x [] = x ∷ []
insert_sorted x (y ∷ ys) = if text_lt y.name x.name then y ∷ insert_sorted x ys else x ∷ y ∷ ys

-- sort.Slice by name; the names of a map are distinct, so any sort gives this list.
unfoldable pub sort_shares : List Share → List Share
unfolding insert_sorted text_lt
sort_shares [] = []
sort_shares (x ∷ xs) = insert_sorted x (sort_shares xs)

-- Which services a list of shares concerns: samba, NFS.
unfoldable pub share_types : List Share → Bool × Bool
share_types [] = (false, false)
share_types (x ∷ xs) =
    let rest = share_types xs in (is_smb x.kind || rest.0, is_nfs x.kind || rest.1)

-- diskHasShareTypes: an absent or empty snapshot has none.
unfoldable pub disk_has_share_types : Codec Share → Option Text → Bool × Bool
unfolding share_types
disk_has_share_types codec none = (false, false)
disk_has_share_types codec (some []) = (false, false)
disk_has_share_types codec (some (c ∷ s)) = elim (codec.decode (c ∷ s)) [
  | none ↦ (false, false)
  | some xs ↦ share_types xs
]
