-- ===== src/Share/Backend.antt =====
-- The Backend interface of internal/service/share/manager.go: what the manager relies on, and what
-- the other answers tell.
pub mod Views
use mingyue_go.Base.{List, Option, Text, [], if◌then◌else◌, none, select, some, text_eq, ◌∷◌, ◌≡◌}
use mingyue_go.Errors.{Result, ok, err, Status, done, GoError, not_found, conflict}
use mingyue_go.Share.{Share, error_code}

pub record Backend (S : Type 0) : Type 0 where
  pub list : S → Result (List Share)
  pub get : Text → S → Result Share
  pub create : Share → S → Status × S
  pub update : Share → S → Status × S
  pub delete : Text → S → Status × S
  pub reload : S → Status × S

-- What a client sees of the shares: a share for each name that is in use.
abbrev pub View : Type 0
View = Text → Option Share

abbrev pub put : Share → View → View
put x v k = if text_eq x.name k then some x else v k

abbrev pub drop_name : Text → View → View
drop_name n v k = if text_eq n k then none else v k

abbrev pub Same : View → View → Type 0
Same v w = (k : Text) → v k ≡ w k

-- `view` is what the backend's state stands for, in the states where `Inv` holds: a name is
-- created at most once, only a name in use is updated or deleted, a failed call changes nothing,
-- and a reload leaves the shares alone.
pub record IsBackend {S : Type 0} (b : Backend S) (view : S → View) (Inv : S → Type 0)
    : Type 0 where
  pub get_known :
      (k : Text) (x : Share) (s : S) → Inv s → b.get k s ≡ ok x → (view s k ≡ some x) × (x.name ≡ k)
  pub create_new :
      (x : Share) (s : S)
      → Inv s
      → view s x.name ≡ none
      → ((b.create x s).0 ≡ done)
        × Inv (b.create x s).1
        × Same (view (b.create x s).1) (put x (view s))
  pub create_known :
      (x y : Share) (s : S)
      → Inv s
      → view s x.name ≡ some y
      → ((e : GoError) × ((b.create x s).0 ≡ err e)) × ((b.create x s).1 ≡ s)
  pub update_known :
      (x y : Share) (s : S)
      → Inv s
      → view s x.name ≡ some y
      → ((b.update x s).0 ≡ done)
        × Inv (b.update x s).1
        × Same (view (b.update x s).1) (put x (view s))
  pub delete_known :
      (k : Text) (y : Share) (s : S)
      → Inv s
      → view s k ≡ some y
      → ((b.delete k s).0 ≡ done)
        × Inv (b.delete k s).1
        × Same (view (b.delete k s).1) (drop_name k (view s))
  pub reload_view : (s : S) → Inv s → Inv (b.reload s).1 × Same (view (b.reload s).1) (view s)

-- The shares of a list that have a name.
abbrev pub named : Text → List Share → List Share
named k xs = select (λ (x : Share). text_eq x.name k) xs

-- The share of a name as a list: none, or that one.
abbrev pub at_name : Text → View → List Share
at_name k v = elim (v k) [ none ↦ [] | some x ↦ x ∷ [] ]

-- The other answers of a backend: List has one share for each name in use, Get finds each of them, a
-- name that is not in use is reported with code NOT_FOUND, and one that is, by Create, with CONFLICT;
-- a refused call leaves the whole state as it was.
pub record IsExact {S : Type 0} (b : Backend S) (view : S → View) (Inv : S → Type 0) : Type 0 where
  pub list_view :
      (s : S)
      → Inv s
      → (xs : List Share) × (b.list s ≡ ok xs) × ((k : Text) → named k xs ≡ at_name k (view s))
  pub get_view : (k : Text) (x : Share) (s : S) → Inv s → view s k ≡ some x → b.get k s ≡ ok x
  pub get_unknown :
      (k : Text) (s : S)
      → Inv s
      → view s k ≡ none
      → (e : GoError) × (b.get k s ≡ err e) × (error_code e ≡ not_found)
  pub create_conflict :
      (x y : Share) (s : S)
      → Inv s
      → view s x.name ≡ some y
      → (e : GoError) × (b.create x s ≡ (err e, s)) × (error_code e ≡ conflict)
  pub update_unknown :
      (x : Share) (s : S)
      → Inv s
      → view s x.name ≡ none
      → (e : GoError) × (b.update x s ≡ (err e, s)) × (error_code e ≡ not_found)
  pub delete_unknown :
      (k : Text) (s : S)
      → Inv s
      → view s k ≡ none
      → (e : GoError) × (b.delete k s ≡ (err e, s)) × (error_code e ≡ not_found)
