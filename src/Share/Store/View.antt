-- ===== src/Share/Store/View.antt =====
-- fileBackend (internal/service/share/filebackend.go) as a Backend: its map and its view.
use mingyue_go.Base.{
  Bool-cases, Dict, Text, [], ap, arith, false, if◌then◌else◌, inl, inr, insert, lookup,
  lookup-insert, lookup-remove, none, refl, remove, some, sym, text_eq, text_eq_iff, values, ◌∙◌,
  ◌∷◌, ◌≡◌,
}
use mathlib.Core.Path.{subst}
use mingyue_go.Errors.{ok, err, done, GoError}
use mingyue_go.Share.{Share, error_code}
use mingyue_go.Share.Backend.{Backend, View, put, drop_name, Same, IsBackend, IsExact, named}
use mingyue_go.Share.Store.{
  FileStore, Codec, list_shares, get_share, create_share, update_share, delete_share,
}
use mingyue_go.Share.Store.Reload.{Env, reload}
use mingyue_go.Share.Store.Persistence.{reload_keeps_shares}

-- Each entry stands under the name of its share, and no name stands twice.
abbrev pub IsNamed : Dict Share → Type 0
IsNamed [] = Unit
IsNamed ((k, x) ∷ m) = (x.name ≡ k) × (lookup k m ≡ none) × IsNamed m

abbrev pub view : FileStore → View
view s k = lookup k s.shares

abbrev pub AreNamed : FileStore → Type 0
AreNamed s = IsNamed s.shares

pub insert-IsNamed : (x : Share) (m : Dict Share) → IsNamed m → IsNamed (insert x.name x m)
unfolding insert lookup
insert-IsNamed x [] h = (refl, refl, tt)
insert-IsNamed x ((j, w) ∷ m) (n, free, h) = elim (Bool-cases (text_eq j x.name)) [
  | inl e ↦ rw e (refl, subst (λ k. lookup k m ≡ none) ((text_eq_iff j x.name).0 e) free, h)
  | inr e ↦ rw e (n, lookup-insert x.name j x m ∙ other e, insert-IsNamed x m h)
]
  where
    other : text_eq j x.name ≡ false → (if text_eq x.name j then some x else lookup j m) ≡ none
    other e = ground (arith, text_eq_iff j x.name, text_eq_iff x.name j, free)

pub remove-IsNamed : (k : Text) (m : Dict Share) → IsNamed m → IsNamed (remove k m)
unfolding remove lookup
remove-IsNamed k [] h = tt
remove-IsNamed k ((j, w) ∷ m) (n, free, h) = elim (Bool-cases (text_eq j k)) [
  | inl e ↦ rw e (remove-IsNamed k m h)
  | inr e ↦ rw e (n, lookup-remove k j m ∙ still, remove-IsNamed k m h)
]
  where
    still : (if text_eq k j then none else lookup j m) ≡ none
    still = ground (arith, free)

lookup-name : (k : Text) (m : Dict Share) (x : Share) → IsNamed m → lookup k m ≡ some x → x.name ≡ k
unfolding lookup
lookup-name k [] x h e = cc
lookup-name k ((j, w) ∷ m) x (n, free, h) e = elim (Bool-cases (text_eq j k)) [
  | inl f ↦ ground (arith, f, text_eq_iff j k)
  | inr f ↦ lookup-name k m x h (ground (arith, f))
]

-- The production backend, for environments that depend on the state in any way.
unfoldable pub file_backend : Codec Share → Text → (FileStore → Env) → Backend FileStore
file_backend codec conf_path env = record {
  list = λ s. ok (list_shares s);
  get = get_share;
  create = create_share;
  update = update_share;
  delete = delete_share;
  reload = λ s. reload codec conf_path (env s) s;
}

module _ (s : FileStore) (inv : AreNamed s) where
  get_known : (k : Text) (x : Share) → get_share k s ≡ ok x → (view s k ≡ some x) × (x.name ≡ k)
  unfolding get_share
  get_known k x e =
      let found : lookup k s.shares ≡ some x = ground arith in
      (found, lookup-name k s.shares x inv found)

  create_new :
      (x : Share)
      → view s x.name ≡ none
      → ((create_share x s).0 ≡ done)
        × AreNamed (create_share x s).1
        × Same (view (create_share x s).1) (put x (view s))
  unfolding create_share
  create_new x free =
      rw (free, create_share)
        (refl, insert-IsNamed x s.shares inv, λ k. lookup-insert x.name k x s.shares)

  create_known :
      (x y : Share)
      → view s x.name ≡ some y
      → ((e : GoError) × ((create_share x s).0 ≡ err e)) × ((create_share x s).1 ≡ s)
  unfolding create_share
  create_known x y known = rw (known, create_share) ((_, refl), refl)

  update_known :
      (x y : Share)
      → view s x.name ≡ some y
      → ((update_share x s).0 ≡ done)
        × AreNamed (update_share x s).1
        × Same (view (update_share x s).1) (put x (view s))
  unfolding update_share
  update_known x y known =
      rw (known, update_share)
        (refl, insert-IsNamed x s.shares inv, λ k. lookup-insert x.name k x s.shares)

  delete_known :
      (k : Text) (y : Share)
      → view s k ≡ some y
      → ((delete_share k s).0 ≡ done)
        × AreNamed (delete_share k s).1
        × Same (view (delete_share k s).1) (drop_name k (view s))
  unfolding delete_share
  delete_known k y known =
      rw (known, delete_share)
        (refl, remove-IsNamed k s.shares inv, λ j. lookup-remove k j s.shares)

named-values :
    (k : Text) (m : Dict Share)
    → IsNamed m
    → named k (values m) ≡ (elim (lookup k m) [ none ↦ [] | some x ↦ x ∷ [] ])
unfolding lookup
named-values k [] h = refl
named-values k ((j, w) ∷ m) (n, free, h) =
    ground (arith, named-values k m h, text_eq_iff j k, text_eq_iff w.name k)

module _ (codec : Codec Share) (conf_path : Text) (env : FileStore → Env) where
  file_backend_relied : IsBackend (file_backend codec conf_path env) view AreNamed
  unfolding file_backend
  file_backend_relied = record {
    get_known = λ k x s inv. get_known s inv k x;
    create_new = λ x s inv. create_new s inv x;
    create_known = λ x y s inv. create_known s inv x y;
    update_known = λ x y s inv. update_known s inv x y;
    delete_known = λ k y s inv. delete_known s inv k y;
    reload_view = λ s inv. (
      subst IsNamed (sym (reload_keeps_shares codec conf_path (env s) s)) inv,
      λ k. ap (lookup k) (reload_keeps_shares codec conf_path (env s) s),
    );
  }

  file_backend_exact : IsExact (file_backend codec conf_path env) view AreNamed
  unfolding file_backend list_shares get_share create_share update_share delete_share error_code
  file_backend_exact = record {
    list_view = λ s inv. (_, refl, λ k. named-values k s.shares inv);
    get_view = λ k x s inv e. rw (e, get_share) refl;
    get_unknown = λ k s inv e. rw (e, get_share) (_, refl, refl);
    create_conflict = λ x y s inv e. rw (e, create_share) (_, refl, refl);
    update_unknown = λ x s inv e. rw (e, update_share) (_, refl, refl);
    delete_unknown = λ k s inv e. rw (e, delete_share) (_, refl, refl);
  }

  -- In every environment, the file backend satisfies IsBackend and IsExact in the states where each
  -- share stands under its name: Create, Update and Delete
  -- change exactly the share of their name where it is free or in use as they want, and else refuse,
  -- with code CONFLICT or NOT_FOUND, and change nothing; List and Get tell exactly the shares that are
  -- there; a Reload leaves them alone.
  pub file_backend-IsBackend :
      IsBackend (file_backend codec conf_path env) view AreNamed
      × IsExact (file_backend codec conf_path env) view AreNamed
  file_backend-IsBackend = (file_backend_relied, file_backend_exact)
