-- ===== src/Share/Store/Restart.antt =====
-- fileBackend (internal/service/share/filebackend.go): what load reads after a Reload.
use mingyue_go.Base.{
  Dict, List, Option, Text, [], ap, arith, if◌then◌else◌, insert, lookup, lookup-insert, none, refl,
  some, sym, text_eq, text_eq_iff, values, ◌∙◌, ◌∷◌, ◌≡◌,
}
use mingyue_go.Errors.{done}
use mingyue_go.Share.{Share}
use mingyue_go.Share.Store.{
  Disk, FileStore, Codec, list_shares, add_all, load, insert_sorted, sort_shares,
}
use mingyue_go.Share.Store.Reload.{Env, reload}
use mingyue_go.Share.Store.Persistence.{reload_writes}
use mingyue_go.Share.Store.View.{IsNamed, AreNamed}

-- The first share of that name.
find : Text → List Share → Option Share
find k [] = none
find k (x ∷ xs) = if text_eq x.name k then some x else find k xs

abbrev HasDistinctNames : List Share → Type 0
HasDistinctNames [] = Unit
HasDistinctNames (x ∷ xs) = (find x.name xs ≡ none) × HasDistinctNames xs

lookup-values : (k : Text) (m : Dict Share) → IsNamed m → lookup k m ≡ find k (values m)
unfolding lookup find
lookup-values k [] h = refl
lookup-values k ((j, x) ∷ m) (n, free, h) = ground (arith, n, lookup-values k m h)

values-HasDistinctNames : (m : Dict Share) → IsNamed m → HasDistinctNames (values m)
values-HasDistinctNames [] h = tt
values-HasDistinctNames ((j, x) ∷ m) (n, free, h) =
    (sym (lookup-values x.name m h) ∙ ap (λ k. lookup k m) n ∙ free, values-HasDistinctNames m h)

find-insert_sorted :
    (k : Text) (x : Share) (ys : List Share)
    → find x.name ys ≡ none
    → find k (insert_sorted x ys) ≡ find k (x ∷ ys)
unfolding find insert_sorted
find-insert_sorted k x [] h = refl
find-insert_sorted k x (y ∷ ys) h = ground (
  arith,
  find-insert_sorted k x ys,
  text_eq_iff x.name k,
  text_eq_iff y.name k,
  text_eq_iff y.name x.name,
)

insert_sorted-HasDistinctNames :
    (x : Share) (ys : List Share)
    → find x.name ys ≡ none
    → HasDistinctNames ys
    → HasDistinctNames (insert_sorted x ys)
unfolding find insert_sorted
insert_sorted-HasDistinctNames x [] h d = (refl, tt)
insert_sorted-HasDistinctNames x (y ∷ ys) h (f, d) = ground (
  arith,
  insert_sorted-HasDistinctNames x ys,
  find-insert_sorted y.name x ys,
  text_eq_iff x.name y.name,
  text_eq_iff y.name x.name,
)

find-cons :
    (k : Text) (x : Share) (xs ys : List Share)
    → find k xs ≡ find k ys
    → find k (x ∷ xs) ≡ find k (x ∷ ys)
unfolding find
find-cons k x xs ys e = ap (λ r. if text_eq x.name k then some x else r) e

sort_shares-HasDistinctNames :
    (xs : List Share)
    → HasDistinctNames xs
    → HasDistinctNames (sort_shares xs) × ((k : Text) → find k (sort_shares xs) ≡ find k xs)
unfolding sort_shares
sort_shares-HasDistinctNames [] h = (tt, λ k. refl)
sort_shares-HasDistinctNames (x ∷ xs) (f, d) =
    let (sorted, same) = sort_shares-HasDistinctNames xs d in
    let free : find x.name (sort_shares xs) ≡ none = same x.name ∙ f in
    (
      insert_sorted-HasDistinctNames x (sort_shares xs) free sorted,
      λ k.
          find-insert_sorted k x (sort_shares xs) free ∙ find-cons k x (sort_shares xs) xs (same k),
    )

or_else : Option Share → Option Share → Option Share
or_else none d = d
or_else (some x) d = some x

lookup-add_all :
    (k : Text) (xs : List Share) (m : Dict Share)
    → HasDistinctNames xs
    → lookup k (add_all xs m) ≡ or_else (find k xs) (lookup k m)
unfolding add_all find or_else
lookup-add_all k [] m h = refl
lookup-add_all k (x ∷ xs) m (f, d) = ground (
  arith,
  lookup-add_all k xs (insert x.name x m) d,
  lookup-insert x.name k x m,
  text_eq_iff x.name k,
)

lookup-load :
    (codec : Codec Share) (k : Text) (xs : List Share)
    → HasDistinctNames xs
    → lookup k (load codec (some (codec.encode xs))) ≡ find k xs
unfolding load or_else lookup
lookup-load codec k xs d = ground (
  arith,
  codec.decode-encode xs,
  lookup-add_all k xs [] d,
  or_else-none (find k xs),
  lookup-nil k,
)
  where
    or_else-none : (o : Option Share) → or_else o none ≡ o
    or_else-none none = refl
    or_else-none (some x) = refl

    lookup-nil : (k : Text) → lookup {V = Share} k [] ≡ none
    lookup-nil k = refl

list_shares_lem : (s : FileStore) → list_shares s ≡ values s.shares
unfolding list_shares
list_shares_lem s = refl

-- In a store whose shares stand under their names: after a successful Reload, the shares that a
-- new process loads from the state file are those in memory, name by name.
pub restart_finds_shares :
    (codec : Codec Share) (conf_path : Text) (env : Env) (s : FileStore) (k : Text)
    → AreNamed s
    → (reload codec conf_path env s).0 ≡ done
    → lookup k (load codec (reload codec conf_path env s).1.disk.state) ≡ lookup k s.shares
restart_finds_shares codec conf_path env s k inv h =
    let distinct = values-HasDistinctNames s.shares inv in
    let (sorted, same) = sort_shares-HasDistinctNames (values s.shares) distinct in
    ap (λ (d : Disk). lookup k (load codec d.state)) (reload_writes codec conf_path env s h)
    ∙ ap (λ xs. lookup k (load codec (some (codec.encode (sort_shares xs))))) (list_shares_lem s)
    ∙ lookup-load codec k (sort_shares (values s.shares)) sorted
    ∙ same k
    ∙ sym (lookup-values k s.shares inv)
