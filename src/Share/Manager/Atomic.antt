-- ===== src/Share/Manager/Atomic.antt =====
-- Create, Update and Delete of internal/service/share/manager.go: the view of the shares after them.
use mingyue_go.Base.{
  Bool-cases, Option-cases, Text, ap, inl, inr, is_empty, none, refl, some, sym, ◌∙◌, ◌≡◌, ◌⊎◌,
}
use mathlib.Core.Path.{subst}
use mingyue_go.Errors.{err, Status, done, GoError}
use mingyue_go.Errors.Laws.{Result-cases}
use mingyue_go.Share.{Share, validate_share}
use mingyue_go.Share.Backend.{Backend, View, put, drop_name, Same, IsBackend}
use mingyue_go.Share.Backend.Views.{
  put_self, drop_self, drop-put, put-put, put-drop, Same-put, Same-drop,
}
use mingyue_go.Share.Manager.{
  Service, create, create_store, create_reload, update, update_store, update_reload, delete,
  delete_store, delete_reload,
}

module _ {S : Type 0} (view : S → View) (Inv : S → Type 0) where
  -- A result and a state: success with the new view, or an error with the old one.
  abbrev pub IsAtomic : View → View → Status × Service S → Type 0
  IsAtomic old new r =
      ((r.0 ≡ done) × Inv r.1.store × Same (view r.1.store) new)
      ⊎ (((e : GoError) × (r.0 ≡ err e)) × Inv r.1.store × Same (view r.1.store) old)

module _ {S : Type 0} (b : Backend S) (view : S → View) (Inv : S → Type 0)
    (law : IsBackend b view Inv) (source : Text) (h : Service S) where
  -- The step after the backend took the new share: the reload, and its rollback.
  create_reload-IsAtomic :
      (x : Share) (s : S)
      → view h.store x.name ≡ none
      → Inv s
      → Same (view s) (put x (view h.store))
      → IsAtomic view Inv
          (view h.store)
          (put x (view h.store))
          (create_reload b x source h (b.reload s))
  create_reload-IsAtomic x s free inv same =
      let r = b.reload s in
      let (inv', kept) = law.reload_view s inv in
      let now : Same (view r.1) (put x (view h.store)) = λ k. kept k ∙ same k in
      let known : view r.1 x.name ≡ some x = now x.name ∙ put_self x (view h.store) in
      let (gone, inv_back, back) = law.delete_known x.name x r.1 inv' known in
      elim (Result-cases r.0) [
        | inl (_, e) ↦
            subst
              (λ q.
                IsAtomic view Inv (view h.store) (put x (view h.store))
                  (create_reload b x source h (q, r.1)))
              (sym e) (inl (refl, inv', now))
        | inr (x', e) ↦
            subst
              (λ q.
                IsAtomic view Inv (view h.store) (put x (view h.store))
                  (create_reload b x source h (q, r.1)))
              (sym e)
              (inr (
                (_, refl),
                inv_back,
                λ k.
                    back k
                    ∙ Same-drop x.name (view r.1) (put x (view h.store)) now k
                    ∙ drop-put x (view h.store) free k,
              ))
      ]

  create_store-IsAtomic :
      (x : Share)
      → Inv h.store
      → IsAtomic view Inv
          (view h.store)
          (put x (view h.store))
          (create_store b x source h (b.create x h.store))
  create_store-IsAtomic x inv = elim (Option-cases (view h.store x.name)) [
    | inl free ↦
        let (e, inv', same) = law.create_new x h.store inv free in
        subst
          (λ q.
            IsAtomic view Inv (view h.store) (put x (view h.store))
              (create_store b x source h (q, (b.create x h.store).1)))
          (sym e) (create_reload-IsAtomic x (b.create x h.store).1 free inv' same)
    | inr (y, known) ↦
        let ((d, e), stays) = law.create_known x y h.store inv known in
        subst
          (λ q.
            IsAtomic view Inv (view h.store) (put x (view h.store))
              (create_store b x source h (q, (b.create x h.store).1)))
          (sym e) (inr ((_, refl), subst Inv (sym stays) inv, λ k. ap (λ s. view s k) stays))
  ]

  -- Whatever Create meets, it adds the share or leaves every share as it was.
  pub create_all_or_nothing :
      (x : Share)
      → Inv h.store
      → IsAtomic view Inv (view h.store) (put x (view h.store)) (create b x source h)
  unfolding create
  create_all_or_nothing x inv = elim (Result-cases (validate_share x)) [
    | inr (d, e) ↦ rw (e, create) (inr ((d, refl), inv, λ k. refl))
    | inl (_, e) ↦ rw (e, create) (create_store-IsAtomic x inv)
  ]

  update_reload-IsAtomic :
      (prev x : Share) (s : S)
      → view h.store prev.name ≡ some prev
      → prev.name ≡ x.name
      → Inv s
      → Same (view s) (put x (view h.store))
      → IsAtomic view Inv
          (view h.store)
          (put x (view h.store))
          (update_reload b prev x source h (b.reload s))
  update_reload-IsAtomic prev x s was named inv same =
      let r = b.reload s in
      let (inv', kept) = law.reload_view s inv in
      let now : Same (view r.1) (put x (view h.store)) = λ k. kept k ∙ same k in
      let known : view r.1 prev.name ≡ some x =
        now prev.name ∙ ap (put x (view h.store)) named ∙ put_self x (view h.store) in
      let (again, inv_back, back) = law.update_known prev x r.1 inv' known in
      elim (Result-cases r.0) [
        | inl (_, e) ↦
            subst
              (λ q.
                IsAtomic view Inv (view h.store) (put x (view h.store))
                  (update_reload b prev x source h (q, r.1)))
              (sym e) (inl (refl, inv', now))
        | inr (x', e) ↦
            subst
              (λ q.
                IsAtomic view Inv (view h.store) (put x (view h.store))
                  (update_reload b prev x source h (q, r.1)))
              (sym e)
              (inr (
                (_, refl),
                inv_back,
                λ k.
                    back k
                    ∙ Same-put prev (view r.1) (put x (view h.store)) now k
                    ∙ put-put x prev (view h.store) (sym named) was k,
              ))
      ]

  -- Over any backend with the laws of IsBackend, in a state that satisfies its invariant, Update
  -- replaces the share of that name and returns success, or returns an error and leaves every
  -- share as it was.
  pub update-IsAtomic :
      (x : Share)
      → Inv h.store
      → IsAtomic view Inv (view h.store) (put x (view h.store)) (update b x source h)
  unfolding update
  update-IsAtomic x inv = elim (Result-cases (validate_share x)) [
    | inr (d, e) ↦ rw (e, update) (inr ((d, refl), inv, λ k. refl))
    | inl (_, e) ↦ elim (Result-cases (b.get x.name h.store)) [
      | inr (d, g) ↦ rw (e, update) (rw (g, update) (inr ((d, refl), inv, λ k. refl)))
      | inl (prev, g) ↦
          let (was, named) = law.get_known x.name prev h.store inv g in
          let (u, inv', same) = law.update_known x prev h.store inv was in
          rw (e, update)
            (rw (g, update)
              (subst
                (λ q.
                  IsAtomic view Inv (view h.store) (put x (view h.store))
                    (update_store b prev x source h (q, (b.update x h.store).1)))
                (sym u)
                (update_reload-IsAtomic prev x (b.update x h.store).1
                  (ap (view h.store) named ∙ was) named inv' same)))
    ]
  ]

  delete_reload-IsAtomic :
      (prev : Share) (s : S)
      → view h.store prev.name ≡ some prev
      → Inv s
      → Same (view s) (drop_name prev.name (view h.store))
      → IsAtomic view Inv
          (view h.store)
          (drop_name prev.name (view h.store))
          (delete_reload b prev prev.name source h (b.reload s))
  delete_reload-IsAtomic prev s was inv same =
      let r = b.reload s in
      let (inv', kept) = law.reload_view s inv in
      let gone = drop_name prev.name (view h.store) in
      let now : Same (view r.1) gone = λ k. kept k ∙ same k in
      let free : view r.1 prev.name ≡ none = now prev.name ∙ drop_self prev.name (view h.store) in
      let (again, inv_back, back) = law.create_new prev r.1 inv' free in
      elim (Result-cases r.0) [
        | inl (_, e) ↦
            subst
              (λ q.
                IsAtomic view Inv (view h.store) gone
                  (delete_reload b prev prev.name source h (q, r.1)))
              (sym e) (inl (refl, inv', now))
        | inr (x', e) ↦
            subst
              (λ q.
                IsAtomic view Inv (view h.store) gone
                  (delete_reload b prev prev.name source h (q, r.1)))
              (sym e)
              (inr (
                (_, refl),
                inv_back,
                λ k.
                    back k
                    ∙ Same-put prev (view r.1) gone now k
                    ∙ put-drop prev (view h.store) was k,
              ))
      ]

  delete_found :
      (prev : Share)
      → view h.store prev.name ≡ some prev
      → Inv h.store
      → IsAtomic view Inv
          (view h.store)
          (drop_name prev.name (view h.store))
          (delete_store b prev prev.name source h (b.delete prev.name h.store))
  delete_found prev was inv =
      let (u, inv', same) = law.delete_known prev.name prev h.store inv was in
      subst
        (λ q.
          IsAtomic view Inv (view h.store) (drop_name prev.name (view h.store))
            (delete_store b prev prev.name source h (q, (b.delete prev.name h.store).1)))
        (sym u) (delete_reload-IsAtomic prev (b.delete prev.name h.store).1 was inv' same)

  -- Over any backend with the laws of IsBackend, in a state that satisfies its invariant, Delete
  -- takes the share of that name away and returns success, or returns an error and leaves every
  -- share as it was.
  pub delete-IsAtomic :
      (name : Text)
      → Inv h.store
      → IsAtomic view Inv (view h.store) (drop_name name (view h.store)) (delete b name source h)
  unfolding delete
  delete-IsAtomic name inv = elim (Bool-cases (is_empty name)) [
    | inl e ↦ rw (e, delete) (inr ((_, refl), inv, λ k. refl))
    | inr e ↦ elim (Result-cases (b.get name h.store)) [
      | inr (d, g) ↦ rw (e, delete) (rw (g, delete) (inr ((d, refl), inv, λ k. refl)))
      | inl (prev, g) ↦
          let (was, named) = law.get_known name prev h.store inv g in
          rw (e, delete)
            (rw (g, delete)
              (subst
                (λ n.
                  IsAtomic view Inv (view h.store) (drop_name n (view h.store))
                    (delete_store b prev n source h (b.delete n h.store)))
                named (delete_found prev (ap (view h.store) named ∙ was) inv)))
    ]
  ]
