-- ===== src/Api/Router/Families.antt =====
-- The handlers of internal/api/smb.go and internal/api/nfs.go: shares of the other type.
use mingyue_go.Base.{
  Bool-cases, Option, Text, [], ap, arith, false, inl, inr, is_empty, some, sym, text_eq,
  text_eq_iff, true, ◌∙◌, ◌∷◌, ◌≡◌,
}
use mingyue_go.Auth.{Role}
use mingyue_go.Middleware.{HttpRequest, Reply, aborted}
use mingyue_go.Share.{Share}
use mingyue_go.Share.Backend.{View, IsBackend}
use mingyue_go.Share.Manager.{Service, create, update, delete, get}
use mingyue_go.Share.Manager.Creation.{create-IsAtomic}
use mingyue_go.Share.Manager.Atomic.{update-IsAtomic, delete-IsAtomic}
use mingyue_go.Api.System.{Env, System, Payload, ApiHandler, service}
use mingyue_go.Api.Families.{
  Family, get_of_family, with_existing, family_list_handler, family_get_handler,
  family_create_handler, family_update_handler, family_delete_handler, family_root_handler,
  family_dispatch_handler,
}
use mingyue_go.Share.Manager.Known.{create_known}
use mingyue_go.Api.Router.Keeps.{
  Keeps, keeps, holds, at_each, Condition, Always, with_role-Keeps, by_method-Keeps, choose-Keeps,
  require_text-Keeps, parsed-Keeps,
}
use mingyue_go.Api.Dispatch.{get_method, post_method, put_method, delete_method, resolved}
use mingyue_go.Errors.{GoError, ok, err}
use mingyue_go.Errors.Laws.{Result-cases}

-- The invariant is kept, and so is each share that is not of the family.
abbrev pub IsSpared : {T : Type 0} → (T → View) → (T → Type 0) → Family → T → T → Type 0
IsSpared view Inv family s s' =
    Inv s'
    × ((k : Text) (y : Share)
        → view s k ≡ some y
        → family.is_kind y.kind ≡ false
        → view s' k ≡ some y)

module _ {W T : Type 0} (env : Env W T) (view : T → View) (Inv : T → Type 0)
    (law : IsBackend env.backend view Inv) (family : Family) where
  abbrev Spares : HttpRequest → Option Role → System W T → Reply Payload × System W T → Type 0
  Spares r role s q = Inv s.shares → IsSpared view Inv family s.shares q.1.shares

  spared :
      (r : HttpRequest) (role : Option Role) (s : System W T) (a : Reply Payload)
      → Spares r role s (a, s)
  spared r role s a inv = (inv, λ k y was other. was)

  create-IsSpared :
      (x : Share) (source : Text) (h : Service T)
      → Inv h.store
      → IsSpared view Inv family h.store (create env.backend x source h).1.store
  create-IsSpared x source h inv =
      elim (create-IsAtomic env.backend view Inv law source h x inv).0 [
        | inr (e, inv', same) ↦ (inv', λ k y was other. same k ∙ was)
        | inl (e, inv', same) ↦ (
          inv',
          λ k y was other. elim (Bool-cases (text_eq x.name k)) [
            | inr n ↦ same k ∙ rw n was
            | inl n ↦
                let known = ap (view h.store) ((text_eq_iff x.name k).0 n) ∙ was in
                ap (λ t. view t k) (create_known env.backend view Inv law x y source h inv known)
                ∙ was
          ],
        )
      ]

  update-IsSpared :
      (x old : Share) (source : Text) (h : Service T)
      → view h.store x.name ≡ some old
      → family.is_kind old.kind ≡ true
      → Inv h.store
      → IsSpared view Inv family h.store (update env.backend x source h).1.store
  update-IsSpared x old source h was ours inv =
      elim (update-IsAtomic env.backend view Inv law source h x inv) [
        | inr (e, inv', same) ↦ (inv', λ k y known other. same k ∙ known)
        | inl (e, inv', same) ↦ (
          inv',
          λ k y known other. elim (Bool-cases (text_eq x.name k)) [
            | inr n ↦ same k ∙ rw n known
            | inl n ↦ absurd (clash ((text_eq_iff x.name k).0 n) known other)
          ],
        )
      ]
    where
      clash :
          {k : Text} {y : Share}
          → x.name ≡ k
          → view h.store k ≡ some y
          → family.is_kind y.kind ≡ false
          → ⊥
      clash n known other = cc (n, known, other, was, ours)

  delete-IsSpared :
      (name : Text) (old : Share) (source : Text) (h : Service T)
      → view h.store name ≡ some old
      → family.is_kind old.kind ≡ true
      → Inv h.store
      → IsSpared view Inv family h.store (delete env.backend name source h).1.store
  delete-IsSpared name old source h was ours inv =
      elim (delete-IsAtomic env.backend view Inv law source h name inv) [
        | inr (e, inv', same) ↦ (inv', λ k y known other. same k ∙ known)
        | inl (e, inv', same) ↦ (
          inv',
          λ k y known other. elim (Bool-cases (text_eq name k)) [
            | inr n ↦ same k ∙ rw n known
            | inl n ↦ absurd (clash ((text_eq_iff name k).0 n) known other)
          ],
        )
      ]
    where
      clash :
          {k : Text} {y : Share}
          → name ≡ k
          → view h.store k ≡ some y
          → family.is_kind y.kind ≡ false
          → ⊥
      clash n known other = cc (n, known, other, was, ours)

  get_of_family_found :
      (name : Text) (s : System W T) (x : Share)
      → Inv s.shares
      → get_of_family env family name s ≡ ok x
      → (view s.shares name ≡ some x) × (family.is_kind x.kind ≡ true)
  unfolding get
  get_of_family_found name s x inv e = elim (Bool-cases (is_empty name)) [
    | inl n ↦ absurd (nowhere n)
    | inr n ↦ elim (Result-cases (env.backend.get name s.shares)) [
      | inr (z, g) ↦ absurd (failing n z g)
      | inl (y, g) ↦ elim (Bool-cases (family.is_kind y.kind)) [
        | inr w ↦ absurd (wrong n y g w)
        | inl w ↦
            let same : y ≡ x = found n y g w in
            ((law.get_known name y s.shares inv g).0 ∙ ap some same, rw (sym same) w)
      ]
    ]
  ]
    where
      nowhere : is_empty name ≡ true → ⊥
      nowhere n = ground (arith, n, e)

      failing : is_empty name ≡ false → (z : GoError) → env.backend.get name s.shares ≡ err z → ⊥
      failing n z g = ground (arith, n, g, e)

      wrong :
          is_empty name ≡ false
          → (y : Share) → env.backend.get name s.shares ≡ ok y
          → family.is_kind y.kind ≡ false
          → ⊥
      wrong n y g w = ground (arith, n, g, w, e)

      found :
          is_empty name ≡ false
          → (y : Share) → env.backend.get name s.shares ≡ ok y
          → family.is_kind y.kind ≡ true
          → y ≡ x
      found n y g w = ground (arith, n, g, w, e)

  -- What is known of a name once the check of the existing share has passed
  abbrev Knows : Text → HttpRequest → Option Role → System W T → Reply Payload × System W T → Type 0
  Knows name r role s q = (x : Share) → get_of_family env family name s ≡ ok x → Spares r role s q

  with_existing-Keeps :
      (C : Condition) (next : Text → ApiHandler W T)
      → ((name : Text) → Keeps (Knows name) C (next name))
      → Keeps Spares C (with_existing env family next)
  unfolding resolved
  with_existing-Keeps C next k = require_text-Keeps Spares spared C _ _ _ (λ name.
      keeps (λ r role s c. elim (Result-cases (get_of_family env family name s)) [
        | inr (z, e) ↦ rw (e, resolved) (spared r role s aborted)
        | inl (x, e) ↦ rw (e, resolved) (holds (Knows name) (k name) r role s c x e)
      ]))

  family_update-Keeps : (C : Condition) → Keeps Spares C (family_update_handler env family)
  unfolding family_update_handler
  family_update-Keeps C = with_role-Keeps Spares spared C _ _ _ (
      with_existing-Keeps _ _ (λ name.
        parsed-Keeps (Knows name) (λ r role s a x e. spared r role s a) _ _ _ _
          (λ y. keeps (λ r role s c x e inv.
            let (was, ours) = get_of_family_found name s x inv e in
            update-IsSpared (record y { name = name; kind = family.kind }) x r.remote_addr
              (service s) was ours inv))))

  family_delete-Keeps : (C : Condition) → Keeps Spares C (family_delete_handler env family)
  unfolding family_delete_handler
  family_delete-Keeps C = with_role-Keeps Spares spared C _ _ _ (
      with_existing-Keeps _ _ (λ name. keeps (λ r role s c x e inv.
        let (was, ours) = get_of_family_found name s x inv e in
        delete-IsSpared name x r.remote_addr (service s) was ours inv)))

  family_create-Keeps : (C : Condition) → Keeps Spares C (family_create_handler env family)
  unfolding family_create_handler
  family_create-Keeps C = with_role-Keeps Spares spared C _ _ _ (
      parsed-Keeps Spares spared _ _ _ _ (λ y. keeps (λ r role s c inv.
        create-IsSpared (record y { kind = family.kind }) r.remote_addr (service s) inv)))

  family_root-Keeps : Keeps Spares Always (family_root_handler env family)
  unfolding family_root_handler family_list_handler
  family_root-Keeps =
      by_method-Keeps Spares spared Always
        ((get_method, family_list_handler env family)
          ∷ (post_method, family_create_handler env family)
          ∷ [])
        (keeps (λ r role s c. spared r role s aborted), (family_create-Keeps _, tt))

  family_dispatch-Keeps : Keeps Spares Always (family_dispatch_handler env family)
  unfolding family_dispatch_handler family_get_handler
  family_dispatch-Keeps = at_each Spares Always _ (λ r.
      choose-Keeps Spares spared Always _ _ _ (keeps (λ r role s c. spared r role s aborted)) (
        by_method-Keeps Spares spared Always
          ((get_method, family_get_handler env family)
            ∷ (put_method, family_update_handler env family)
            ∷ (delete_method, family_delete_handler env family)
            ∷ [])
          (
            require_text-Keeps Spares spared _ _ _ _
                (λ name. keeps (λ r role s c. spared r role s aborted)),
            (family_update-Keeps _, (family_delete-Keeps _, tt)),
          )))

-- Over any backend with the laws of IsBackend, in a state that satisfies its invariant, no request
-- to the SMB share handlers changes or takes away a share that is not of type smb, and none to the
-- NFS export handlers one that is not of type nfs: each share of another type that was there is
-- there as it was.
pub family_handlers-IsSpared :
    {W T : Type 0} (env : Env W T) (view : T → View) (Inv : T → Type 0)
    → IsBackend env.backend view Inv
    → (family : Family) (r : HttpRequest) (role : Option Role) (s : System W T) → Inv s.shares
    → IsSpared view Inv family s.shares (family_root_handler env family r role s).1.shares
      × IsSpared view Inv family s.shares (family_dispatch_handler env family r role s).1.shares
family_handlers-IsSpared env view Inv law family r role s inv = (
  holds (Spares env view Inv law family) (family_root-Keeps env view Inv law family) r role s tt
      inv,
  holds (Spares env view Inv law family) (family_dispatch-Keeps env view Inv law family) r role s tt
      inv,
)
