-- ===== src/Share/Manager/Creation.antt =====
-- Create of internal/service/share/manager.go: when it succeeds, and the view of the shares after it.
use mingyue_go.Base.{Option-cases, Text, arith, inl, inr, none, ◌↔◌, ◌≡◌}
use mingyue_go.Errors.{done}
use mingyue_go.Errors.Laws.{Result-cases}
use mingyue_go.Share.{Share, validate_share}
use mingyue_go.Share.Backend.{Backend, View, put, IsBackend}
use mingyue_go.Share.Manager.{Service, create}
use mingyue_go.Share.Manager.Atomic.{IsAtomic, create_all_or_nothing}

module _ {S : Type 0} (b : Backend S) (view : S → View) (Inv : S → Type 0)
    (law : IsBackend b view Inv) (source : Text) (h : Service S) where
  -- What Create needs to succeed.
  abbrev pub CanCreate : Share → Type 0
  CanCreate x =
      (validate_share x ≡ done)
      × (view h.store x.name ≡ none)
      × ((b.reload (b.create x h.store).1).0 ≡ done)

  created-CanCreate : (x : Share) → Inv h.store → (create b x source h).0 ≡ done → CanCreate x
  unfolding create
  created-CanCreate x inv e = elim (Option-cases (view h.store x.name)) [
    | inl free ↦
        let (taken, _, _) = law.create_new x h.store inv free in
        ground (
          arith,
          Result-cases (validate_share x),
          taken,
          Result-cases (b.reload (b.create x h.store).1).0,
        )
    | inr (y, known) ↦
        let ((d, refused), _) = law.create_known x y h.store inv known in
        ground (arith, Result-cases (validate_share x), refused)
  ]

  CanCreate-created : (x : Share) → Inv h.store → CanCreate x → (create b x source h).0 ≡ done
  unfolding create
  CanCreate-created x inv (valid, free, told) =
      let (taken, _, _) = law.create_new x h.store inv free in ground (arith, valid, taken, told)

  -- Over any backend with the laws of IsBackend, in a state that satisfies its invariant, Create
  -- adds the share and returns success, or returns an error and leaves every share as it was; and it
  -- succeeds exactly where the share is valid, its name is free and the reload after it succeeds.
  pub create-IsAtomic :
      (x : Share)
      → Inv h.store
      → IsAtomic view Inv (view h.store) (put x (view h.store)) (create b x source h)
        × (((create b x source h).0 ≡ done) ↔ CanCreate x)
  create-IsAtomic x inv = (
    create_all_or_nothing b view Inv law source h x inv,
    (created-CanCreate x inv, CanCreate-created x inv),
  )
