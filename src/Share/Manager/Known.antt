-- ===== src/Share/Manager/Known.antt =====
-- Create of internal/service/share/manager.go for a name that is in use.
use mingyue_go.Base.{Text, inl, inr, refl, some, sym, ◌≡◌}
use mathlib.Core.Path.{subst}
use mingyue_go.Errors.Laws.{Result-cases}
use mingyue_go.Share.{Share, validate_share}
use mingyue_go.Share.Backend.{Backend, View, IsBackend}
use mingyue_go.Share.Manager.{Service, create, create_store}

module _ {S : Type 0} (b : Backend S) (view : S → View) (Inv : S → Type 0)
    (law : IsBackend b view Inv) where
  pub create_known :
      (x y : Share) (source : Text) (h : Service S)
      → Inv h.store
      → view h.store x.name ≡ some y
      → (create b x source h).1.store ≡ h.store
  unfolding create
  create_known x y source h inv was = elim (Result-cases (validate_share x)) [
    | inr (e, v) ↦ rw (v, create) refl
    | inl (u, v) ↦
        let ((e, failed), stays) = law.create_known x y h.store inv was in
        rw (v, create)
          (subst (λ q. (create_store b x source h (q, (b.create x h.store).1)).1.store ≡ h.store)
            (sym failed) stays)
  ]
