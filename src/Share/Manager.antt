-- ===== src/Share/Manager.antt =====
-- The Manager of internal/service/share/manager.go over any backend.
pub mod Atomic
pub mod Creation
pub mod Known
use mingyue_go.Base.{List, Text, [], codes, if◌then◌else◌, is_empty, none, some, ◌∷◌}
use mingyue_go.Errors.{
  ErrorCode, GoError, app, wrapped, invalid_input, internal, lit, Message, Result, Status, ok, err,
  done, error_text,
}
use mingyue_go.Audit.{Journal, log_audit, success, failure}
use mingyue_go.Share.{Share, validate_share, error_code, wrap_backend_error, invalid}
use mingyue_go.Share.Backend.{Backend}

-- The backend's state and the audit log.
pub record Service (S : Type 0) : Type 0 where
  pub store : S
  pub journal : Journal

module _ {S : Type 0} (b : Backend S) where
  -- List
  unfoldable pub list : Service S → Result (List Share)
  list h = elim (b.list h.store) [
    | ok shares ↦ ok shares
    | err e ↦ err (wrapped internal (lit "failed to list shares" ∷ []) e)
  ]

  -- Get
  unfoldable pub get : Text → Service S → Result Share
  get name h =
      if is_empty name
      then err (app invalid_input (lit "share name must not be empty" ∷ []))
      else b.get name h.store

  -- The end of an operation: the new state, and one audit event.
  abbrev fail_with : Text → Text → Text → ErrorCode → GoError → S → Service S → Status × Service S
  fail_with source action target code e s h = (
    err e,
    record { store = s; journal = log_audit source action target failure (some code) h.journal },
  )

  abbrev succeed : Text → Text → Text → S → Service S → Status × Service S
  succeed source action target s h =
      (done, record { store = s; journal = log_audit source action target success none h.journal })

  -- The error after a failed reload, once the rollback was tried.
  abbrev reload_error : Message → GoError → Status → GoError
  reload_error rolled e (ok _) = wrapped internal rolled e
  reload_error rolled e (err r) =
      wrapped internal (lit "service reload failed; rollback also failed: " ∷ error_text r) e

  abbrev create_reload : Share → Text → Service S → Status × S → Status × Service S
  create_reload x source h (ok _, s) = succeed source (codes "share.create") x.name s h
  create_reload x source h (err e, s) =
      let back = b.delete x.name s in
      fail_with source (codes "share.create") x.name internal
        (reload_error (lit "service reload failed; share creation rolled back" ∷ []) e back.0)
        back.1 h

  abbrev create_store : Share → Text → Service S → Status × S → Status × Service S
  create_store x source h (ok _, s) = create_reload x source h (b.reload s)
  create_store x source h (err e, s) =
      fail_with source (codes "share.create") x.name (error_code e)
        (wrap_backend_error e (lit "failed to create share" ∷ [])) s h

  -- Create
  unfoldable pub create : Share → Text → Service S → Status × Service S
  create x source h = elim (validate_share x) [
    | err e ↦ fail_with source (codes "share.create") x.name invalid_input e h.store h
    | ok _ ↦ create_store x source h (b.create x h.store)
  ]

  abbrev update_reload : Share → Share → Text → Service S → Status × S → Status × Service S
  update_reload prev x source h (ok _, s) = succeed source (codes "share.update") x.name s h
  update_reload prev x source h (err e, s) =
      let back = b.update prev s in
      fail_with source (codes "share.update") x.name internal
        (reload_error (lit "service reload failed; share update rolled back" ∷ []) e back.0) back.1
        h

  abbrev update_store : Share → Share → Text → Service S → Status × S → Status × Service S
  update_store prev x source h (ok _, s) = update_reload prev x source h (b.reload s)
  update_store prev x source h (err e, s) =
      fail_with source (codes "share.update") x.name (error_code e)
        (wrap_backend_error e (lit "failed to update share" ∷ [])) s h

  -- Update: a name that is not there is reported without an audit event.
  unfoldable pub update : Share → Text → Service S → Status × Service S
  update x source h = elim (validate_share x) [
    | err e ↦ fail_with source (codes "share.update") x.name invalid_input e h.store h
    | ok _ ↦ elim (b.get x.name h.store) [
      | err e ↦ (err e, h)
      | ok prev ↦ update_store prev x source h (b.update x h.store)
    ]
  ]

  abbrev delete_reload : Share → Text → Text → Service S → Status × S → Status × Service S
  delete_reload prev name source h (ok _, s) = succeed source (codes "share.delete") name s h
  delete_reload prev name source h (err e, s) =
      let back = b.create prev s in
      fail_with source (codes "share.delete") name internal
        (reload_error (lit "service reload failed; share deletion rolled back" ∷ []) e back.0)
        back.1 h

  abbrev delete_store : Share → Text → Text → Service S → Status × S → Status × Service S
  delete_store prev name source h (ok _, s) = delete_reload prev name source h (b.reload s)
  delete_store prev name source h (err e, s) =
      fail_with source (codes "share.delete") name (error_code e)
        (wrap_backend_error e (lit "failed to delete share" ∷ [])) s h

  -- Delete
  unfoldable pub delete : Text → Text → Service S → Status × Service S
  delete name source h =
      if is_empty name
      then (invalid (lit "share name must not be empty" ∷ []), h)
      else elim (b.get name h.store) [
        | err e ↦ (err e, h)
        | ok prev ↦ delete_store prev name source h (b.delete name h.store)
      ]
