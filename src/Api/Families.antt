-- ===== src/Api/Families.antt =====
-- The share handlers of internal/api/smb.go and internal/api/nfs.go.
use mingyue_go.Base.{
  Bool, List, String, Text, [], contains_rune, cut_prefix, if◌then◌else◌, select, ◌∷◌,
}
use mingyue_go.Errors.{app, not_found, lit, Result, ok, err}
use mingyue_go.Auth.{operator}
use mingyue_go.Share.{Share, ShareType, smb, nfs, is_smb, is_nfs}
use mingyue_go.Share.Manager.{list, get, create, update, delete}
use mingyue_go.Api.System.{
  Env, Payload, share_list, export_list, share, ApiHandler, on_shares, service, System,
}
use mingyue_go.Api.Dispatch.{
  choose, resolved, with_role, by_method, answer, confirm, page_not_found, operator_required,
  get_method, post_method, put_method, delete_method,
}
use mingyue_go.Api.Paths.{
  smb_share_prefix, nfs_export_prefix, smb_share_name_from_path, nfs_export_name_from_path,
}
use mingyue_go.Api.Shares.{with_name, with_share}

-- What distinguishes the handlers of smb.go from those of nfs.go.
pub record Family : Type 0 where
  pub kind : ShareType
  pub is_kind : ShareType → Bool
  pub prefix : Text
  pub name_of : Text → Text
  pub required : String
  pub missing : String
  pub listing : List Share → Payload

abbrev pub smb_family : Family
smb_family = record {
  kind = smb;
  is_kind = is_smb;
  prefix = smb_share_prefix;
  name_of = smb_share_name_from_path;
  required = "share name is required";
  missing = "SMB share not found";
  listing = share_list;
}

abbrev pub nfs_family : Family
nfs_family = record {
  kind = nfs;
  is_kind = is_nfs;
  prefix = nfs_export_prefix;
  name_of = nfs_export_name_from_path;
  required = "export name is required";
  missing = "NFS export not found";
  listing = export_list;
}

module _ {W T : Type 0} (env : Env W T) (family : Family) where
  -- The loop of smbShareListHandler and nfsExportListHandler
  abbrev pub of_family : List Share → List Share
  of_family shares = select (λ x. family.is_kind x.kind) shares

  -- smbShareListHandler, nfsExportListHandler
  unfoldable pub family_list_handler : ApiHandler W T
  family_list_handler r role s =
      (answer (λ shares. family.listing (of_family shares)) (list env.backend (service s)), s)

  -- mgr.Get, with a share of the other type reported as missing
  abbrev pub get_of_family : Text → System W T → Result Share
  get_of_family name s = elim (get env.backend name (service s)) [
    | err e ↦ err e
    | ok x ↦ if family.is_kind x.kind then ok x else err (app not_found (lit family.missing ∷ []))
  ]

  -- smbShareGetHandler, nfsExportGetHandler
  unfoldable pub family_get_handler : ApiHandler W T
  family_get_handler =
      with_name env family.name_of family.required
        (λ name r role s. (answer share (get_of_family name s), s))

  -- smbShareCreateHandler, nfsExportCreateHandler
  unfoldable pub family_create_handler : ApiHandler W T
  family_create_handler = with_role operator operator_required (
      with_share env (λ x r role s.
        confirm 201
          (on_shares (create env.backend (record x { kind = family.kind }) r.remote_addr) s)))

  -- The check of the existing share before it is changed
  abbrev pub with_existing : (Text → ApiHandler W T) → ApiHandler W T
  with_existing next =
      with_name env family.name_of family.required
        (λ name. resolved (λ r. get_of_family name) (λ existing. next name))

  -- smbShareUpdateHandler, nfsExportUpdateHandler
  unfoldable pub family_update_handler : ApiHandler W T
  family_update_handler = with_role operator operator_required (
      with_existing (λ name. with_share env (λ x r role s. confirm 204 (
        on_shares (update env.backend (record x { name = name; kind = family.kind }) r.remote_addr)
          s))))

  -- smbShareDeleteHandler, nfsExportDeleteHandler
  unfoldable pub family_delete_handler : ApiHandler W T
  family_delete_handler = with_role operator operator_required (
      with_existing
        (λ name r role s. confirm 204 (on_shares (delete env.backend name r.remote_addr) s)))

  -- smbShareRootHandler, nfsExportRootHandler
  unfoldable pub family_root_handler : ApiHandler W T
  family_root_handler =
      by_method ((get_method, family_list_handler) ∷ (post_method, family_create_handler) ∷ [])

  -- smbShareDispatchHandler, nfsExportDispatchHandler; the mux calls them for paths with their
  -- prefix only.
  unfoldable pub family_dispatch_handler : ApiHandler W T
  family_dispatch_handler r role s =
      choose (contains_rune (cut_prefix r.path family.prefix) b'/')
        (λ r role s. (page_not_found, s))
        (by_method (
          (get_method, family_get_handler)
          ∷ (put_method, family_update_handler)
          ∷ (delete_method, family_delete_handler)
          ∷ []))
        r role s

-- The handlers of internal/api/smb.go and of internal/api/nfs.go
module _ {W T : Type 0} (env : Env W T) where
  -- smbShareListHandler
  abbrev pub smb_share_list_handler : ApiHandler W T
  smb_share_list_handler = family_list_handler env smb_family

  -- nfsExportListHandler
  abbrev pub nfs_export_list_handler : ApiHandler W T
  nfs_export_list_handler = family_list_handler env nfs_family

  -- smbShareGetHandler
  abbrev pub smb_share_get_handler : ApiHandler W T
  smb_share_get_handler = family_get_handler env smb_family

  -- nfsExportGetHandler
  abbrev pub nfs_export_get_handler : ApiHandler W T
  nfs_export_get_handler = family_get_handler env nfs_family

  -- smbShareCreateHandler
  abbrev pub smb_share_create_handler : ApiHandler W T
  smb_share_create_handler = family_create_handler env smb_family

  -- nfsExportCreateHandler
  abbrev pub nfs_export_create_handler : ApiHandler W T
  nfs_export_create_handler = family_create_handler env nfs_family

  -- smbShareUpdateHandler
  abbrev pub smb_share_update_handler : ApiHandler W T
  smb_share_update_handler = family_update_handler env smb_family

  -- nfsExportUpdateHandler
  abbrev pub nfs_export_update_handler : ApiHandler W T
  nfs_export_update_handler = family_update_handler env nfs_family

  -- smbShareDeleteHandler
  abbrev pub smb_share_delete_handler : ApiHandler W T
  smb_share_delete_handler = family_delete_handler env smb_family

  -- nfsExportDeleteHandler
  abbrev pub nfs_export_delete_handler : ApiHandler W T
  nfs_export_delete_handler = family_delete_handler env nfs_family

  -- smbShareRootHandler
  abbrev pub smb_share_root_handler : ApiHandler W T
  smb_share_root_handler = family_root_handler env smb_family

  -- nfsExportRootHandler
  abbrev pub nfs_export_root_handler : ApiHandler W T
  nfs_export_root_handler = family_root_handler env nfs_family

  -- smbShareDispatchHandler
  abbrev pub smb_share_dispatch_handler : ApiHandler W T
  smb_share_dispatch_handler = family_dispatch_handler env smb_family

  -- nfsExportDispatchHandler
  abbrev pub nfs_export_dispatch_handler : ApiHandler W T
  nfs_export_dispatch_handler = family_dispatch_handler env nfs_family
