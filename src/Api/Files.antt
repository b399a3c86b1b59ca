-- ===== src/Api/Files.antt =====
-- internal/api/file.go, and fileRootHandler of internal/api/router.go.
use mingyue_go.Base.{
  Bool, Option, Text, [], codes, cut_prefix, if◌then◌else◌, is_empty, not, some, text_eq, ◌||◌, ◌∷◌,
}
use mingyue_go.Auth.{operator}
use mingyue_go.File.Ops.{mkdir, remove_path, move, copy, write}
use mingyue_go.File.Queries.{list_dir, stat, read}
use mingyue_go.Api.System.{
  Env, file_list, file_entry, file_content, FileRequest, MoveRequest, ApiHandler, on_files,
}
use mingyue_go.Api.Dispatch.{
  reject_if, choose, require_text, parsed, only, with_role, by_method, answer, confirm,
  not_found_text, operator_required, get_method, post_method, put_method, delete_method,
}

module _ {W T : Type 0} (env : Env W T) where
  -- r.URL.Query().Get("path"), which is required
  abbrev with_path : (Text → ApiHandler W T) → ApiHandler W T
  with_path = require_text (λ r. r.query (codes "path")) "path query parameter is required"

  -- fileListHandler
  unfoldable pub file_list_handler : ApiHandler W T
  file_list_handler =
      only get_method (
        with_path (λ path r role s. (answer (file_list path) (list_dir env.files path s.world), s)))

  -- fileStatHandler
  unfoldable pub file_stat_handler : ApiHandler W T
  file_stat_handler =
      only get_method
        (with_path (λ path r role s. (answer file_entry (stat env.files path s.world), s)))

  -- fileReadHandler
  unfoldable pub file_read_handler : ApiHandler W T
  file_read_handler = only get_method (
      with_path (λ path r role s. (
        answer (λ content. file_content path (env.codecs.encode_base64 content))
            (read env.files path s.world),
        s,
      )))

  abbrev is_file_type : Text → Bool
  is_file_type kind = text_eq kind (codes "file") || text_eq kind (codes "dir") || is_empty kind

  -- The bytes of the field "content"
  abbrev content_of : FileRequest → Option Text
  content_of req = if is_empty req.content then some [] else env.codecs.decode_base64 req.content

  abbrev write_request : FileRequest → ApiHandler W T
  write_request req = reject_if (is_empty req.path) "path is required" (
      reject_if (not (is_file_type req.kind))
        "type must be \"file\" or \"dir\" (empty defaults to \"file\")"
        (choose (text_eq req.kind (codes "dir"))
          (λ r role s. confirm 201 (on_files (mkdir env.files req.path r.remote_addr) s))
          (parsed (λ r. content_of req) "content must be base64-encoded"
            (λ content r role s.
              confirm 201 (on_files (write env.files req.path content r.remote_addr) s)))))

  -- fileWriteHandler
  unfoldable pub file_write_handler : ApiHandler W T
  file_write_handler = only post_method (
      with_role operator operator_required
        (parsed (λ r. env.codecs.decode_file r.body) "invalid JSON body" write_request))

  -- fileDeleteHandler
  unfoldable pub file_delete_handler : ApiHandler W T
  file_delete_handler = only delete_method (
      with_role operator operator_required (
        with_path (λ path r role s. confirm 204 (
          on_files
            (remove_path env.files path (text_eq (r.query (codes "recursive")) (codes "true"))
              r.remote_addr)
            s))))

  abbrev with_src_dst : (MoveRequest → ApiHandler W T) → ApiHandler W T
  with_src_dst next =
      parsed (λ r. env.codecs.decode_move r.body) "invalid JSON body"
        (λ req.
          reject_if (is_empty req.src || is_empty req.dst) "src and dst are required" (next req))

  -- fileMoveHandler
  unfoldable pub file_move_handler : ApiHandler W T
  file_move_handler = only put_method (
      with_role operator operator_required (
        with_src_dst (λ req r role s.
          confirm 204 (on_files (move env.files req.src req.dst r.remote_addr) s))))

  -- fileCopyHandler
  unfoldable pub file_copy_handler : ApiHandler W T
  file_copy_handler = only put_method (
      with_role operator operator_required (
        with_src_dst (λ req r role s.
          confirm 204 (on_files (copy env.files req.src req.dst r.remote_addr) s))))

  -- The handler of a path below /api/v1/files/
  abbrev pub sub_handler : Text → ApiHandler W T
  sub_handler sub = choose (text_eq sub (codes "stat")) file_stat_handler (
      choose (text_eq sub (codes "move")) file_move_handler (
        choose (text_eq sub (codes "copy")) file_copy_handler (
          choose (text_eq sub (codes "read")) file_read_handler (λ r role s. (not_found_text, s)))))

  -- fileDispatchHandler; the mux calls it for paths with its prefix only.
  unfoldable pub file_dispatch_handler : ApiHandler W T
  file_dispatch_handler r = sub_handler (cut_prefix r.path (codes "/api/v1/files/")) r

  -- fileRootHandler
  unfoldable pub file_root_handler : ApiHandler W T
  file_root_handler = by_method (
      (get_method, file_list_handler)
      ∷ (post_method, file_write_handler)
      ∷ (delete_method, file_delete_handler)
      ∷ [])
