-- ===== src/Web/Edit/Committed.antt =====
-- What stands behind the page's word that a version is saved.
use dropbox_go_grpc_microser.Web.Save
use dropbox_go_grpc_microser.Web.Save.{save_edited_file}
