-- ===== src/Api/Routes.antt =====
-- startAPIServer of server.go: which handler a path has. The mux answers 404 on any other path.
use peer_store.Prelude.{ℕ, if◌then◌else◌, Bytes, text, bytes_eq}
use peer_store.Result.{Exec, Result, ok, err}
use peer_store.Host.{Host}
use peer_store.Server.{Server}
use peer_store.Node.{World}
use peer_store.Api.{
  Request, Reply, Status, handle_api_store, handle_api_retrieve, handle_api_delete,
  handle_api_status,
}

pub data Answer : Type 0 where
  replied : Reply → Answer
  reported : Status → Answer
  not_found : Answer

abbrev answered : Result Reply × Server → Result Answer × Server
answered (r, s) = (elim r [ ok reply ↦ ok (replied reply) | err e ↦ err e ], s)

unfoldable pub serve_api : Host → World → ℕ → Bytes → Bytes → Request → Exec Server Answer
serve_api h w fuel architecture path r s =
    if bytes_eq path (text "/api/store")
    then answered (handle_api_store h w fuel architecture r s)
    else if bytes_eq path (text "/api/retrieve")
    then answered (handle_api_retrieve h w fuel architecture r s)
    else if bytes_eq path (text "/api/delete")
    then answered (handle_api_delete h w fuel architecture r s)
    else if bytes_eq path (text "/api/status")
    then (ok (reported (handle_api_status architecture r.method s)), s)
    else (ok not_found, s)
