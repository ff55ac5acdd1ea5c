-- ===== src/Api/Backends.antt =====
-- The handlers for backends.
use melange.Prelude.{ℕ, Option, String, ok, err, if◌then◌else◌, ◌==◌, string_eq}
use melange.Prelude.Int.{pos}
use melange.Prelude.Maps.{Dict}
use melange.Pool.{
  PoolError, Backend, backend_already_exists, backend_not_found, list_backends, list_by_arch,
  architectures, add, remove, status,
}
use melange.Api.Defs.{
  Server, Response, Body, Problem, Method, Decoded, decoded, too_large, malformed, fails, answers,
}

pub record AddBackendRequest : Type 0 where
  pub addr : String
  pub arch : String
  pub labels : Option (Dict String)

pub record RemoveBackendRequest : Type 0 where
  pub addr : String

unfoldable pub handle_health : Response
handle_health = answers Body.health

unfoldable pub handle_list_backends : Server → String → Response
unfolding list_by_arch list_backends architectures
handle_list_backends s arch =
    let backends = if arch == "" then list_backends s.pool else list_by_arch s.pool arch in
    answers (Body.backend_list backends (architectures s.pool))

unfoldable pub new_backend : AddBackendRequest → Backend
new_backend req = record { addr = req.addr; arch = req.arch; labels = req.labels; max_jobs = pos 0 }

-- `errors.Is` with the error for a backend that exists, and for one that does not.
unfoldable pub add_code : PoolError → ℕ
add_code (backend_already_exists addr) = 409
add_code _ = 400

unfoldable pub remove_code : PoolError → ℕ
remove_code (backend_not_found addr) = 404
remove_code _ = 400

-- `too_large` is an error like any other here, since only the creation of a build limits the body.
unfoldable pub handle_add_backend : Server → Decoded AddBackendRequest → Response × Server
unfolding add new_backend add_code
handle_add_backend s (malformed e) = (fails 400 (Problem.invalid_body e), s)
handle_add_backend s too_large = (fails 400 Problem.body_too_large, s)
handle_add_backend s (decoded req) = elim (add s.pool (new_backend req)) [
  | ok p ↦ (record { code = 201; body = Body.one_backend (new_backend req) }, record s { pool = p })
  | err e ↦ (fails (add_code e) (Problem.pool_problem e), s)
]

unfoldable pub handle_remove_backend : Server → Decoded RemoveBackendRequest → Response × Server
unfolding remove remove_code
handle_remove_backend s (malformed e) = (fails 400 (Problem.invalid_body e), s)
handle_remove_backend s too_large = (fails 400 Problem.body_too_large, s)
handle_remove_backend s (decoded req) =
    if req.addr == "" then (fails 400 Problem.addr_required, s) else elim (remove s.pool req.addr) [
      | ok p ↦ (record { code = 204; body = Body.nothing }, record s { pool = p })
      | err e ↦ (fails (remove_code e) (Problem.pool_problem e), s)
    ]

unfoldable pub handle_backends :
    Server
    → Method
    → String
    → Decoded AddBackendRequest
    → Decoded RemoveBackendRequest
    → Response × Server
unfolding handle_list_backends handle_add_backend handle_remove_backend
handle_backends s Method.get arch a r = (handle_list_backends s arch, s)
handle_backends s Method.post arch a r = handle_add_backend s a
handle_backends s Method.delete arch a r = handle_remove_backend s r
handle_backends s (Method.other m) arch a r = (fails 405 Problem.method_not_allowed, s)

unfoldable pub handle_backends_status : Server → Method → Response
unfolding status
handle_backends_status s Method.get = answers (Body.statuses (status s.pool))
handle_backends_status s _ = fails 405 Problem.method_not_allowed
