-- ===== src/Api/Managing.antt =====
-- What the requests about backends to pkg/service/api/server.go do to the pool.
use melange.Prelude.{
  ◌≡◌, refl, ◌⊎◌, inl, inr, ◌≤◌, ◌<◌, String, arith, Result-cases, Bool-cases, ◌==◌, string_eq,
}
use melange.Pool.{PoolError, add, remove}
use melange.Pool.Invariant.{IsPool, add-IsPool, remove-IsPool}
use melange.Api.Defs.{Server, Response, Method, Decoded, decoded, too_large, malformed}
use melange.Api.Backends.{
  AddBackendRequest, RemoveBackendRequest, new_backend, add_code, remove_code, handle_add_backend,
  handle_remove_backend, handle_backends,
}

-- A response to a request that changes the server from `s`: an error leaves the server as it is, and a
-- success keeps the builds and a well-formed pool.
abbrev pub Manages : Server → Response × Server → Type 0
Manages s (r, t) =
    ((400 ≤ r.code) × (t ≡ s)) ⊎ ((r.code < 400) × (t.build_store ≡ s.build_store) × IsPool t.pool)

add_code-le : (e : PoolError) → 400 ≤ add_code e
unfolding add_code
add_code-le e = ground arith

remove_code-le : (e : PoolError) → 400 ≤ remove_code e
unfolding remove_code
remove_code-le e = ground arith

handle_add_backend-Manages :
    (s : Server) (body : Decoded AddBackendRequest)
    → IsPool s.pool
    → Manages s (handle_add_backend s body)
unfolding handle_add_backend
handle_add_backend-Manages s too_large v = inl (omega arith, refl)
handle_add_backend-Manages s (malformed e) v = inl (omega arith, refl)
handle_add_backend-Manages s (decoded req) v = elim (Result-cases (add s.pool (new_backend req))) [
  | inl (e, failed) ↦ rw (failed, handle_add_backend) (inl (add_code-le e, refl))
  | inr (p, added) ↦
      rw (added, handle_add_backend)
        (inr (omega arith, refl, add-IsPool s.pool p (new_backend req) v added))
]

handle_remove_backend-Manages :
    (s : Server) (body : Decoded RemoveBackendRequest)
    → IsPool s.pool
    → Manages s (handle_remove_backend s body)
unfolding handle_remove_backend
handle_remove_backend-Manages s too_large v = inl (omega arith, refl)
handle_remove_backend-Manages s (malformed e) v = inl (omega arith, refl)
handle_remove_backend-Manages s (decoded req) v = elim (Bool-cases (req.addr == "")) [
  | inl unnamed ↦ rw (unnamed, handle_remove_backend) (inl (omega arith, refl))
  | inr named ↦ elim (Result-cases (remove s.pool req.addr)) [
    | inl (e, failed) ↦ rw (named, failed, handle_remove_backend) (inl (remove_code-le e, refl))
    | inr (p, removed) ↦
        rw (named, removed, handle_remove_backend)
          (inr (omega arith, refl, remove-IsPool s.pool p req.addr v removed))
  ]
]

-- A request about backends to a server whose pool is well formed either fails, with an error code and
-- the server as it was, or succeeds and keeps the builds and a well-formed pool.
pub handle_backends-Manages :
    (s : Server) (method : Method) (arch : String) (a : Decoded AddBackendRequest)
    (r : Decoded RemoveBackendRequest)
    → IsPool s.pool
    → Manages s (handle_backends s method arch a r)
unfolding handle_backends
handle_backends-Manages s Method.get arch a r v = inr (omega arith, refl, v)
handle_backends-Manages s Method.post arch a r v = handle_add_backend-Manages s a v
handle_backends-Manages s Method.delete arch a r v = handle_remove_backend-Manages s r v
handle_backends-Manages s (Method.other m) arch a r v = inl (omega arith, refl)
