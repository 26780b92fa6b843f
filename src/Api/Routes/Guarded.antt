-- ===== src/Api/Routes/Guarded.antt =====
-- Which requests need a valid token, and what happens to them without one.
use aigis_zero.Api.Auth.{Claims, Headers, decoded, bearer, header, from_request_parts}
use aigis_zero.Api.Errors.{AppError, status_code, error_code, error_text}
use aigis_zero.Api.Routes.{
  login_request, me_request, nodes_request, node_request, isolate_request, unisolate_request,
  alerts_request, alert_request, status_request, logs_request, log_request, Request, auth, nodes,
  alerts, logs, ws, health, ready, Response, answered, failure, State, Meets, guard, serve,
  auth_handler, node_handler, alert_handler, log_handler,
}
use aigis_zero.Api.Settings.{Settings}
use aigis_zero.Engine.Models.{Uuid}
use aigis_zero.Prelude.{
  String, Bool, true, false, Option, none, some, Result, ok, err, ◌≡◌, refl, arith, strip_prefix,
  trim, lookup,
}

-- The requests that are served to everyone: a login, the state of the service, and the socket.
abbrev pub is_open : Request → Bool
is_open (auth (login_request req)) = true
is_open (auth me_request) = false
is_open (nodes r) = false
is_open (alerts r) = false
is_open (logs r) = false
is_open (ws topics node_id) = true
is_open health = true
is_open ready = true

module _ (decode : String → String → Result String Claims) (config : Settings) where
  -- Whatever keeps a request out is answered with 401.
  decoded_refuses :
      (r : Result String Claims) (e : AppError) → decoded decode r ≡ err e → status_code e ≡ 401
  unfolding status_code
  decoded_refuses (ok claims) e h = cc
  decoded_refuses (err m) e h = ground arith

  bearer_refuses :
      (o : Option String) (e : AppError) → bearer decode config o ≡ err e → status_code e ≡ 401
  unfolding status_code
  bearer_refuses none e h = ground arith
  bearer_refuses (some s) e h = decoded_refuses (decode config.jwt_secret (trim s)) e h

  header_refuses :
      (o : Option (Option String)) (e : AppError)
      → header decode config o ≡ err e
      → status_code e ≡ 401
  unfolding status_code
  header_refuses none e h = ground arith
  header_refuses (some none) e h = ground arith
  header_refuses (some (some s)) e h = bearer_refuses (strip_prefix "Bearer " s) e h

  from_request_parts_refuses :
      (headers : Headers) (e : AppError)
      → from_request_parts decode config headers ≡ err e
      → status_code e ≡ 401
  unfolding from_request_parts
  from_request_parts_refuses headers e h = header_refuses (lookup "authorization" headers) e h

module _ (verify_password : String → String → Bool)
    (encode : Claims → String → Result String String)
    (decode : String → String → Result String Claims) (ilike : String → String → Bool)
    (show : Uuid → String) (config : Settings) where
  -- The answer to a request that is kept out.
  abbrev pub kept_out : AppError → Response
  kept_out e = answered 401 (failure (error_code e) (error_text e))

  guard-refused :
      (headers : Headers) (e : AppError) (handler : Claims → State × Response) (s : State)
      → from_request_parts decode config headers ≡ err e
      → guard verify_password encode decode ilike show config headers handler s ≡ (s, kept_out e)
  guard-refused headers e handler s h =
      rw (h, from_request_parts_refuses decode config headers e h) refl

  -- A request other than a login, a look at the health or the readiness, or a subscription over the
  -- socket: if its headers hold no token that decodes, nothing is read, changed or commanded, and
  -- the answer is 401 with the reason.
  pub serve-refused :
      (m : Meets) (headers : Headers) (r : Request) (s : State) (e : AppError)
      → is_open r ≡ false
      → from_request_parts decode config headers ≡ err e
      → serve verify_password encode decode ilike show config m headers r s ≡ (s, kept_out e)
  unfolding serve auth_handler node_handler alert_handler log_handler
  serve-refused m headers (auth (login_request req)) s e h k = cc
  serve-refused m headers (auth me_request) s e h k = guard-refused headers e _ s k
  serve-refused m headers (nodes (nodes_request params)) s e h k = guard-refused headers e _ s k
  serve-refused m headers (nodes (node_request id)) s e h k = guard-refused headers e _ s k
  serve-refused m headers (nodes (isolate_request id reason)) s e h k =
      guard-refused headers e _ s k
  serve-refused m headers (nodes (unisolate_request id)) s e h k = guard-refused headers e _ s k
  serve-refused m headers (alerts (alerts_request params)) s e h k = guard-refused headers e _ s k
  serve-refused m headers (alerts (alert_request id)) s e h k = guard-refused headers e _ s k
  serve-refused m headers (alerts (status_request id req)) s e h k = guard-refused headers e _ s k
  serve-refused m headers (logs (logs_request params)) s e h k = guard-refused headers e _ s k
  serve-refused m headers (logs (log_request id)) s e h k = guard-refused headers e _ s k
  serve-refused m headers (ws topics node_id) s e h k = cc
  serve-refused m headers health s e h k = cc
  serve-refused m headers ready s e h k = cc
