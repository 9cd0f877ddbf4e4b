-- ===== src/Server/Session.antt =====
-- engine/src/server/handler/mod.rs: `process_request`, with the state of its connection.
pub mod Tokens
pub mod Guard
use mathlib.Core.Option
use flashq.Prelude.{
  ℕ, String, Bool, true, false, not, ◌&&◌, Option, none, some, List, map, if◌then◌else◌,
}
use flashq.Result.{invalid_token, authentication_required}
use flashq.Auth
use flashq.Engine.{Engine}
use flashq.Server.Command.{Command, Request, auth_command}
use flashq.Server.Response.{Response, ResponseWithId, ok_response, error_response}
use flashq.Server.Outside.{Outside}
use flashq.Server.Handler.{process_command}

pub record ConnectionState : Type 0 where
  pub authenticated : Bool

-- `if let Command::Auth { token } = &command`
unfoldable pub auth_token : Command → Option String
auth_token (auth_command token) = some token
auth_token _ = none

module _ (outside : Outside) where
  unfoldable pub verify_token : Engine → String → Bool
  unfolding Auth.verify_token
  verify_token e token =
      Auth.verify_token (map outside.as_bytes e.auth_tokens) (outside.as_bytes token)

  unfoldable pub process_request :
      Engine
      → ConnectionState
      → Request
      → ℕ
      → List ℕ
      → Engine × ConnectionState × Option ResponseWithId
  unfolding auth_token verify_token process_command
  process_request e state request now wakes =
      let with_id : Response → ResponseWithId =
        λ r. record { req_id = request.req_id; response = r } in
      elim (auth_token request.command) [
        | some token ↦
            if verify_token e token
            then (e, record { authenticated = true }, some (with_id (ok_response none)))
            else (e, state, some (with_id (error_response invalid_token)))
        | none ↦
            if not (verify_token e "") && not state.authenticated
            then (e, state, some (with_id (error_response authentication_required)))
            else let (e', response) = process_command outside e request.command now wakes in
              (e', state, Option.map with_id response)
      ]
