-- ===== src/Server/Session/Guard.antt =====
-- engine/src/server/handler/mod.rs: a connection that has shown no token is refused.
use flashq.Prelude.{
  ℕ, String, ◌≡◌, refl, sym, subst, false, not, ◌&&◌, Bool-cases, All, Option-cases, inl, inr,
  Option, none, some, List, [], ◌∷◌, map,
}
use flashq.Result.{Error, invalid_token, authentication_required}
use flashq.Auth
use flashq.Engine.{Engine}
use flashq.Server.Command.{Request}
use flashq.Server.Response.{ResponseWithId, error_response}
use flashq.Server.Outside.{Outside}
use flashq.Server.Session.{ConnectionState, auth_token, verify_token, process_request}
use flashq.Server.Session.Tokens.{process_command-auth_tokens}

pub record Event : Type 0 where
  pub request : Request
  pub now : ℕ
  pub wakes : List ℕ

-- A request of the connection in question, or of another one in the state given.
pub data Origin : Type 0 where
  ours : Event → Origin
  theirs : ConnectionState → Event → Origin

-- Requests of a connection and of others as the server takes them one after the other: what is left
-- of the engine and of the connection's own state, and the answers to it.
unfoldable pub serve :
    Outside
    → Engine
    → ConnectionState
    → List Origin
    → Engine × ConnectionState × List (Option ResponseWithId)
serve o e own [] = (e, own, [])
serve o e own (ours v ∷ rest) =
    let (e', own', answer) = process_request o e own v.request v.now v.wakes in
    let (e'', own'', answers) = serve o e' own' rest in (e'', own'', answer ∷ answers)
serve o e own (theirs w v ∷ rest) =
    let (e', _, _) = process_request o e w v.request v.now v.wakes in serve o e' own rest

-- The other connections' requests alone.
unfoldable pub others : List Origin → List Origin
others [] = []
others (ours v ∷ rest) = others rest
others (theirs w v ∷ rest) = theirs w v ∷ others rest

abbrev pub IsError : Option ResponseWithId → Type 0
IsError none = ⊥
IsError (some r) = (x : Error) × (r.response ≡ error_response x)

abbrev pub Rejected : Outside → List String → String → Type 0
Rejected o tokens token = Auth.verify_token (map o.as_bytes tokens) (o.as_bytes token) ≡ false

-- Every token that the connection itself sends is wrong.
abbrev pub NoToken : Outside → List String → List Origin → Type 0
NoToken o tokens [] = Unit
NoToken o tokens (ours v ∷ rest) =
    ((token : String) → auth_token v.request.command ≡ some token → Rejected o tokens token)
    × NoToken o tokens rest
NoToken o tokens (theirs w v ∷ rest) = NoToken o tokens rest

process_request-auth_tokens :
    (o : Outside) (e : Engine) (state : ConnectionState) (r : Request) (now : ℕ) (wakes : List ℕ)
    → (process_request o e state r now wakes).0.auth_tokens ≡ e.auth_tokens
unfolding process_request
process_request-auth_tokens o e state r now wakes = elim (Option-cases (auth_token r.command)) [
  | inl p ↦
      rw (p, process_request)
        (elim (Bool-cases (not (verify_token o e "") && not state.authenticated)) [
          | inl refused ↦ rw (refused) refl
          | inr admitted ↦ rw (admitted) (process_command-auth_tokens o e r.command now wakes)
        ])
  | inr (token, p) ↦
      rw (p, process_request)
        (elim (Bool-cases (verify_token o e token)) [
          | inl good ↦ rw (good) refl
          | inr bad ↦ rw (bad) refl
        ])
]

process_request-refuses :
    (o : Outside) (e : Engine) (own : ConnectionState) (r : Request) (now : ℕ) (wakes : List ℕ)
    → own.authenticated ≡ false
    → Rejected o e.auth_tokens ""
    → ((token : String) → auth_token r.command ≡ some token → Rejected o e.auth_tokens token)
    → let (e', own', answer) = process_request o e own r now wakes in
      (e' ≡ e) × (own' ≡ own) × IsError answer
unfolding process_request verify_token
process_request-refuses o e own r now wakes a h n = elim (Option-cases (auth_token r.command)) [
  | inl p ↦
      rw (p, process_request, verify_token, h, a) (refl, refl, (authentication_required, refl))
  | inr (token, p) ↦
      rw (p, process_request, verify_token, n token p) (refl, refl, (invalid_token, refl))
]

-- However the requests of other connections come in between, a connection that is not authenticated,
-- on a server that rejects the empty token, and that sends only tokens that the server rejects, gets
-- an error for each of its requests, stays as it is, and leaves the engine as it is without them.
pub stranger_refused :
    (o : Outside) (e : Engine) (own : ConnectionState) (events : List Origin)
    → own.authenticated ≡ false
    → Rejected o e.auth_tokens ""
    → NoToken o e.auth_tokens events
    → let (e', own', answers) = serve o e own events in
      (e' ≡ (serve o e own (others events)).0) × (own' ≡ own) × All IsError answers
unfolding serve others
stranger_refused o e own [] a h n = (refl, refl, tt)
stranger_refused o e own (ours v ∷ rest) a h (n, ns) =
    let (same, still, error) = process_request-refuses o e own v.request v.now v.wakes a h n in
    let (p, q, r) = stranger_refused o e own rest a h ns in rw (same, still) (p, q, (error, r))
stranger_refused o e own (theirs w v ∷ rest) a h ns =
    let e' : Engine = (process_request o e w v.request v.now v.wakes).0 in
    let keeps : e.auth_tokens ≡ e'.auth_tokens =
      sym (process_request-auth_tokens o e w v.request v.now v.wakes) in
    stranger_refused o e' own rest a (subst (λ ts. Rejected o ts "") keeps h)
      (subst (λ ts. NoToken o ts rest) keeps ns)
