-- ===== src/Sdk/Transport.antt =====
-- packages/sdk/src/node-rpc.ts: what `postJsonRpc` makes of the end of a request, and the requests of
-- `nodeHttp`. Node's client is outside: how an exchange ends is an argument, and so is `JSON.parse`
-- with what the code reads of its result, `none` where it throws.
pub mod Answered
use ponshot.Base.{ℕ, suc, ◌+◌, Bool, Option, none, some, List, [], ◌∷◌, take, leb, if◌then◌else◌}
use ponshot.Base.Text.{Text, codes}

-- How an exchange ends: a response with a status, if it has one, and a body; a timeout; an error.
pub data Exchange : Type 0 where
  response : (status : Option ℕ) → (body : Text) → Exchange
  timed_out : Exchange
  failed : (message : Text) → Exchange

-- `text.slice(0, 200)`
abbrev pub slice_200 : Text → Text
slice_200 text = take 200 text

-- The errors by what their texts are made of.
pub data RpcError : Type 0 where
  rpc_status : (status : Option ℕ) → (text : Text) → RpcError
  non_json : (text : Text) → RpcError
  rpc_timeout : (timeout_ms : ℕ) → RpcError
  network : (message : Text) → RpcError
  rpc_error : (code : Option ℕ) → (message : Text) → RpcError

pub data RpcOutcome {ℓ} (A : Type ℓ) : Type ℓ where
  resolved : A → RpcOutcome A
  rejected : RpcError → RpcOutcome A

pub record ErrorBody : Type 0 where
  pub code : Option ℕ
  pub message : Option Text

pub record RpcResponse (J : Type 0) : Type 0 where
  pub result : J
  pub error : Option ErrorBody

abbrev pub status_code : Option ℕ → ℕ
status_code none = 0
status_code (some status) = status

module _ {J : Type 0} (parse : Text → Option (RpcResponse J)) (timeout_ms : ℕ) where
  abbrev pub parsed_body : Text → RpcOutcome (RpcResponse J)
  parsed_body text = elim (parse text) [
    | none ↦ rejected (non_json (slice_200 text))
    | some r ↦ resolved r
  ]

  unfoldable pub post_json_rpc : Exchange → RpcOutcome (RpcResponse J)
  post_json_rpc (response status body) =
      if leb 400 (status_code status)
      then rejected (rpc_status status (slice_200 body))
      else parsed_body body
  post_json_rpc timed_out = rejected (rpc_timeout timeout_ms)
  post_json_rpc (failed message) = rejected (network message)

  abbrev pub error_text : Option Text → Text
  error_text none = codes "RPC error"
  error_text (some message) = message

  abbrev pub result_of : RpcResponse J → RpcOutcome J
  result_of r = elim r.error [
    | none ↦ resolved r.result
    | some e ↦ rejected (rpc_error e.code (error_text e.message))
  ]

  abbrev pub answer_of : RpcOutcome (RpcResponse J) → RpcOutcome J
  answer_of (rejected e) = rejected e
  answer_of (resolved r) = result_of r

  -- The requests of one transport, by how their exchanges end: the id that each sends and what comes
  -- of it. The counter is the closure's.
  unfoldable pub requests : (id : ℕ) → List Exchange → List (ℕ × RpcOutcome J)
  unfolding post_json_rpc
  requests id [] = []
  requests id (x ∷ xs) = (id + 1, answer_of (post_json_rpc x)) ∷ requests (id + 1) xs
