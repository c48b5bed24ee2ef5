-- ===== src/Gateway.antt =====
-- The two doors of the logicserver: the calls by gRPC of logicserver/service/service.go, and
-- httpgateway/gateway.go, which serves the same calls over HTTP with bodies of JSON.
use demo_server.Prelude.{ℕ, zero, suc, String, Option, none, some, List, [], ◌∷◌}
use demo_server.Prelude.Text.{string_discrete}
pub mod Auth
pub mod Shop
pub mod Profile
pub mod Same
pub mod Sale
mod Tests

-- What the gateway reads of a request; no body where reading it failed.
pub record HttpRequest : Type 0 where
  pub method : String
  pub body : Option (List ℕ)

-- An answer of a handler, or an error of the transport.
pub data HttpReply (A : Type 0) : Type 0 where
  method_not_allowed invalid_request_body : HttpReply A
  answered : A → HttpReply A

abbrev pub take : {A : Type 0} → ℕ → List A → List A
take zero xs = []
take (suc n) [] = []
take (suc n) (x ∷ xs) = x ∷ take n xs

module _ {S A : Type 0} (handler : List ℕ → S → S × A) where
  abbrev pub with_body : Option (List ℕ) → S → S × HttpReply A
  with_body none s = (s, invalid_request_body)
  with_body (some body) s = let (s', a) = handler (take 65_536 body) s in (s', answered a)

  unfoldable pub handle : HttpRequest → S → S × HttpReply A
  handle r s = elim (string_discrete r.method "POST") [
    | no other ↦ (s, method_not_allowed)
    | yes post ↦ with_body r.body s
  ]

-- An empty body is a request without fields.
unfoldable pub unmarshal : {Q : Type 0} → (List ℕ → Option Q) → Q → List ℕ → Option Q
unmarshal decode zero_value [] = some zero_value
unmarshal decode zero_value (b ∷ bs) = decode (b ∷ bs)
