-- ===== src/HttpClient.antt =====
-- `HttpClient` (src/transport/http_client.hpp and http_client.cpp): one request over HTTP/1.1 as a
-- chain of asynchronous operations. Each handler of the chain is run by the completion of one
-- operation, so a connection is a state machine that is fed completions; the function captured as
-- callback is kept as data, of a type `C` that the caller chooses.
pub mod Chain
use http2_server.Prelude.{
  ℕ, Option, none, some, List, [], ◌∷◌, ◌++◌, is_empty, length, if◌then◌else◌, ◌≡◌, ◌<◌, Bool, true,
  false,
}
use http2_server.Prelude.Text.{Text, codes, text_eq}
use http2_server.Prelude.Int.{ℤ, pos}
use http2_server.Prelude.Decimal.{to_string, size_to_string}
use http2_server.Prelude.Map.{Map, insert}

pub record ProxyResponse : Type 0 where
  pub status_code : ℤ
  pub body : Text
  pub headers : Map Text Text

-- The constructor, which leaves `headers` empty.
abbrev pub proxy_response : ℤ → Text → ProxyResponse
proxy_response code response_body = record {
  status_code = code;
  body = response_body;
  headers = [];
}

-- `http::request<http::string_body>`
pub record HttpRequest : Type 0 where
  pub version : ℕ
  pub method : Text
  pub target : Text
  pub fields : Map Text Text
  pub body : Text

-- Boost.Beast documents that a request with the method TRACE must have no body.
abbrev pub Refuses : Text → Text → Type 0
Refuses verb body = (verb ≡ codes "TRACE") × (is_empty body ≡ false)

-- What the code calls of Boost.Beast on a request.
pub record Beast : Type 0 where
  -- `req->method(http::string_to_verb(method))` sets the verb with this name; `none` is the exception
  -- `std::invalid_argument` for a name that is no verb.
  pub verb : Text → Option Text
  -- Whether a value is not too long for `req->set`, which throws if it is.
  pub fits : Text → Bool
  pub fits-true : (value : Text) → length value < 65534 → fits value ≡ true
  -- `none` is the exception `std::invalid_argument` for a body that the method does not allow.
  pub prepare_payload : HttpRequest → Option HttpRequest
  pub prepare_payload-none : (r : HttpRequest) → prepare_payload r ≡ none → Refuses r.method r.body

-- `http::response<http::string_body>`, its fields in their order.
pub record HttpMessage : Type 0 where
  pub result_int : ℤ
  pub body : Text
  pub fields : List (Text × Text)

pub data Phase : Type 0 where
  resolving connecting writing reading finished : Phase

pub record Connection (C : Type 0) : Type 0 where
  pub host : Text
  pub service : Text
  pub request : HttpRequest
  pub phase : Phase
  pub callback : C

-- The completion of the operation that is under way: its error message if it failed, and the message
-- that a read has parsed.
pub record Completion : Type 0 where
  pub ec : Option Text
  pub message : HttpMessage

-- The fields that `send_request` sets; `body` sets two more if it is not empty.
abbrev request_fields : Text → Text → Map Text Text
request_fields host body =
    let base = insert (codes "User-Agent") (codes "Proxy/1.0") (insert (codes "Host") host []) in
    if is_empty body
    then base
    else insert (codes "Content-Type") (codes "application/json")
        (insert (codes "Content-Length") (size_to_string (length body)) base)

abbrev build_request : Text → Text → Text → Text → HttpRequest
build_request verb host path body = record {
  version = 11;
  method = verb;
  target = path;
  fields = request_fields host body;
  body = body;
}

-- `none` is the exception of `req->method`, of `req->set` or of `prepare_payload`, before anything is started.
unfoldable pub send_request :
    {C : Type 0} → Beast → Text → ℤ → Text → Text → Text → C → Option (Connection C)
send_request beast host port method path body callback = elim (beast.verb method) [
  | none ↦ none
  | some verb ↦
      if beast.fits host
      then elim (beast.prepare_payload (build_request verb host path body)) [
        | none ↦ none
        | some request ↦ some (record {
          host = host;
          service = to_string port;
          request = request;
          phase = resolving;
          callback = callback;
        })
      ]
      else none
]

-- A call of the callback.
pub record Outcome : Type 0 where
  pub response : ProxyResponse
  pub error : Text

abbrev failure : Text → Text → Option Outcome
failure what message =
    some (record { response = proxy_response (pos 0) []; error = what ++ message })

-- The loop over the response's fields: a later field of the same name replaces an earlier one.
copy_headers : Map Text Text → List (Text × Text) → Map Text Text
copy_headers headers [] = headers
copy_headers headers ((name, value) ∷ rest) = copy_headers (insert name value headers) rest

unfoldable pub received : HttpMessage → Outcome
unfolding copy_headers
received res = record {
  response = record (proxy_response res.result_int res.body) {
    headers = copy_headers [] res.fields;
  };
  error = [];
}

abbrev Handled : Type 0
Handled = Phase × Option Outcome

handle_resolve : Completion → Handled
handle_resolve c = elim c.ec [
  | some message ↦ (finished, failure (codes "Failed to resolve host: ") message)
  | none ↦ (connecting, none)
]

handle_connect : Completion → Handled
handle_connect c = elim c.ec [
  | some message ↦ (finished, failure (codes "Failed to connect: ") message)
  | none ↦ (writing, none)
]

handle_write : Completion → Handled
handle_write c = elim c.ec [
  | some message ↦ (finished, failure (codes "Failed to write request: ") message)
  | none ↦ (reading, none)
]

handle_read : Completion → Handled
unfolding received
handle_read c = elim c.ec [
  | some message ↦ (finished, failure (codes "Failed to read response: ") message)
  | none ↦ (finished, some (received c.message))
]

-- The handler that the operation under way has been given. Nothing is under way at the end.
handle : Phase → Completion → Handled
unfolding handle_resolve handle_connect handle_write handle_read
handle resolving c = handle_resolve c
handle connecting c = handle_connect c
handle writing c = handle_write c
handle reading c = handle_read c
handle finished c = (finished, none)

unfoldable pub complete : {C : Type 0} → Connection C → Completion → Connection C × Option Outcome
unfolding handle
complete k c = let (phase, outcome) = handle k.phase c in (record k { phase = phase }, outcome)
