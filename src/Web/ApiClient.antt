-- ===== src/Web/ApiClient.antt =====
-- apps/web/src/api/client.ts: the request that every call of the gateway makes, and what it throws.
-- `fetch` is a parameter; `J` is the type of parsed JSON. A text is the list of its code points.
use ryd_trip.Prelude.{
  ℕ, String, Bool, Option, none, some, [], ◌∷◌, ◌++◌, str_append, str_eq, if◌then◌else◌,
}
use ryd_trip.Exec.{Result, ok, err}
use ryd_trip.Gateway.Pattern.{Text, codes}

-- An error that is caught: an `ApiError`, or what parsing throws.
pub data WebError : Type 0 where
  api_error : ℕ → String → WebError
  other_error : String → WebError

abbrev pub message_of : WebError → String
message_of (api_error status message) = message
message_of (other_error message) = message

pub record FetchOptions (J : Type 0) : Type 0 where
  pub method : String
  pub body : Option J

-- What is sent; the correlation id is drawn.
pub record Sent (J : Type 0) : Type 0 where
  pub url : String
  pub method : String
  pub x_correlation_id : String
  pub authorization : Option Text
  pub body : Option J

pub record Reply (J : Type 0) : Type 0 where
  pub is_ok : Bool
  pub status : ℕ
  pub status_text : String
  -- The parsed body, or the message of the error that parsing throws.
  pub json : Result String J

unfoldable pub authorization : Option Text → Option Text
authorization none = none
authorization (some []) = none
authorization (some (c ∷ token)) = some (codes "Bearer " ++ (c ∷ token))

module _ {J : Type 0} (message_field : J → Option String) (base_url : String) where
  unfoldable pub request : String → Option Text → String → FetchOptions J → Sent J
  request correlation_id token endpoint options = record {
    url = str_append base_url endpoint;
    method = options.method;
    x_correlation_id = correlation_id;
    authorization = authorization token;
    body = options.body;
  }

  -- `errorData.message || ...`: a message that is missing or empty is falsy.
  abbrev or_status : Option String → String → String
  or_status none status_text = str_append "API Error: " status_text
  or_status (some m) status_text = if str_eq m "" then str_append "API Error: " status_text else m

  -- A body that does not parse counts as one without a message.
  abbrev field_of : Result String J → Option String
  field_of (err e) = none
  field_of (ok j) = message_field j

  abbrev parsed : Result String J → Result WebError J
  parsed (err e) = err (other_error e)
  parsed (ok j) = ok j

  unfoldable pub received : Option (Reply J) → Result WebError J
  received none = err (api_error 503 "Backend is unreachable — is the API Gateway running?")
  received (some r) =
      if r.is_ok
      then parsed r.json
      else err (api_error r.status (or_status (field_of r.json) r.status_text))

  unfoldable pub api_fetch :
      (Sent J → Option (Reply J))
      → String
      → Option Text
      → String
      → FetchOptions J
      → Result WebError J
  unfolding request received
  api_fetch fetch correlation_id token endpoint options =
      received (fetch (request correlation_id token endpoint options))
