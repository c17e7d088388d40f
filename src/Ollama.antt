-- ===== src/Ollama.antt =====
-- The Ollama provider, crates/plugin-provider-ollama/src/lib.rs. The HTTP client (reqwest), the URLs
-- (url) and serde_json are arguments: `post` and `get` change the state of the service behind the
-- client. A body is the bytes that arrive before the end, or before the reading fails.
pub mod Answers
pub mod Addresses
mod Examples
use wyrtloom.Base.{
  ℕ, ◌+◌, Bool, true, false, not, ◌&&◌, ◌||◌, String, Option, none, some, List, [], ◌∷◌, map,
  length, take, ltb, leb, ◌==◌, concat, str_eq, if◌then◌else◌,
}
use wyrtloom.Canon.{Bytes}
use wyrtloom.Db.{Result, ok, err}
use wyrtloom.Provider.{
  MessageRole, system, user, assistant, Message, Usage, GenerationRequest, text, GenerationResponse,
  ProviderError, transport, rate_limited, unauthorized, provider_error, ModelDescriptor,
  LlmProvider,
}
use wyrtloom.Terminal.{strip_control}

unfoldable pub max_response_bytes : ℕ
max_response_bytes = 8388608

-- What the code uses of the crate url.
pub record Urls : Type 1 where
  pub Url : Type 0
  pub parse : String → Result String Url
  pub username : Url → String
  pub password : Url → Option String
  pub host_str : Url → Option String
  pub scheme : Url → String
  pub set_username : String → Url → Url
  pub set_password : Option String → Url → Url
  pub to_string : Url → String

pub record OllamaMessage : Type 0 where
  pub role : String
  pub content : String

pub record OllamaRequest : Type 0 where
  pub model : String
  pub messages : List OllamaMessage
  pub stream : Bool
  pub num_predict : ℕ

pub record OllamaResponse : Type 0 where
  pub content : String
  pub prompt_eval_count : Option ℕ
  pub eval_count : Option ℕ
  pub done : Bool

-- An error of `send`, by the tests that the code makes on it.
pub record SendError : Type 0 where
  pub is_timeout : Bool
  pub is_connect : Bool

pub record Reply : Type 0 where
  pub status : ℕ
  pub content_length : Option ℕ
  pub arriving : Bytes
  pub broken : Bool

pub record Client (S : Type 0) : Type 0 where
  pub post : String → OllamaRequest → S → Result SendError Reply × S
  pub get : String → S → Result SendError Reply × S

-- serde_json's reading of an answer, its values with their accessors, and the decimal form of a status.
pub record Serde : Type 1 where
  pub from_slice : Bytes → Option OllamaResponse
  pub Value : Type 0
  pub value_from_slice : Bytes → Option Value
  pub index : Value → String → Value
  pub as_array : Value → Option (List Value)
  pub as_str : Value → Option String
  pub show_status : ℕ → String

abbrev pub host_or_empty : Option String → String
host_or_empty none = ""
host_or_empty (some h) = h

module _ (urls : Urls) where
  unfoldable pub redact_userinfo : urls.Url → String
  redact_userinfo u = urls.to_string (urls.set_password none (urls.set_username "" u))

  abbrev has_password : Option String → Bool
  has_password none = false
  has_password (some p) = true

  unfoldable pub is_permitted : urls.Url → Bool
  is_permitted u =
      let host = host_or_empty (urls.host_str u) in
      str_eq (urls.scheme u) "https"
      || (str_eq (urls.scheme u) "http" && (str_eq host "localhost" || str_eq host "127.0.0.1"))

  unfoldable pub validate_url : urls.Url → Result String Unit
  unfolding redact_userinfo is_permitted
  validate_url u =
      if not (str_eq (urls.username u) "") || has_password (urls.password u)
      then err (
          concat (
            "base_url '"
            ∷ redact_userinfo u
            ∷ "' is not permitted: must not contain userinfo (user:pass@)"
            ∷ []))
      else if is_permitted u
      then ok tt
      else err (
          concat (
            "base_url '"
            ∷ redact_userinfo u
            ∷ "' is not permitted: must be http://localhost, http://127.0.0.1, or https://"
            ∷ []))

  unfoldable pub validate_parsed : String → Result String urls.Url → Result String Unit
  unfolding validate_url
  validate_parsed raw (ok u) = validate_url u
  validate_parsed raw (err e) =
      err (concat ("base_url '" ∷ raw ∷ "' is not a valid URL: " ∷ e ∷ []))

  unfoldable pub validate_base_url : String → Result String Unit
  unfolding validate_parsed
  validate_base_url raw = validate_parsed raw (urls.parse raw)

pub record OllamaProvider (S : Type 0) : Type 0 where
  pub base_url : String
  pub client : Client S

module _ {S : Type 0} where
  -- From the answers of the validation and of the client's builder.
  abbrev pub made :
      Result String Unit → Result String (Client S) → String → Result String (OllamaProvider S)
  made (err e) built url = err e
  made (ok t) (ok client) url = ok (record { base_url = url; client = client })
  made (ok t) (err e) url = err (concat ("failed to build HTTP client: " ∷ e ∷ []))

  unfoldable pub new : Urls → Result String (Client S) → String → Result String (OllamaProvider S)
  unfolding validate_base_url
  new urls built url = made (validate_base_url urls url) built url

-- `take(limit)` and `read_to_end`: a failure is met where the limit is not.
unfoldable pub read_limited : ℕ → Reply → Result ProviderError Bytes
read_limited limit r =
    if leb limit (length r.arriving)
    then ok (take limit r.arriving)
    else if r.broken
    then err (transport "response read failed")
    else ok r.arriving

abbrev pub is_advertised_over : Option ℕ → Bool
unfolding max_response_bytes
is_advertised_over none = false
is_advertised_over (some n) = ltb max_response_bytes n

unfoldable pub read_capped_body : Reply → Result ProviderError Bytes
unfolding read_limited
read_capped_body r =
    if is_advertised_over r.content_length
    then err (transport "response too large")
    else elim (read_limited (max_response_bytes + 1) r) [
      | err e ↦ err e
      | ok buf ↦
          if ltb max_response_bytes (length buf)
          then err (transport "response too large")
          else ok buf
    ]

unfoldable pub role_name : MessageRole → String
role_name system = "system"
role_name user = "user"
role_name assistant = "assistant"

unfoldable pub message_of : Message → OllamaMessage
unfolding role_name
message_of m = record { role = role_name m.role; content = m.content }

unfoldable pub body_of : GenerationRequest → OllamaRequest
unfolding message_of
body_of req = record {
  model = req.model;
  messages = map message_of req.messages;
  stream = false;
  num_predict = req.max_output_tokens;
}

unfoldable pub send_error : SendError → ProviderError
send_error e =
    if e.is_timeout
    then transport "connection timed out"
    else if e.is_connect
    then transport "connection refused"
    else transport "network error"

abbrev pub count_or_zero : Option ℕ → ℕ
count_or_zero none = 0
count_or_zero (some n) = n

unfoldable pub response_of : OllamaResponse → GenerationResponse
unfolding strip_control
response_of r = record {
  content = text (strip_control r.content) ∷ [];
  usage = record {
    input_tokens = count_or_zero r.prompt_eval_count;
    output_tokens = count_or_zero r.eval_count;
    cost = none;
  };
}

module _ (serde : Serde) where
  unfoldable pub decoded : Result ProviderError Bytes → Result ProviderError GenerationResponse
  unfolding response_of
  decoded (err e) = err e
  decoded (ok body) = elim (serde.from_slice body) [
    | some r ↦ ok (response_of r)
    | none ↦ err (transport "response decode failed")
  ]

  unfoldable pub accepted : Reply → Result ProviderError GenerationResponse
  unfolding decoded read_capped_body
  accepted r =
      if r.status == 401
      then err unauthorized
      else if r.status == 429
      then err rate_limited
      else if leb 400 r.status
      then err (provider_error (concat ("server returned HTTP " ∷ serde.show_status r.status ∷ [])))
      else decoded (read_capped_body r)

  unfoldable pub received : Result SendError Reply → Result ProviderError GenerationResponse
  unfolding send_error accepted
  received (err e) = err (send_error e)
  received (ok r) = accepted r

  abbrev described : serde.Value → List ModelDescriptor → List ModelDescriptor
  described m rest = elim (serde.as_str (serde.index m "name")) [
    | none ↦ rest
    | some name ↦
        record {
          id = name;
          description = none;
          cost_per_input_token = none;
          cost_per_output_token = none;
        }
        ∷ rest
  ]

  unfoldable pub descriptors : List (serde.Value) → List ModelDescriptor
  descriptors [] = []
  descriptors (m ∷ ms) = described m (descriptors ms)

  unfoldable pub listed : Result SendError Reply → List ModelDescriptor
  unfolding read_capped_body descriptors
  listed (err e) = []
  listed (ok r) = elim (read_capped_body r) [
    | err e ↦ []
    | ok bytes ↦ elim (serde.value_from_slice bytes) [
      | none ↦ []
      | some body ↦ elim (serde.as_array (serde.index body "models")) [
        | none ↦ []
        | some ms ↦ descriptors ms
      ]
    ]
  ]

  module _ {S : Type 0} where
    unfoldable pub models : OllamaProvider S → S → List ModelDescriptor × S
    unfolding listed
    models p s =
        let sent = p.client.get (concat (p.base_url ∷ "/api/tags" ∷ [])) s in
        (listed sent.0, sent.1)

    unfoldable pub generate :
        OllamaProvider S → GenerationRequest → S → Result ProviderError GenerationResponse × S
    unfolding body_of received
    generate p req s =
        let sent = p.client.post (concat (p.base_url ∷ "/api/chat" ∷ [])) (body_of req) s in
        (received sent.0, sent.1)

    -- The trait's implementation.
    abbrev pub provider : OllamaProvider S → LlmProvider S
    unfolding generate
    provider p = record { generate = generate p }
