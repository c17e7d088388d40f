-- ===== src/Ollama/Examples.antt =====
-- A provider of this machine, and an answer of its service.
use wyrtloom.Base.{
  ℕ, suc, ◌≡◌, ◌↔◌, refl, true, false, String, Option, none, some, [], ◌∷◌, str_eq, if◌then◌else◌,
  concat,
}
use wyrtloom.Db.{Result, ok, err}
use wyrtloom.Provider.{GenerationRequest, unauthorized}
use wyrtloom.Ollama.{
  Urls, Client, Serde, SendError, Reply, OllamaProvider, new, validate_base_url, validate_parsed,
  validate_url, is_permitted, generate, received, accepted, body_of,
}
use wyrtloom.Ollama.Answers.{Receives, generate-Receives}
use wyrtloom.Ollama.Addresses.{Permitted, new-Permitted}

record Address : Type 0 where
  pub user : String
  pub word : Option String
  pub host : Option String
  pub scheme : String

-- A parser that knows two texts; the second has a user.
abbrev read : String → Result String Address
read s =
    if str_eq s "http://localhost:11434"
    then ok (record { user = ""; word = none; host = some "localhost"; scheme = "http" })
    else if str_eq s "http://localhost@evil.com"
    then ok (record { user = "localhost"; word = none; host = some "evil.com"; scheme = "http" })
    else err "relative URL without a base"

abbrev urls : Urls
urls = record {
  Url = Address;
  parse = read;
  username = λ u. u.user;
  password = λ u. u.word;
  host_str = λ u. u.host;
  scheme = λ u. u.scheme;
  set_username = λ s u. record u { user = s };
  set_password = λ o u. record u { word = o };
  to_string = λ u. u.scheme;
}

-- The service counts the requests, and refuses the first for want of credentials.
abbrev client : Client ℕ
client = record {
  post = λ a body n. (
    ok (record {
      status = if str_eq body.model "m" then 401 else 500;
      content_length = none;
      arriving = [];
      broken = false;
    }),
    suc n,
  );
  get = λ a n. (err (record { is_timeout = true; is_connect = false }), n);
}

abbrev serde : Serde
serde = record {
  from_slice = λ b. none;
  Value = Unit;
  value_from_slice = λ b. none;
  index = λ v s. tt;
  as_array = λ v. none;
  as_str = λ v. none;
  show_status = λ n. "4xx";
}

abbrev local : OllamaProvider ℕ
local = record { base_url = "http://localhost:11434"; client = client }

abbrev question : GenerationRequest
question = record { messages = []; max_output_tokens = 9; model = "m" }

new-Permitted_example : (new urls (ok client) "http://localhost:11434" ≡ ok local) ↔ (
    (u : Address) × (read "http://localhost:11434" ≡ ok u)
    × Permitted urls u
    × (◌≡◌ {A = Result String (Client ℕ)} (ok client) (ok local.client))
    × (local.base_url ≡ "http://localhost:11434"))
new-Permitted_example = new-Permitted urls (ok client) "http://localhost:11434" local

generate-Receives_example :
    (sent : Result SendError Reply) × (s' : ℕ) × (client.post
        (concat ("http://localhost:11434" ∷ "/api/chat" ∷ []))
        (body_of question)
        0
      ≡ (sent, s'))
    × ((generate serde local question 0).1 ≡ s')
    × Receives serde sent (generate serde local question 0).0
generate-Receives_example = generate-Receives serde local question 0

is_made : new urls (ok client) "http://localhost:11434" ≡ ok local
unfolding new validate_base_url validate_parsed validate_url is_permitted
is_made = refl

-- Without credentials, the error says so.
refused : (generate serde local question 0).0 ≡ err unauthorized
unfolding generate received accepted body_of
refused = refl
