-- ===== src/Canon/Examples.antt =====
-- The encoding at concrete requests.
use wyrtloom.Base.{◌≡◌, refl, arith, [], ◌∷◌}
use wyrtloom.Canon.{Request, to_be_bytes}
use wyrtloom.Canon.Requests.{Fits, canonical_request-injective}

abbrev pub request : Request
request = record {
  method = 71 ∷ [];
  path = 47 ∷ [];
  body_sha256 = 1 ∷ 2 ∷ [];
  client_id = 97 ∷ [];
  timestamp = 9;
  nonce = 98 ∷ [];
}

pub request-Fits : Fits request
request-Fits = omega arith

be_bytes_258 : to_be_bytes 258 ≡ 0 ∷ 0 ∷ 0 ∷ 0 ∷ 0 ∷ 0 ∷ 1 ∷ 2 ∷ []
unfolding to_be_bytes
be_bytes_258 = refl

canonical_request-injective_example : request ≡ request
canonical_request-injective_example =
    canonical_request-injective request request request-Fits request-Fits refl
