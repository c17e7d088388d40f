-- ===== src/Canon/Requests.antt =====
-- The bytes that a client signs, `canonical_request`, as a list of fields.
use wyrtloom.Base.{◌^◌, ◌<◌, ◌≡◌, sym, ◌∙◌, arith, List, [], ◌∷◌, length}
use mathlib.Core.List.{append_assoc, append-nil}
use wyrtloom.Canon.{
  Bytes, Request, to_be_bytes, write, new, field, str_field, finish, client_auth_domain,
  canonical_request,
}
use wyrtloom.Canon.Frames.{frames, frames-injective, Short, to_be_bytes-injective}

-- The texts of a request are shorter than 2 ^ 64 bytes, and its time has 64 bits.
pub record Fits (r : Request) : Type 0 where
  pub method_fits : length r.method < 2 ^ 64
  pub path_fits : length r.path < 2 ^ 64
  pub body_fits : length r.body_sha256 < 2 ^ 64
  pub client_fits : length r.client_id < 2 ^ 64
  pub time_fits : r.timestamp < 2 ^ 64
  pub nonce_fits : length r.nonce < 2 ^ 64

abbrev pub parts : Request → List Bytes
parts r =
    client_auth_domain
    ∷ r.method
    ∷ r.path
    ∷ r.body_sha256
    ∷ r.client_id
    ∷ to_be_bytes r.timestamp
    ∷ r.nonce
    ∷ []

pub canonical_request-frames : (r : Request) → canonical_request r ≡ frames (parts r)
unfolding canonical_request finish str_field field new write
canonical_request-frames r = simp (append_assoc, append-nil)

pub parts-Short : (r : Request) → Fits r → Short (parts r)
unfolding client_auth_domain to_be_bytes
parts-Short r h = omega arith

-- Two requests that fit, signed over the same bytes, are one request.
pub canonical_request-injective :
    (r s : Request) → Fits r → Fits s → canonical_request r ≡ canonical_request s → r ≡ s
canonical_request-injective r s h k e =
    let same =
      frames-injective (parts r) (parts s) (parts-Short r h) (parts-Short s k)
        (sym (canonical_request-frames r) ∙ e ∙ canonical_request-frames s) in
    let time : to_be_bytes r.timestamp ≡ to_be_bytes s.timestamp = cc same in
    ground (arith, same, to_be_bytes-injective r.timestamp s.timestamp h.time_fits k.time_fits time)
