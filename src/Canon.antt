-- ===== src/Canon.antt =====
-- The canonical byte encoding, crates/core/src/canon.rs, and the request that a client signs,
-- `canonical_request` of crates/core/src/client_auth.rs. A text is its UTF-8 bytes.
pub mod Frames
pub mod Requests
pub mod Examples
use wyrtloom.Base.{ℕ, ◌+◌, ◌*◌, ◌/◌, ◌%◌, ◌^◌, List, [], ◌∷◌, ◌++◌, length}

abbrev pub Bytes : Type 0
Bytes = List ℕ

-- `(n as u64).to_be_bytes()`
unfoldable pub to_be_bytes : ℕ → Bytes
to_be_bytes n =
    n / 2 ^ 56 % 256
    ∷ n / 2 ^ 48 % 256
    ∷ n / 2 ^ 40 % 256
    ∷ n / 2 ^ 32 % 256
    ∷ n / 2 ^ 24 % 256
    ∷ n / 2 ^ 16 % 256
    ∷ n / 2 ^ 8 % 256
    ∷ n % 256
    ∷ []

pub record CanonicalEncoder : Type 0 where
  pub buf : Bytes

-- The cast `f.len() as u64` is exact: a slice is shorter than 2 ^ 63.
unfoldable pub write : CanonicalEncoder → Bytes → CanonicalEncoder
write e f = record { buf = (e.buf ++ to_be_bytes (length f)) ++ f }

unfoldable pub new : Bytes → CanonicalEncoder
new domain = write (record { buf = [] }) domain

unfoldable pub field : CanonicalEncoder → Bytes → CanonicalEncoder
field e bytes = write e bytes

unfoldable pub str_field : CanonicalEncoder → Bytes → CanonicalEncoder
str_field e s = field e s

unfoldable pub tagged : CanonicalEncoder → Bytes → Bytes → CanonicalEncoder
tagged e tag bytes = write (write e tag) bytes

unfoldable pub finish : CanonicalEncoder → Bytes
finish e = e.buf

-- "wyrtloom-client-auth-v1"
unfoldable pub client_auth_domain : Bytes
client_auth_domain =
    119 ∷ 121 ∷ 114 ∷ 116 ∷ 108 ∷ 111 ∷ 111 ∷ 109 ∷ 45 ∷ 99 ∷ 108 ∷ 105 ∷ 101 ∷ 110 ∷ 116 ∷ 45 ∷ 97
    ∷ 117 ∷ 116 ∷ 104 ∷ 45 ∷ 118 ∷ 49 ∷ []

-- The timestamp is an `i64`, given by its 64-bit pattern.
pub record Request : Type 0 where
  pub method : Bytes
  pub path : Bytes
  pub body_sha256 : Bytes
  pub client_id : Bytes
  pub timestamp : ℕ
  pub nonce : Bytes

unfoldable pub canonical_request : Request → Bytes
canonical_request r = finish (
    str_field
      (field
        (str_field
          (field (str_field (str_field (new client_auth_domain) r.method) r.path) r.body_sha256)
          r.client_id)
        (to_be_bytes r.timestamp))
      r.nonce)
