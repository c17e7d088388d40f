-- ===== src/Security/Sample.antt =====
-- A serialised form of decisions from which they are read back, for the examples: numbers above a
-- line's end, the detail behind its length.
use wyrtloom.Base.{
  ℕ, zero, suc, ◌+◌, ◌-◌, ◌≡◌, refl, ap, ◌∙◌, arith, true, false, some, [], ◌∷◌, ◌++◌, All, map,
  take, length, ◌==◌,
}
use wyrtloom.Canon.{Bytes}
use wyrtloom.Security.Audit.{
  Crypto, SecurityDecision, DecisionKind, grant, denial, stamp_issued, stamp_invalidated,
}
use wyrtloom.Security.Reload.{Reader, strip_cr}
use wyrtloom.Security.Examples.{formats, pad, length-pad, kind_code}

abbrev drop : ℕ → Bytes → Bytes
drop zero xs = xs
drop (suc n) [] = []
drop (suc n) (x ∷ xs) = drop n xs

take-append : (s rest : Bytes) → take (length s) (s ++ rest) ≡ s
take-append [] rest = refl
take-append (x ∷ s) rest = ap (λ l. x ∷ l) (take-append s rest)

drop-append : (s rest : Bytes) → drop (length s) (s ++ rest) ≡ rest
drop-append [] rest = refl
drop-append (x ∷ s) rest = drop-append s rest

abbrev kind_at : ℕ → DecisionKind
kind_at zero = grant
kind_at (suc zero) = denial
kind_at (suc (suc zero)) = stamp_issued
kind_at (suc (suc (suc n))) = stamp_invalidated

kind-code : (k : DecisionKind) → kind_at (kind_code k) ≡ k
kind-code grant = refl
kind-code denial = refl
kind-code stamp_issued = refl
kind-code stamp_invalidated = refl

-- The detail stands behind its length, and the previous hash behind it.
abbrev tokens : SecurityDecision → Bytes
tokens d = kind_code d.kind ∷ d.at ∷ length d.detail ∷ d.detail ++ d.prev_hash

abbrev decision : Bytes → SecurityDecision
decision (k ∷ at ∷ n ∷ xs) = record {
  kind = kind_at k;
  detail = take n xs;
  at = at;
  prev_hash = drop n xs;
}
decision _ = record { kind = grant; detail = []; at = 0; prev_hash = [] }

decision-tokens : (d : SecurityDecision) → decision (tokens d) ≡ d
decision-tokens d =
    rw (kind-code d.kind)
      (rw (take-append d.detail d.prev_hash) (rw (drop-append d.detail d.prev_hash) refl))

abbrev shift : Bytes → Bytes
shift xs = map (λ n. n + 14) xs

abbrev back : Bytes → Bytes
back xs = map (λ n. n - 14) xs

back-shift : (xs : Bytes) → back (shift xs) ≡ xs
back-shift [] = refl
back-shift (x ∷ xs) = ground (arith, back-shift xs)

pub shift-one_line : (xs : Bytes) → All (λ b. (b == 10) ≡ false) (shift xs)
shift-one_line [] = tt
shift-one_line (x ∷ xs) = (ground arith, shift-one_line xs)

pub shift-no_cr : (xs : Bytes) → strip_cr (shift xs) ≡ shift xs
shift-no_cr [] = refl
shift-no_cr (x ∷ []) = ground arith
shift-no_cr (x ∷ y ∷ xs) = ap (λ l. (x + 14) ∷ l) (shift-no_cr (y ∷ xs))

pub read_back : (d : SecurityDecision) → decision (back (shift (tokens d))) ≡ d
read_back d = ap decision (back-shift (tokens d)) ∙ decision-tokens d

abbrev pub crypto : Crypto
crypto = record {
  formats = formats;
  mac_with = λ key content. pad 32 (content ++ key);
  sha256 = pad 32;
  to_json = λ d. shift (tokens d);
  prev_hash_of = λ s. (decision (back s)).prev_hash;
  length-mac = λ key content. length-pad 32 (content ++ key);
  prev_hash_of-to_json = λ d. ap (λ (e : SecurityDecision). e.prev_hash) (read_back d);
}

abbrev pub reader : Reader crypto
reader = record {
  from_json = λ s. some (decision (back s));
  is_utf8 = λ s. true;
  is_blank_line = λ s. false;
  from_json-to_json = λ d. ap some (read_back d);
  to_json-one_line = λ d. shift-one_line (tokens d);
  to_json-no_cr = λ d. shift-no_cr (tokens d);
  to_json-not_blank = λ d. refl;
  is_utf8-nil = refl;
  is_utf8-line = λ d rest h. refl;
}
