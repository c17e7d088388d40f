-- ===== src/Security/Examples.antt =====
-- The security module at concrete keys, policies and calls. The MAC is the first 32 bytes of key and
-- content, and a serialised decision is a code of its kind before its previous hash.
use wyrtloom.Base.{
  ℕ, zero, suc, ◌≡◌, refl, ◌⊎◌, ap, true, false, not, ◌&&◌, ◌||◌, none, List, [], ◌∷◌, ◌++◌, any,
  map, length, take,
}
use mathlib.Core.List.{Mem}
use wyrtloom.Canon.{Bytes}
use wyrtloom.Security.Policy.{
  unsafe, file_read, PluginManifest, SecurityPolicy, check_file_path, contains_dots, under_prefix,
  bytes_eq, trim_end_slashes,
}
use wyrtloom.Security.Policy.Paths.{components, is_dots, Begins, check_file_path-confines}
use wyrtloom.Security.Audit.{
  Stamp, Crypto, SecurityModule, SecurityDecision, DecisionKind, grant, denial, stamp_issued,
  stamp_invalidated, compute_mac, stamp_eq, record_decision, audit, chain_loop, chain_link,
  derive_subkey, with_key, stamp, is_valid, verify_chain,
}
use wyrtloom.Security.Detail.{Formats}
use wyrtloom.Security.Chain.{
  call, Call, call_verify, call_stamp, call_invalidate, call_record, calls, calls-verify_chain,
}
use wyrtloom.Security.Tamper.{Collision, verify_chain-prefix}
use wyrtloom.Security.Stamps.{revokes, is_valid-calls}

abbrev pub pad : ℕ → Bytes → Bytes
pad zero bs = []
pad (suc n) [] = 0 ∷ pad n []
pad (suc n) (b ∷ bs) = b ∷ pad n bs

pub length-pad : (n : ℕ) (bs : Bytes) → length (pad n bs) ≡ n
length-pad zero bs = refl
length-pad (suc n) [] = ap suc (length-pad n [])
length-pad (suc n) (b ∷ bs) = ap suc (length-pad n bs)

abbrev pub kind_code : DecisionKind → ℕ
kind_code grant = 0
kind_code denial = 1
kind_code stamp_issued = 2
kind_code stamp_invalidated = 3

abbrev pub rest : Bytes → Bytes
rest [] = []
rest (b ∷ bs) = bs

-- A number as a code, a text as it is.
abbrev pub formats : Formats
formats = record { show_number = λ n. n ∷ []; quoted = λ s. s; from_utf8 = λ s. s }

abbrev pub crypto : Crypto
crypto = record {
  formats = formats;
  mac_with = λ key content. pad 32 (content ++ key);
  sha256 = pad 32;
  to_json = λ d. kind_code d.kind ∷ d.prev_hash;
  prev_hash_of = rest;
  length-mac = λ key content. length-pad 32 (content ++ key);
  prev_hash_of-to_json = λ d. refl;
}

abbrev pub root_key : Bytes
root_key = pad 32 (7 ∷ 9 ∷ [])

-- "/srv/data", "/srv/data/", "reader"
abbrev data_path : Bytes
data_path = 47 ∷ 115 ∷ 114 ∷ 118 ∷ 47 ∷ 100 ∷ []

abbrev data_prefix : Bytes
data_prefix = 47 ∷ 115 ∷ 114 ∷ 118 ∷ 47 ∷ []

abbrev policy : SecurityPolicy
policy = record {
  file_read_prefixes = data_prefix ∷ [];
  file_write_prefixes = [];
  network_allowlist = [];
  allow_shell = false;
  allow_git = false;
}

abbrev reader : PluginManifest
reader = record {
  name = 114 ∷ [];
  version = record { major = 1; minor = 0; patch = 0 };
  class = unsafe;
  capabilities = file_read data_path ∷ [];
  implements = [];
}

abbrev fresh : SecurityModule
fresh = with_key crypto root_key policy

abbrev content : Bytes
content = 1 ∷ 2 ∷ 3 ∷ []

abbrev mark : Stamp
mark = (stamp crypto fresh 5 content).0

abbrev session : List Call
session =
    call_verify 1 reader
    ∷ call_stamp 2 content
    ∷ call_invalidate 3 mark
    ∷ call_record 4 true (97 ∷ 27 ∷ [])
    ∷ []

check_file_path-confines_example :
    (any is_dots (components data_path) ≡ false)
    × (prefix : Bytes) × Mem prefix (data_prefix ∷ [])
    × Begins (components (trim_end_slashes prefix)) (components data_path)
unfolding check_file_path contains_dots under_prefix
check_file_path-confines_example = check_file_path-confines data_path (data_prefix ∷ []) refl

calls-verify_chain_example :
    verify_chain crypto (calls crypto (with_key crypto root_key policy) session) ≡ none
calls-verify_chain_example = calls-verify_chain crypto root_key policy session

is_valid-calls_example : is_valid crypto (calls crypto fresh session) mark content ≡ (
    bytes_eq mark.mac (compute_mac crypto fresh content)
    && not (any (stamp_eq mark) fresh.invalidated || any (revokes mark) session))
unfolding stamp compute_mac with_key derive_subkey
is_valid-calls_example =
    is_valid-calls crypto fresh session mark content (crypto.length-mac fresh.k_session content)

abbrev logged : SecurityModule
logged = calls crypto fresh (call_record 1 true [] ∷ call_record 2 false [] ∷ [])

abbrev longer : SecurityModule
longer = calls crypto logged (call_record 3 true [] ∷ [])

abbrev drop : ℕ → List SecurityDecision → List SecurityDecision
drop zero log = log
drop (suc n) [] = []
drop (suc n) (e ∷ log) = drop n log

abbrev second : List SecurityDecision → SecurityDecision
second (d ∷ e ∷ log) = e
second _ = record { kind = grant; detail = []; at = 0; prev_hash = [] }

verify_chain-prefix_example :
    (map crypto.to_json (take 1 longer.audit_log) ≡ map crypto.to_json (take 1 logged.audit_log))
    ⊎ Collision crypto longer.k_audit (take 1 longer.audit_log) (take 1 logged.audit_log)
unfolding call calls record_decision audit verify_chain chain_loop chain_link bytes_eq with_key
verify_chain-prefix_example =
    verify_chain-prefix crypto longer logged (take 1 longer.audit_log) (take 1 logged.audit_log)
      (drop 2 longer.audit_log) [] (second logged.audit_log) refl refl refl refl refl
