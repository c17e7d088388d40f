-- ===== src/Security/Audit.antt =====
-- The module's state and its methods, each as a function on the state, for a caller that no other
-- interrupts; nothing panics under a lock. `audit` takes three locks one after the other, and is
-- composed of its three parts, between which other callers' parts may come (Interleaved). `at` is what
-- `Timestamp::now` returns. A set of stamps is a list.
use wyrtloom.Base.{
  ℕ, suc, ◌+◌, ◌/◌, ◌%◌, ◌≡◌, Bool, true, false, not, ◌&&◌, ◌||◌, Option, none, some, List, [], ◌∷◌,
  ◌++◌, any, all, keep, take, ltb, leb, ◌==◌, if◌then◌else◌, length,
}
use Prim.Native.Nat.{bit_or, bit_xor}
use wyrtloom.Kanban.{Timestamp}
use wyrtloom.Canon.{Bytes}
use wyrtloom.Security.Detail.{
  Chars, Detail, Formats, declared_capabilities, requested_denied, verified, issued_ref,
  invalidated_ref, recorded, detail_text,
}
use wyrtloom.Security.Policy.{
  PluginClass, safe, Capability, PluginManifest, SecurityPolicy, bytes_eq, is_allowed, permissive,
}

pub record Stamp : Type 0 where
  pub mac : Bytes

pub data DecisionKind : Type 0 where
  grant denial stamp_issued stamp_invalidated : DecisionKind

pub record SecurityDecision : Type 0 where
  pub kind : DecisionKind
  pub detail : Chars
  pub at : Timestamp
  pub prev_hash : Bytes

-- What is wrong with an audit file.
pub data FileFault : Type 0 where
  open_failed perms_failed seek_failed read_failed too_large not_utf8 parse_failed : FileFault

pub data SecurityError : Type 0 where
  -- the broken chain's entry
  integrity_failure : ℕ → SecurityError
  file_rejected : FileFault → SecurityError
  zero_key : SecurityError
  capability_denied : Capability → SecurityError
  safe_plugin_violation : SecurityError

-- What the hmac, sha2 and serde_json crates do: a MAC and a digest are 32 bytes, and the serialised
-- form of a decision shows the hash that the decision holds. `formats` is core's formatting.
pub record Crypto : Type 0 where
  pub formats : Formats
  pub mac_with : Bytes → Bytes → Bytes
  pub sha256 : Bytes → Bytes
  pub to_json : SecurityDecision → Bytes
  pub prev_hash_of : Bytes → Bytes
  pub length-mac : (key content : Bytes) → length (mac_with key content) ≡ 32
  pub prev_hash_of-to_json : (d : SecurityDecision) → prev_hash_of (to_json d) ≡ d.prev_hash

-- The audit file: the bytes that have reached it, and how many bytes of each coming line will reach it
-- before a failure; past the end of `short_writes`, all of them.
pub record LogFile : Type 0 where
  pub bytes : Bytes
  pub short_writes : List ℕ

pub record SecurityModule : Type 0 where
  pub audit_log : List SecurityDecision
  pub hmac_key : Bytes
  pub k_session : Bytes
  pub k_audit : Bytes
  pub invalidated : List Stamp
  pub policy : SecurityPolicy
  pub audit_file : Option LogFile
  pub last_hash : Bytes

unfoldable pub write_line : LogFile → Bytes → LogFile
write_line f line = elim f.short_writes [
  | [] ↦ record f { bytes = f.bytes ++ line }
  | n ∷ rest ↦ record { bytes = f.bytes ++ take n line; short_writes = rest }
]

-- `format!("{:x}")` of a digit
abbrev hex_digit : ℕ → ℕ
hex_digit n = if ltb n 10 then 48 + n else 87 + n

unfoldable pub hex : Bytes → Bytes
hex [] = []
hex (b ∷ bs) = hex_digit (b / 16) ∷ hex_digit (b % 16) ∷ hex bs

-- "wyrtloom-session-v1"
unfoldable pub session_label : Bytes
session_label =
    119 ∷ 121 ∷ 114 ∷ 116 ∷ 108 ∷ 111 ∷ 111 ∷ 109 ∷ 45 ∷ 115 ∷ 101 ∷ 115 ∷ 115 ∷ 105 ∷ 111 ∷ 110
    ∷ 45 ∷ 118 ∷ 49 ∷ []

-- "wyrtloom-audit-v1"
unfoldable pub audit_label : Bytes
audit_label =
    119 ∷ 121 ∷ 114 ∷ 116 ∷ 108 ∷ 111 ∷ 111 ∷ 109 ∷ 45 ∷ 97 ∷ 117 ∷ 100 ∷ 105 ∷ 116 ∷ 45 ∷ 118 ∷ 49
    ∷ []

-- "wyrtloom-audit-chain-v1\0"
unfoldable pub chain_tag : Bytes
chain_tag =
    119 ∷ 121 ∷ 114 ∷ 116 ∷ 108 ∷ 111 ∷ 111 ∷ 109 ∷ 45 ∷ 97 ∷ 117 ∷ 100 ∷ 105 ∷ 116 ∷ 45 ∷ 99 ∷ 104
    ∷ 97 ∷ 105 ∷ 110 ∷ 45 ∷ 118 ∷ 49 ∷ 0 ∷ []

-- The bits in which two arrays differ, collected over all their bytes.
unfoldable pub diff_bits : ℕ → Bytes → Bytes → ℕ
diff_bits diff [] b = diff
diff_bits diff (x ∷ a) [] = diff
diff_bits diff (x ∷ a) (y ∷ b) = diff_bits (bit_or diff (bit_xor x y)) a b

unfoldable pub constant_time_eq : Bytes → Bytes → Bool
unfolding diff_bits
constant_time_eq a b = diff_bits 0 a b == 0

unfoldable pub stamp_eq : Stamp → Stamp → Bool
unfolding bytes_eq
stamp_eq s t = bytes_eq s.mac t.mac

-- `char::is_control`: the control codes below 32 and from 127 to 159
unfoldable pub is_control : ℕ → Bool
is_control c = ltb c 32 || (leb 127 c && leb c 159)

unfoldable pub is_bidi_or_format : ℕ → Bool
is_bidi_or_format c =
    (leb 8203 c && leb c 8207)
    || (leb 8234 c && leb c 8238)
    || (leb 8288 c && leb c 8292)
    || (leb 8294 c && leb c 8297)
    || c == 65279

abbrev pub is_clean : ℕ → Bool
is_clean c = not (is_control c) && not (is_bidi_or_format c)

unfoldable pub sanitize_detail : Chars → Chars
sanitize_detail s = take 512 (keep is_clean s)

-- `manifest.capabilities.is_empty()`
abbrev pub is_empty {ℓ} : {A : Type ℓ} → List A → Bool
is_empty [] = true
is_empty (x ∷ xs) = false

abbrev pub is_safe : PluginClass → Bool
is_safe safe = true
is_safe _ = false

-- The loop over the capabilities: the first one that the policy denies.
unfoldable pub first_denied : SecurityPolicy → List Capability → Option Capability
first_denied p [] = none
first_denied p (cap ∷ caps) = if not (is_allowed p cap) then some cap else first_denied p caps

-- The locks are never poisoned; none: `Ok(())`
unfoldable pub self_check : SecurityModule → Option SecurityError
self_check m = if all (λ b. b == 0) m.hmac_key then some zero_key else none

module _ (c : Crypto) where
  unfoldable pub derive_subkey : Bytes → Bytes → Bytes
  derive_subkey root label = c.mac_with root label

  unfoldable pub stamp_ref : Bytes → Bytes
  unfolding hex
  stamp_ref mac = hex (take 8 (c.sha256 mac))

  unfoldable pub with_key : Bytes → SecurityPolicy → SecurityModule
  unfolding derive_subkey session_label audit_label
  with_key key policy = record {
    audit_log = [];
    hmac_key = key;
    k_session = derive_subkey key session_label;
    k_audit = derive_subkey key audit_label;
    invalidated = [];
    policy = policy;
    audit_file = none;
    last_hash = [];
  }

  unfoldable pub new_module : Bytes → SecurityModule
  unfolding with_key
  new_module key = with_key key permissive

  unfoldable pub chain_link : SecurityModule → Bytes → Bytes
  unfolding hex chain_tag
  chain_link m serialized = hex (c.mac_with m.k_audit (chain_tag ++ serialized))

  unfoldable pub compute_mac : SecurityModule → Bytes → Bytes
  compute_mac m content = c.mac_with m.k_session content

  -- The three locked parts of `audit`. Under the lock of the last hash: the entry, and the new head.
  unfoldable pub next_entry : SecurityModule → Timestamp → DecisionKind → Detail → SecurityDecision
  unfolding detail_text
  next_entry m at kind detail = record {
    kind = kind;
    detail = detail_text c.formats detail;
    at = at;
    prev_hash = m.last_hash;
  }

  unfoldable pub advanced : SecurityModule → SecurityDecision → SecurityModule
  unfolding chain_link
  advanced m entry = record m { last_hash = chain_link m (c.to_json entry) }

  -- Under the file's lock: its line, of which a failure leaves a part. The error is dropped.
  unfoldable pub written : SecurityModule → SecurityDecision → SecurityModule
  written m entry = record m {
    audit_file = elim m.audit_file [
      | none ↦ none
      | some f ↦ some (write_line f (c.to_json entry ++ 10 ∷ []))
    ];
  }

  -- Under the log's lock.
  unfoldable pub pushed : SecurityModule → SecurityDecision → SecurityModule
  pushed m entry = record m { audit_log = m.audit_log ++ entry ∷ [] }

  -- The whole call, where no other call comes between its parts.
  unfoldable pub audit : SecurityModule → Timestamp → DecisionKind → Detail → SecurityModule
  unfolding next_entry advanced written pushed
  audit m at kind detail =
      let entry = next_entry m at kind detail in pushed (written (advanced m entry) entry) entry

  -- none: `Ok(())`
  unfoldable pub verify :
      SecurityModule → Timestamp → PluginManifest → Option SecurityError × SecurityModule
  unfolding audit first_denied
  verify m at manifest =
      if is_safe manifest.class && not (is_empty manifest.capabilities)
      then (
        some safe_plugin_violation,
        audit m at denial (declared_capabilities manifest.name manifest.capabilities),
      )
      else elim (first_denied m.policy manifest.capabilities) [
        | some cap ↦
            (some (capability_denied cap), audit m at denial (requested_denied manifest.name cap))
        | none ↦ (none, audit m at grant (verified manifest.name manifest.version manifest.class))
      ]

  unfoldable pub stamp : SecurityModule → Timestamp → Bytes → Stamp × SecurityModule
  unfolding audit compute_mac stamp_ref
  stamp m at content =
      let mac = compute_mac m content in
      (record { mac = mac }, audit m at stamp_issued (issued_ref (stamp_ref mac)))

  unfoldable pub is_valid : SecurityModule → Stamp → Bytes → Bool
  unfolding compute_mac constant_time_eq stamp_eq
  is_valid m s content =
      if any (stamp_eq s) m.invalidated
      then false
      else constant_time_eq s.mac (compute_mac m content)

  unfoldable pub invalidate : SecurityModule → Timestamp → Stamp → SecurityModule
  unfolding audit stamp_ref stamp_eq
  invalidate m at s =
      let m' = audit m at stamp_invalidated (invalidated_ref (stamp_ref s.mac)) in
      record m' {
        invalidated =
            if any (stamp_eq s) m'.invalidated then m'.invalidated else s ∷ m'.invalidated;
      }

  unfoldable pub record_decision : SecurityModule → Timestamp → Bool → Chars → SecurityModule
  unfolding audit sanitize_detail
  record_decision m at granted detail =
      audit m at (if granted then grant else denial) (recorded (sanitize_detail detail))

  -- The loop of `verify_chain` from entry i, where the hash before it is expected.
  unfoldable pub chain_loop :
      SecurityModule → ℕ → Bytes → List SecurityDecision → Option SecurityError
  unfolding bytes_eq chain_link
  chain_loop m i expected [] = none
  chain_loop m i expected (entry ∷ log) =
      if not (bytes_eq entry.prev_hash expected)
      then some (integrity_failure i)
      else chain_loop m (suc i) (chain_link m (c.to_json entry)) log

  unfoldable pub verify_chain : SecurityModule → Option SecurityError
  unfolding chain_loop
  verify_chain m = chain_loop m 0 [] m.audit_log
