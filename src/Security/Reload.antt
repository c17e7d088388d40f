-- ===== src/Security/Reload.antt =====
-- The audit file as it is read when a module opens it: `with_audit_file`. What the file system and
-- serde_json do are arguments, and a line is its bytes.
use wyrtloom.Base.{
  ℕ, ◌+◌, Bool, true, false, Option, none, some, List, [], ◌∷◌, ◌++◌, All, take, length, ltb, ◌==◌,
  ◌≡◌, if◌then◌else◌,
}
use wyrtloom.Canon.{Bytes}
use wyrtloom.Db.{Result, ok, err}
use wyrtloom.Security.Audit.{
  Crypto, LogFile, SecurityModule, SecurityDecision, FileFault, too_large, not_utf8, parse_failed,
  SecurityError, file_rejected, chain_link, verify_chain,
}

abbrev pub max_audit_file_bytes : ℕ
max_audit_file_bytes = 67108864

-- The file that is opened: a step that fails, or all that it holds, and what the writes to come will
-- leave of their lines.
pub data AuditFile : Type 0 where
  failing : FileFault → AuditFile
  contents : LogFile → AuditFile

-- A file that holds these bytes, and which every line to come reaches as a whole.
abbrev pub whole : Bytes → LogFile
whole b = record { bytes = b; short_writes = [] }

-- A line's end may be a carriage return and a line feed.
abbrev pub strip_cr : Bytes → Bytes
strip_cr [] = []
strip_cr (b ∷ []) = if b == 13 then [] else b ∷ []
strip_cr (b ∷ d ∷ s) = b ∷ strip_cr (d ∷ s)

-- `str::lines`, from the part of a line that has been read.
abbrev pub last_line : Bytes → List Bytes
last_line [] = []
last_line (b ∷ s) = (b ∷ s) ∷ []

unfoldable pub lines : Bytes → Bytes → List Bytes
lines part [] = last_line part
lines part (b ∷ s) = elim (b == 10) [
  | true ↦ strip_cr part ∷ lines [] s
  | false ↦ lines (part ++ b ∷ []) s
]

-- The reading of a file's text: serde_json's of a line, and the tests on UTF-8 and on blanks. The
-- serialised form of a decision is a line, not blank, which reads as the decision.
pub record Reader (c : Crypto) : Type 0 where
  pub from_json : Bytes → Option SecurityDecision
  pub is_utf8 : Bytes → Bool
  pub is_blank_line : Bytes → Bool
  pub from_json-to_json : (d : SecurityDecision) → from_json (c.to_json d) ≡ some d
  pub to_json-one_line : (d : SecurityDecision) → All (λ b. (b == 10) ≡ false) (c.to_json d)
  pub to_json-no_cr : (d : SecurityDecision) → strip_cr (c.to_json d) ≡ c.to_json d
  pub to_json-not_blank : (d : SecurityDecision) → is_blank_line (c.to_json d) ≡ false
  pub is_utf8-nil : is_utf8 [] ≡ true
  pub is_utf8-line :
      (d : SecurityDecision) (rest : Bytes)
      → is_utf8 rest ≡ true
      → is_utf8 (c.to_json d ++ 10 ∷ rest) ≡ true

module _ (c : Crypto) (r : Reader c) where
  -- The loop over the lines.
  unfoldable pub load : SecurityModule → List Bytes → Result SecurityError SecurityModule
  unfolding chain_link
  load m [] = ok m
  load m (line ∷ rest) = elim (r.is_blank_line line) [
    | true ↦ load m rest
    | false ↦ elim (r.from_json line) [
      | none ↦ err (file_rejected parse_failed)
      | some entry ↦
          load
            (record m {
              last_hash = chain_link c m (c.to_json entry);
              audit_log = m.audit_log ++ entry ∷ [];
            })
            rest
    ]
  ]

  -- The check of the chain that has been loaded; the file then takes what is audited.
  unfoldable pub checked :
      LogFile → Result SecurityError SecurityModule → Result SecurityError SecurityModule
  unfolding verify_chain
  checked file (err e) = err e
  checked file (ok m) = elim (verify_chain c m) [
    | some e ↦ err e
    | none ↦ ok (record m { audit_file = some file })
  ]

  unfoldable pub with_audit_file : SecurityModule → AuditFile → Result SecurityError SecurityModule
  unfolding lines load checked
  with_audit_file m (failing fault) = err (file_rejected fault)
  with_audit_file m (contents file) =
      let bytes = take (max_audit_file_bytes + 1) file.bytes in
      if ltb max_audit_file_bytes (length bytes)
      then err (file_rejected too_large)
      else if r.is_utf8 bytes
      then checked file (load m (lines [] bytes))
      else err (file_rejected not_utf8)
