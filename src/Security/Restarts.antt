-- ===== src/Security/Restarts.antt =====
-- A module that audits a decision, and its file after a restart.
use wyrtloom.Base.{◌≡◌, refl, arith, true, Option, none, some, [], ◌∷◌}
use wyrtloom.Canon.{Bytes}
use wyrtloom.Db.{Result, ok, err}
use wyrtloom.Security.Policy.{deny_all, permissive}
use wyrtloom.Security.Audit.{
  LogFile, SecurityError, integrity_failure, SecurityModule, with_key, audit, next_entry, advanced,
  written, pushed, write_line, record_decision, sanitize_detail, verify_chain, chain_loop,
  is_control, is_bidi_or_format,
}
use wyrtloom.Security.Chain.{call, call_record, calls}
use wyrtloom.Security.Reload.{whole, contents, lines, load, checked, with_audit_file}
use wyrtloom.Security.Restart.{Running, Running-reopens}
use wyrtloom.Security.Sample.{crypto, reader}
use wyrtloom.Security.Examples.{root_key}

abbrev start : SecurityModule
start = record (with_key crypto root_key deny_all) { audit_file = some (whole []) }

starts :
    with_audit_file crypto reader (with_key crypto root_key deny_all) (contents (whole []))
    ≡ ok start
unfolding with_audit_file lines load checked verify_chain chain_loop with_key
starts = refl

abbrev after : SecurityModule
after = calls crypto start (call_record 9 true (97 ∷ 27 ∷ []) ∷ [])

-- A grant at 9, with the text "a" and no previous hash, and a line's end.
abbrev file : Bytes
file = 14 ∷ 23 ∷ 15 ∷ 111 ∷ 10 ∷ []

wrote : after.audit_file ≡ some (whole file)
unfolding calls call record_decision sanitize_detail audit next_entry advanced written pushed
    write_line with_key is_control is_bidi_or_format
wrote = refl

Running-reopens_example :
    with_audit_file crypto reader (with_key crypto root_key permissive) (contents (whole file))
    ≡ ok (record (with_key crypto root_key permissive) {
      audit_log = after.audit_log;
      last_hash = after.last_hash;
      audit_file = some (whole file);
    })
Running-reopens_example =
    Running-reopens crypto reader root_key permissive after file
      (Running.called (call_record 9 true (97 ∷ 27 ∷ []) ∷ []) start
        (Running.opened deny_all start starts))
      wrote (omega arith)

-- A module whose first line is lost, as where the disk is full, and whose second line is written: its
-- own log verifies, and its file is refused after a restart.
abbrev losing : SecurityModule
losing =
    calls crypto (record start { audit_file = some (record { bytes = []; short_writes = 0 ∷ [] }) })
      (call_record 9 true [] ∷ call_record 10 true [] ∷ [])

verifies : verify_chain crypto losing ≡ none
unfolding calls call record_decision sanitize_detail audit next_entry advanced written pushed
    write_line with_key verify_chain chain_loop is_control is_bidi_or_format
verifies = refl

abbrev opened_again : Option LogFile → Result SecurityError SecurityModule
opened_again none = ok start
opened_again (some f) =
    with_audit_file crypto reader (with_key crypto root_key deny_all) (contents (whole f.bytes))

file_refused : opened_again losing.audit_file ≡ err (integrity_failure 0)
unfolding calls call record_decision sanitize_detail audit next_entry advanced written pushed
    write_line with_key verify_chain chain_loop is_control is_bidi_or_format with_audit_file lines
    load checked
file_refused = refl
