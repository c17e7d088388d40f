-- ===== src/Security/Detail.antt =====
-- The texts of the audited decisions' details: the format strings of crates/core/src/security.rs, with
-- the derived `Debug` of capabilities and classes and the `Display` of versions.
use Prim.Native.Char.{code}
use Prim.Native.String.{[] as no_chars, ◌∷◌ as chars}
use wyrtloom.Base.{ℕ, String, List, [], ◌∷◌, ◌++◌}
use wyrtloom.Canon.{Bytes}
use wyrtloom.Security.Policy.{
  PluginClass, safe, unsafe, Capability, file_read, file_write, network, shell, git, SemVer,
}

-- The code points of a text.
abbrev pub Chars : Type 0
Chars = List ℕ

unfoldable pub codes : String → Chars
codes no_chars = []
codes (chars c s) = code c ∷ codes s

-- Core's formatting: a number's digits, a quoted text with its escapes, and the text of UTF-8 bytes.
pub record Formats : Type 0 where
  pub show_number : ℕ → Chars
  pub quoted : Chars → Chars
  pub from_utf8 : Bytes → Chars

-- A detail by the format string that makes it and its arguments.
pub data Detail : Type 0 where
  declared_capabilities : Bytes → List Capability → Detail
  requested_denied : Bytes → Capability → Detail
  verified : Bytes → SemVer → PluginClass → Detail
  issued_ref invalidated_ref : Bytes → Detail
  recorded : Chars → Detail

unfoldable pub debug_class : PluginClass → Chars
unfolding codes
debug_class safe = codes "Safe"
debug_class unsafe = codes "Unsafe"

module _ (f : Formats) where
  unfoldable pub show_version : SemVer → Chars
  show_version v = f.show_number v.major ++ 46 ∷ f.show_number v.minor ++ 46 ∷ f.show_number v.patch

  unfoldable pub debug_capability : Capability → Chars
  unfolding codes
  debug_capability (file_read p) = codes "FileRead(" ++ f.quoted (f.from_utf8 p) ++ codes ")"
  debug_capability (file_write p) = codes "FileWrite(" ++ f.quoted (f.from_utf8 p) ++ codes ")"
  debug_capability (network h) = codes "Network(" ++ f.quoted (f.from_utf8 h) ++ codes ")"
  debug_capability shell = codes "Shell"
  debug_capability git = codes "Git"

  -- The capabilities after the first.
  abbrev debug_more : List Capability → Chars
  debug_more [] = codes "]"
  debug_more (cap ∷ caps) = codes ", " ++ debug_capability cap ++ debug_more caps

  unfoldable pub debug_capabilities : List Capability → Chars
  unfolding debug_capability
  debug_capabilities [] = codes "[]"
  debug_capabilities (cap ∷ caps) = codes "[" ++ debug_capability cap ++ debug_more caps

  unfoldable pub detail_text : Detail → Chars
  unfolding show_version debug_capabilities debug_class
  detail_text (declared_capabilities name caps) =
      codes "safe plugin '"
      ++ f.from_utf8 name
      ++ codes "' declared capabilities: "
      ++ debug_capabilities caps
  detail_text (requested_denied name cap) =
      codes "plugin '"
      ++ f.from_utf8 name
      ++ codes "' requested denied capability "
      ++ debug_capability cap
  detail_text (verified name version class) =
      codes "plugin '"
      ++ f.from_utf8 name
      ++ codes "' v"
      ++ show_version version
      ++ codes " verified ("
      ++ debug_class class
      ++ codes ")"
  detail_text (issued_ref r) = codes "stamp issued ref=" ++ r
  detail_text (invalidated_ref r) = codes "stamp invalidated ref=" ++ r
  detail_text (recorded s) = s
