-- ===== src/Security/Policy.antt =====
-- Manifests, capabilities and the policy that grants them.
pub mod Paths
use wyrtloom.Base.{
  ℕ, ◌≡◌, Bool, true, false, not, ◌&&◌, ◌||◌, Option, none, some, List, [], ◌∷◌, ◌++◌, any, all,
  as_bytes, ltb, leb, ◌==◌, if◌then◌else◌, length,
}
use wyrtloom.Canon.{Bytes}

pub data PluginClass : Type 0 where
  safe unsafe : PluginClass

pub data Capability : Type 0 where
  file_read file_write network : Bytes → Capability
  shell git : Capability

pub record SemVer : Type 0 where
  pub major : ℕ
  pub minor : ℕ
  pub patch : ℕ

unfoldable pub is_compatible_with : SemVer → SemVer → Bool
is_compatible_with v required = v.major == required.major && leb required.minor v.minor

pub record PluginManifest : Type 0 where
  pub name : Bytes
  pub version : SemVer
  pub class : PluginClass
  pub capabilities : List Capability
  pub implements : List (Bytes × SemVer)

pub data NameError : Type 0 where
  empty_name bad_characters : NameError
  too_long : ℕ → NameError

abbrev pub is_name_char : ℕ → Bool
is_name_char c = (leb b'a' c && leb c b'z') || (leb b'0' c && leb c b'9') || c == b'-' || c == b'_'

-- none: the name is valid. Over ASCII names, which alone pass the last test, bytes are characters.
unfoldable pub validate_name : Bytes → Option NameError
validate_name name =
    if length name == 0
    then some empty_name
    else if ltb 64 (length name)
    then some (too_long (length name))
    else if not (all is_name_char name)
    then some bad_characters
    else none

pub record SecurityPolicy : Type 0 where
  pub file_read_prefixes : List Bytes
  pub file_write_prefixes : List Bytes
  pub network_allowlist : List Bytes
  pub allow_shell : Bool
  pub allow_git : Bool

unfoldable pub deny_all : SecurityPolicy
deny_all = record {
  file_read_prefixes = [];
  file_write_prefixes = [];
  network_allowlist = [];
  allow_shell = false;
  allow_git = false;
}

-- `permissive`, which is also the default: "/tmp" and ".", "localhost" and "127.0.0.1".
unfoldable pub permissive : SecurityPolicy
permissive = record {
  file_read_prefixes = as_bytes "/tmp" ∷ as_bytes "." ∷ [];
  file_write_prefixes = as_bytes "/tmp" ∷ as_bytes "." ∷ [];
  network_allowlist = as_bytes "localhost" ∷ as_bytes "127.0.0.1" ∷ [];
  allow_shell = false;
  allow_git = true;
}

-- `==`, `starts_with`, `ends_with` and `contains("..")` on texts.
unfoldable pub bytes_eq : Bytes → Bytes → Bool
bytes_eq [] [] = true
bytes_eq [] (b ∷ bs) = false
bytes_eq (a ∷ xs) [] = false
bytes_eq (a ∷ xs) (b ∷ bs) = a == b && bytes_eq xs bs

unfoldable pub starts_with : Bytes → Bytes → Bool
starts_with s [] = true
starts_with [] (b ∷ bs) = false
starts_with (a ∷ s) (b ∷ bs) = a == b && starts_with s bs

unfoldable pub ends_with : Bytes → Bytes → Bool
unfolding bytes_eq
ends_with [] suffix = bytes_eq [] suffix
ends_with (a ∷ s) suffix = bytes_eq (a ∷ s) suffix || ends_with s suffix

unfoldable pub contains_dots : Bytes → Bool
unfolding starts_with
contains_dots [] = false
contains_dots (a ∷ s) = starts_with (a ∷ s) (b'.' ∷ b'.' ∷ []) || contains_dots s

-- `trim_end_matches('/')`
unfoldable pub trim_end_slashes : Bytes → Bytes
trim_end_slashes [] = []
trim_end_slashes (a ∷ s) = elim (trim_end_slashes s) [
  | [] ↦ if a == b'/' then [] else a ∷ []
  | b ∷ t ↦ a ∷ b ∷ t
]

unfoldable pub under_prefix : Bytes → Bytes → Bool
unfolding trim_end_slashes bytes_eq starts_with
under_prefix path prefix =
    let p = trim_end_slashes prefix in bytes_eq path p || starts_with path (p ++ b'/' ∷ [])

unfoldable pub check_file_path : Bytes → List Bytes → Bool
check_file_path path prefixes =
    if contains_dots path then false else any (under_prefix path) prefixes

unfoldable pub is_allowed : SecurityPolicy → Capability → Bool
is_allowed p (file_read path) = check_file_path path p.file_read_prefixes
is_allowed p (file_write path) = check_file_path path p.file_write_prefixes
is_allowed p (network host) =
    any (λ allowed. bytes_eq host allowed || ends_with host (b'.' ∷ allowed)) p.network_allowlist
is_allowed p shell = p.allow_shell
is_allowed p git = p.allow_git
