-- ===== src/GuestPath.antt =====
-- The checks of guest paths in composed-fs/src/lib.rs and of a manifest in
-- composed-fs/src/manifest.rs. Texts are their UTF-8 bytes; an io::Error is told apart by its text.
pub mod Normal
pub mod Mounts
pub mod Tests
use wrapper.Common.{
  ◌+◌, ◌-◌, ◌*◌, ◌^◌, ltb, leb, is_some, ℕ, ◌≡◌, Bool, true, false, not, ◌&&◌, ◌||◌, Option, none,
  some, List, [], ◌∷◌, ◌++◌, Bytes, bytes_eq, split, ◌==◌, if◌then◌else◌,
}

pub data PathError : Type 0 where
  not_absolute invalid_component nul_byte : PathError
  -- `parse_octal_mode`.
  invalid_mode : PathError
  unsupported_schema no_mounts protected_path root_mount duplicate_path : PathError
  empty_mount_id unsafe_mount_id relative_host_path : PathError

pub data Checked {ℓ} (A : Type ℓ) : Type ℓ where
  ok : A → Checked A
  err : PathError → Checked A

-- `contains` of one byte.
abbrev pub has_byte : ℕ → Bytes → Bool
has_byte b [] = false
has_byte b (c ∷ cs) = c == b || has_byte b cs

abbrev pub is_dots : Bytes → Bool
is_dots name = bytes_eq name (b'.' ∷ []) || bytes_eq name (b'.' ∷ b'.' ∷ [])

abbrev pub is_empty : Bytes → Bool
is_empty [] = true
is_empty (c ∷ cs) = false

-- `components.push`, in front of those of the parts behind.
abbrev pub with_component : Bytes → Checked (List Bytes) → Checked (List Bytes)
with_component component (ok components) = ok (component ∷ components)
with_component component (err e) = err e

-- The loop of `path_components`, on the parts of the path.
unfoldable pub components_of : List Bytes → Checked (List Bytes)
components_of [] = ok []
components_of (component ∷ parts) =
    let rest = components_of parts in
    if is_empty component
    then rest
    else if is_dots component
    then err invalid_component
    else if has_byte 0 component
    then err nul_byte
    else with_component component rest

unfoldable pub path_components : Bytes → Checked (List Bytes)
unfolding components_of
path_components path = components_of (split b'/' path)

-- `components.join("/")`.
abbrev pub join : List Bytes → Bytes
join [] = []
join (c ∷ []) = c
join (c ∷ d ∷ cs) = c ++ b'/' ∷ join (d ∷ cs)

abbrev pub starts_with_slash : Bytes → Bool
starts_with_slash [] = false
starts_with_slash (c ∷ cs) = c == b'/'

unfoldable pub normalize_guest_path : Bytes → Checked Bytes
unfolding path_components
normalize_guest_path path =
    if not (starts_with_slash path) then err not_absolute else elim (path_components path) [
      | err e ↦ err e
      | ok [] ↦ ok (b'/' ∷ [])
      | ok (c ∷ cs) ↦ ok (b'/' ∷ join (c ∷ cs))
    ]

-- `validate_single_path_component`; false is its error ENOENT.
unfoldable pub validate_single_path_component : Bytes → Bool
validate_single_path_component name =
    if is_empty name || (is_dots name || has_byte b'/' name) then false else not (has_byte 0 name)

pub data FilterAction : Type 0 where
  hide_and_shadow : FilterAction

pub record FilterSpec : Type 0 where
  pub mount_id : Option Bytes
  pub suffixes : List Bytes
  pub action : FilterAction

pub data MountKind : Type 0 where
  kind_dir kind_file : MountKind

pub data AccessMode : Type 0 where
  access_ro access_rw : AccessMode

pub data SourceClass : Type 0 where
  workspace persistent_home tool_state auth_config system_ro user_ro user_rw : SourceClass

pub data MetadataPolicy : Type 0 where
  host_policy : MetadataPolicy

pub record MetadataSpec : Type 0 where
  pub uid_gid : MetadataPolicy
  pub permissions : MetadataPolicy

pub record MountSpec : Type 0 where
  pub id : Bytes
  pub guest_path : Bytes
  pub host_path : Bytes
  pub kind : MountKind
  pub access : AccessMode
  pub source_class : SourceClass
  pub required : Bool
  pub bind : Bool
  pub metadata : MetadataSpec

pub record SyntheticSpec : Type 0 where
  pub uid : ℕ
  pub gid : ℕ
  pub dir_mode : Bytes

pub record Manifest : Type 0 where
  pub schema_version : ℕ
  pub export_tag : Option Bytes
  pub created_by : Option Bytes
  pub mounts : List MountSpec
  pub synthetic : Option SyntheticSpec
  pub protected_guest_paths : List Bytes
  pub shadow_root : Option Bytes
  pub filters : List FilterSpec

-- `MountSpec::validate`.
unfoldable pub validate_mount : MountSpec → Option PathError
unfolding validate_single_path_component
validate_mount mount =
    if is_empty mount.id
    then some empty_mount_id
    else if not (validate_single_path_component mount.id)
    then some unsafe_mount_id
    else if not (starts_with_slash mount.host_path)
    then some relative_host_path
    else none

abbrev pub any_equal : List Bytes → Bytes → Bool
any_equal [] path = false
any_equal (p ∷ ps) path = bytes_eq p path || any_equal ps path

-- The loop of `validate_manifest_json_shape` over the mounts; `none` is Ok.
unfoldable pub check_mounts : (protected seen : List Bytes) → List MountSpec → Option PathError
unfolding validate_mount normalize_guest_path
check_mounts protected seen [] = none
check_mounts protected seen (mount ∷ mounts) = elim (validate_mount mount) [
  | some e ↦ some e
  | none ↦ elim (normalize_guest_path mount.guest_path) [
    | err e ↦ some e
    | ok path ↦
        let rest = check_mounts protected (seen ++ path ∷ []) mounts in
        if any_equal protected path
        then some protected_path
        else if bytes_eq path (b'/' ∷ [])
        then some root_mount
        else if any_equal seen path
        then some duplicate_path
        else rest
  ]
]

abbrev octal_digit : ℕ → Option ℕ
octal_digit c = if leb b'0' c && leb c b'7' then some (c - b'0') else none

-- The digits of `u32::from_str_radix(_, 8)`.
unfoldable pub octal_from : ℕ → Bytes → Option ℕ
octal_from acc [] = some acc
octal_from acc (c ∷ cs) = elim (octal_digit c) [
  | none ↦ none
  | some d ↦ elim (ltb (2 ^ 32 - 1) (acc * 8 + d)) [
    | true ↦ none
    | false ↦ octal_from (acc * 8 + d) cs
  ]
]

abbrev octal_number : Bytes → Option ℕ
octal_number [] = none
octal_number (c ∷ []) = octal_from 0 (c ∷ [])
octal_number (c ∷ d ∷ cs) = if c == b'+' then octal_from 0 (d ∷ cs) else octal_from 0 (c ∷ d ∷ cs)

abbrev strip_octal : Bytes → Bytes
strip_octal (a ∷ b ∷ rest) = if a == b'0' && b == b'o' then rest else a ∷ b ∷ rest
strip_octal value = value

-- `none` is its error.
unfoldable pub parse_octal_mode : Bytes → Option ℕ
unfolding octal_from
parse_octal_mode value = octal_number (strip_octal value)

abbrev pub mode_fails : Option SyntheticSpec → Bool
mode_fails none = false
mode_fails (some synthetic) = not (is_some (parse_octal_mode synthetic.dir_mode))

abbrev pub no_mount : List MountSpec → Bool
no_mount [] = true
no_mount (mount ∷ mounts) = false

-- `validate_manifest_json_shape`, after the JSON text is read; `schema` is SCHEMA_VERSION.
unfoldable pub validate_manifest : ℕ → Manifest → Option PathError
unfolding check_mounts parse_octal_mode
validate_manifest schema manifest =
    if not (manifest.schema_version == schema)
    then some unsupported_schema
    else if no_mount manifest.mounts
    then some no_mounts
    else if mode_fails manifest.synthetic
    then some invalid_mode
    else check_mounts manifest.protected_guest_paths [] manifest.mounts
