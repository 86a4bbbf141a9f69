-- ===== src/GuestPath/Tests.antt =====
-- Concrete paths and manifests for composed-fs/src/lib.rs and composed-fs/src/manifest.rs.
use wrapper.Common.{◌≡◌, refl, true, false, none, some, List, [], ◌∷◌, Bytes, bytes_eq, split}
use wrapper.GuestPath.{
  Checked, ok, err, invalid_component, components_of, path_components, normalize_guest_path,
  validate_single_path_component, MountSpec, validate_mount, check_mounts, Manifest, no_mount,
  validate_manifest,
}
use wrapper.GuestPath.Normal.{Normal, normalize_guest_path-Normal}
use wrapper.GuestPath.Mounts.{Mounted, validate_manifest-Mounted}

-- "//a/b/" and "/a/b".
abbrev slashed : Bytes
slashed = b'/' ∷ b'/' ∷ b'a' ∷ b'/' ∷ b'b' ∷ b'/' ∷ []

abbrev plain_path : Bytes
plain_path = b'/' ∷ b'a' ∷ b'/' ∷ b'b' ∷ []

normalize_slashed : normalize_guest_path slashed ≡ ok plain_path
unfolding normalize_guest_path path_components components_of split bytes_eq
normalize_slashed = refl

-- "/a/..".
normalize_dots :
    normalize_guest_path (b'/' ∷ b'a' ∷ b'/' ∷ b'.' ∷ b'.' ∷ []) ≡ err invalid_component
unfolding normalize_guest_path path_components components_of split bytes_eq
normalize_dots = refl

normalize_guest_path-Normal_example : Normal plain_path
normalize_guest_path-Normal_example =
    normalize_guest_path-Normal slashed plain_path normalize_slashed

abbrev mount_ab : MountSpec
mount_ab = record {
  id = b'm' ∷ [];
  guest_path = slashed;
  host_path = plain_path;
  kind = wrapper.GuestPath.kind_dir;
  access = wrapper.GuestPath.access_rw;
  source_class = wrapper.GuestPath.workspace;
  required = true;
  bind = true;
  metadata = record {
    uid_gid = wrapper.GuestPath.host_policy;
    permissions = wrapper.GuestPath.host_policy;
  };
}

abbrev one_mount : Manifest
one_mount = record {
  schema_version = 1;
  mounts = mount_ab ∷ [];
  export_tag = none;
  created_by = none;
  synthetic = some (record { uid = 0; gid = 0; dir_mode = b'0' ∷ b'o' ∷ b'7' ∷ b'5' ∷ b'5' ∷ [] });
  shadow_root = none;
  filters = [];
  protected_guest_paths = (b'/' ∷ b'p' ∷ []) ∷ [];
}

validate_one_mount : validate_manifest 1 one_mount ≡ none
unfolding validate_manifest wrapper.GuestPath.parse_octal_mode wrapper.GuestPath.octal_from
    check_mounts validate_mount validate_single_path_component normalize_guest_path path_components
    components_of split bytes_eq
validate_one_mount = refl

validate_manifest-Mounted_example :
    (one_mount.schema_version ≡ 1)
    × ((no_mount one_mount.mounts ≡ false)
        × ((paths : List Bytes) × Mounted one_mount.protected_guest_paths one_mount.mounts paths))
validate_manifest-Mounted_example = validate_manifest-Mounted 1 one_mount validate_one_mount
