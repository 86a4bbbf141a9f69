-- ===== src/Namespace/Keys.antt =====
-- The nodes' kinds, the keys of the tables and the attributes of composed-fs/src/namespace.rs.
use wrapper.Common.{ℕ, Bool, ◌&&◌, Bytes, bytes_eq, ◌==◌}

pub record HostIdentity : Type 0 where
  pub dev : ℕ
  pub ino : ℕ

-- What the tables use of `fs::Metadata`; the fields of an attribute that are only copied are `Rest`.
pub record Metadata (Rest : Type 0) : Type 0 where
  pub dev : ℕ
  pub ino : ℕ
  pub mode : ℕ
  pub uid : ℕ
  pub gid : ℕ
  pub rest : Rest

-- `fuse::Attr`.
pub record Attr (Rest : Type 0) : Type 0 where
  pub ino : ℕ
  pub mode : ℕ
  pub uid : ℕ
  pub gid : ℕ
  pub rest : Rest

abbrev pub attr_from_metadata : {Rest : Type 0} → ℕ → Metadata Rest → Attr Rest
attr_from_metadata inode metadata = record {
  ino = inode;
  mode = metadata.mode;
  uid = metadata.uid;
  gid = metadata.gid;
  rest = metadata.rest;
}

abbrev pub identity_from_metadata : {Rest : Type 0} → Metadata Rest → HostIdentity
identity_from_metadata metadata = record { dev = metadata.dev; ino = metadata.ino }

-- A path is its bytes.
pub data NodeKind : Type 0 where
  synthetic_dir : NodeKind
  overlay_dir : (mount : ℕ) → (relative_path : Bytes) → NodeKind
  mount_root : (mount : ℕ) → NodeKind
  host : (mount : ℕ) → (relative_path : Bytes) → HostIdentity → NodeKind
  shadow : (mount : ℕ) → (relative_path : Bytes) → NodeKind

pub record HostKey : Type 0 where
  pub mount : ℕ
  pub identity : HostIdentity

pub record ShadowKey : Type 0 where
  pub mount : ℕ
  pub relative_path : Bytes

-- The derived `==` of the keys.
abbrev pub same_host : HostKey → HostKey → Bool
same_host a b =
    (a.mount == b.mount)
    && ((a.identity.dev == b.identity.dev) && (a.identity.ino == b.identity.ino))

-- `PathBuf` compares components; the bytes decide on the paths of components joined by single slashes
-- that the code builds.
abbrev pub same_shadow : ShadowKey → ShadowKey → Bool
same_shadow a b = (a.mount == b.mount) && bytes_eq a.relative_path b.relative_path
