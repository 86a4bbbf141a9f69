-- ===== src/Namespace.antt =====
-- The inode tables of composed-fs/src/namespace.rs: the nodes for host and shadow files, their
-- lookup counts, and when they are forgotten. A HashMap is a function to options; a u64 that
-- saturates does so below 2 ^ 64, and one that is increased wraps there.
pub mod Maps
pub mod Keys
pub mod Agree
pub mod Invariant
pub mod Create
pub mod Entries
pub mod Forget
pub mod Tests
use wrapper.Common.{
  ℕ, ◌+◌, ◌-◌, ◌%◌, ◌^◌, ◌≡◌, min, Bool, true, false, not, ◌&&◌, ◌||◌, Option, none, some, List, [],
  ◌∷◌, Bytes, bytes_eq, ◌==◌, if◌then◌else◌,
}
use Maps.{Map, get, insert, remove}
unfoldable pub use Keys.*

abbrev pub root_id : ℕ
root_id = 1

abbrev pub u64_max : ℕ
u64_max = 2 ^ 64 - 1

module _ (Rest : Type 0) where
  pub record Node : Type 0 where
    pub inode : ℕ
    pub kind : NodeKind
    pub mode : ℕ
    pub uid : ℕ
    pub gid : ℕ
    pub lookup_count : ℕ
    pub cached_attr : Option (Attr Rest)

  -- The fields of `Namespace` that change; a directory's children are the list of their inodes.
  pub record Namespace : Type 0 where
    pub nodes : Map ℕ Node
    pub children : Map ℕ (List ℕ)
    pub host_inodes : Map HostKey ℕ
    pub shadow_inodes : Map ShadowKey ℕ
    pub next_inode : ℕ

  -- `allocate_inode`: the inode, and the next one.
  abbrev pub allocate_inode : ℕ → ℕ × ℕ
  allocate_inode next = (next, (next + 1) % 2 ^ 64)

  abbrev holds_children : NodeKind → Bool
  holds_children synthetic_dir = true
  holds_children (overlay_dir mount path) = true
  holds_children (mount_root mount) = true
  holds_children (host mount path identity) = false
  holds_children (shadow mount path) = false

  -- `entry(inode).or_default()`.
  abbrev or_default : Map ℕ (List ℕ) → ℕ → Map ℕ (List ℕ)
  or_default children inode = elim (get children inode) [
    | none ↦ insert ◌==◌ inode [] children
    | some _ ↦ children
  ]

  unfoldable pub insert_node : Node → Namespace → Namespace
  insert_node node ns = record ns {
    children = if holds_children node.kind then or_default ns.children node.inode else ns.children;
    nodes = insert ◌==◌ node.inode node ns.nodes;
  }

  abbrev pub set_host_path : NodeKind → ℕ → Bytes → HostIdentity → NodeKind
  set_host_path (host mount known known_identity) mount_index path identity =
      if mount == mount_index then host mount path identity else host mount known known_identity
  set_host_path kind mount_index path identity = kind

  abbrev pub refresh : Node → ℕ → NodeKind → Metadata Rest → Node
  refresh node inode kind metadata = record node {
    kind = kind;
    mode = metadata.mode;
    uid = metadata.uid;
    gid = metadata.gid;
    cached_attr = some (attr_from_metadata inode metadata);
  }

  abbrev pub new_node : ℕ → NodeKind → Metadata Rest → Node
  new_node inode kind metadata = record {
    inode = inode;
    kind = kind;
    mode = metadata.mode;
    uid = metadata.uid;
    gid = metadata.gid;
    lookup_count = 0;
    cached_attr = some (attr_from_metadata inode metadata);
  }

  abbrev pub host_key : ℕ → Metadata Rest → HostKey
  host_key mount metadata = record { mount = mount; identity = identity_from_metadata metadata }

  unfoldable pub get_or_create_host_node : ℕ → Bytes → Metadata Rest → Namespace → ℕ × Namespace
  unfolding insert_node
  get_or_create_host_node mount_index path metadata ns =
      elim (get ns.host_inodes (host_key mount_index metadata)) [
        | some inode ↦ (
          inode,
          elim (get ns.nodes inode) [
            | none ↦ ns
            | some node ↦
                let kind =
                  set_host_path node.kind mount_index path (identity_from_metadata metadata) in
                record ns { nodes = insert ◌==◌ inode (refresh node inode kind metadata) ns.nodes }
          ],
        )
        | none ↦
            let (inode, next) = allocate_inode ns.next_inode in
            let kind = host mount_index path (identity_from_metadata metadata) in
            let ns1 =
              insert_node (new_node inode kind metadata) (record ns { next_inode = next }) in
            (
              inode,
              record ns1 {
                host_inodes =
                    insert same_host (host_key mount_index metadata) inode ns1.host_inodes;
              },
            )
      ]

  abbrev pub shadow_key : ℕ → Bytes → ShadowKey
  shadow_key mount path = record { mount = mount; relative_path = path }

  unfoldable pub get_or_create_shadow_node : ℕ → Bytes → Metadata Rest → Namespace → ℕ × Namespace
  unfolding insert_node
  get_or_create_shadow_node mount_index path metadata ns =
      elim (get ns.shadow_inodes (shadow_key mount_index path)) [
        | some inode ↦ (
          inode,
          elim (get ns.nodes inode) [
            | none ↦ ns
            | some node ↦ record ns {
              nodes = insert ◌==◌ inode (refresh node inode node.kind metadata) ns.nodes;
            }
          ],
        )
        | none ↦
            let (inode, next) = allocate_inode ns.next_inode in
            let ns1 =
              insert_node (new_node inode (shadow mount_index path) metadata)
                (record ns { next_inode = next }) in
            (
              inode,
              record ns1 {
                shadow_inodes =
                    insert same_shadow (shadow_key mount_index path) inode ns1.shadow_inodes;
              },
            )
      ]

  -- `node.lookup_count.saturating_add(1)` and the attribute of the entry.
  abbrev pub count_lookup : Metadata Rest → ℕ → Node → Node
  count_lookup metadata inode node = record node {
    lookup_count = min (node.lookup_count + 1) u64_max;
    cached_attr = some (attr_from_metadata inode metadata);
  }

  -- `none` is the panic of `expect`.
  abbrev pub add_lookup : Metadata Rest → ℕ × Namespace → Option (Attr Rest × Namespace)
  add_lookup metadata (inode, ns) = elim (get ns.nodes inode) [
    | none ↦ none
    | some node ↦ some (
      attr_from_metadata inode metadata,
      record ns { nodes = insert ◌==◌ inode (count_lookup metadata inode node) ns.nodes },
    )
  ]

  unfoldable pub entry_for_host_metadata :
      ℕ → Bytes → Metadata Rest → Namespace → Option (Attr Rest × Namespace)
  unfolding get_or_create_host_node
  entry_for_host_metadata mount_index path metadata ns =
      add_lookup metadata (get_or_create_host_node mount_index path metadata ns)

  unfoldable pub entry_for_shadow_metadata :
      ℕ → Bytes → Metadata Rest → Namespace → Option (Attr Rest × Namespace)
  unfolding get_or_create_shadow_node
  entry_for_shadow_metadata mount_index path metadata ns =
      add_lookup metadata (get_or_create_shadow_node mount_index path metadata ns)

  abbrev pub remove_node : ℕ → NodeKind → Namespace → Namespace
  remove_node inode (host mount path identity) ns = record ns {
    nodes = remove ◌==◌ inode ns.nodes;
    children = remove ◌==◌ inode ns.children;
    host_inodes = remove same_host (record { mount = mount; identity = identity }) ns.host_inodes;
  }
  remove_node inode (shadow mount path) ns = record ns {
    nodes = remove ◌==◌ inode ns.nodes;
    children = remove ◌==◌ inode ns.children;
    shadow_inodes = remove same_shadow (shadow_key mount path) ns.shadow_inodes;
  }
  remove_node inode kind ns = ns

  abbrev pub has_children : Option (List ℕ) → Bool
  has_children none = false
  has_children (some []) = false
  has_children (some (c ∷ cs)) = true

  unfoldable pub prune_cold_inode : ℕ → Namespace → Namespace
  prune_cold_inode inode ns = elim (get ns.nodes inode) [
    | none ↦ ns
    | some node ↦
        if not (node.lookup_count == 0) || has_children (get ns.children inode)
        then ns
        else remove_node inode node.kind ns
  ]

  abbrev pub sub_lookups : ℕ → ℕ → Namespace → Namespace
  sub_lookups inode count ns = elim (get ns.nodes inode) [
    | none ↦ ns
    | some node ↦ record ns {
      nodes = insert ◌==◌ inode (record node { lookup_count = node.lookup_count - count }) ns.nodes;
    }
  ]

  unfoldable pub forget_inode : ℕ → ℕ → Namespace → Namespace
  unfolding prune_cold_inode
  forget_inode inode count ns =
      if inode == root_id then ns else prune_cold_inode inode (sub_lookups inode count ns)
