-- ===== src/Namespace/Tests.antt =====
-- Concrete tables for composed-fs/src/namespace.rs.
use wrapper.Common.{none, some, [], ◌∷◌, Bytes, ◌==◌, arith, if◌then◌else◌}
use mathlib.Core.Option.{none-ne-some}
use wrapper.Namespace.{
  Metadata, host, Node, Namespace, host_key, get_or_create_host_node, entry_for_host_metadata,
  entry_for_shadow_metadata, shadow_key, forget_inode,
}
use wrapper.Namespace.Invariant.{host_key_of, shadow_key_of, IsValid}
use wrapper.Namespace.Create.{get_or_create_host_node-Created}
use wrapper.Namespace.Entries.{
  Entered, entry_for_host_metadata-Entered, entry_for_shadow_metadata-Entered,
}
use wrapper.Namespace.Forget.{forget_inode-IsValid}

abbrev NoRest : Type 0
NoRest = Unit {0}

-- The namespace before the first node.
abbrev empty_namespace : Namespace NoRest
empty_namespace = record {
  nodes = λ i. none;
  children = λ i. none;
  host_inodes = λ k. none;
  shadow_inodes = λ k. none;
  next_inode = 2;
}

empty_namespace-IsValid : IsValid NoRest empty_namespace
empty_namespace-IsValid = record {
  below = λ i n h. elim (none-ne-some n h) [ ];
  hosts = record {
    sound = λ k i h. elim (none-ne-some i h) [ ];
    complete = λ i n k h e. elim (none-ne-some n h) [ ];
  };
  shadows = record {
    sound = λ k i h. elim (none-ne-some i h) [ ];
    complete = λ i n k h e. elim (none-ne-some n h) [ ];
  };
}

abbrev file_metadata : Metadata NoRest
file_metadata = record { dev = 3; ino = 40; mode = 33188; uid = 0; gid = 0; rest = tt }

abbrev file_path : Bytes
file_path = b'a' ∷ []

-- The namespace with that file, not looked up yet.
abbrev with_file : Namespace NoRest
with_file = (get_or_create_host_node NoRest 0 file_path file_metadata empty_namespace).1

with_file-IsValid : IsValid NoRest with_file
with_file-IsValid =
    (get_or_create_host_node-Created NoRest 0 file_path file_metadata empty_namespace
      empty_namespace-IsValid (omega arith)).0

entry_for_host_metadata-Entered_example :
    Entered NoRest host_key_of
      (host_key NoRest 0 file_metadata)
      0
      (entry_for_host_metadata NoRest 0 file_path file_metadata empty_namespace)
entry_for_host_metadata-Entered_example =
    entry_for_host_metadata-Entered NoRest 0 file_path file_metadata empty_namespace
      empty_namespace-IsValid (omega arith)

entry_for_shadow_metadata-Entered_example :
    Entered NoRest shadow_key_of
      (shadow_key NoRest 0 file_path)
      0
      (entry_for_shadow_metadata NoRest 0 file_path file_metadata empty_namespace)
entry_for_shadow_metadata-Entered_example =
    entry_for_shadow_metadata-Entered NoRest 0 file_path file_metadata empty_namespace
      empty_namespace-IsValid (omega arith)

-- One host file, looked up once.
abbrev file_node : Node NoRest
file_node = record {
  inode = 2;
  kind = host 0 file_path (record { dev = 3; ino = 40 });
  mode = 33188;
  uid = 0;
  gid = 0;
  lookup_count = 1;
  cached_attr = none;
}

abbrev one_file : Namespace NoRest
one_file = record {
  nodes = λ i. if 2 == i then some file_node else none;
  children = λ i. none;
  host_inodes = λ k. none;
  shadow_inodes = λ k. none;
  next_inode = 3;
}

forget_inode-IsValid_example : IsValid NoRest (forget_inode NoRest 2 1 with_file)
forget_inode-IsValid_example = forget_inode-IsValid NoRest 2 1 with_file with_file-IsValid
