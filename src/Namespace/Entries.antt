-- ===== src/Namespace/Entries.antt =====
-- Shadow nodes and the entries of lookups in composed-fs/src/namespace.rs.
use wrapper.Common.{
  ℕ, ◌+◌, ◌%◌, ◌^◌, ◌<◌, min, ◌≡◌, refl, sym, ap, subst, Option, none, some, Bytes, ◌==◌,
  Option-cases, inl, inr, arith,
}
use wrapper.Namespace.{
  Metadata, Attr, attr_from_metadata, NodeKind, shadow, same_host, same_shadow, Node, Namespace,
  host_key, shadow_key, insert_node, get_or_create_host_node, get_or_create_shadow_node, refresh,
  new_node, add_lookup, count_lookup, entry_for_host_metadata, entry_for_shadow_metadata, u64_max,
}
use wrapper.Namespace.Maps.{get, insert, insert_same}
use wrapper.Namespace.Agree.{Agrees-skip, Agrees-add}
use wrapper.Namespace.Invariant.{
  same_shadow_sound, same_shadow_refl, host_key_of, shadow_key_of, IsValid, Below-insert,
  IsValid-replace,
}
use wrapper.Namespace.Create.{
  next_inode_free, lookups, lookups_at, Created, get_or_create_host_node-Created,
}

module _ (Rest : Type 0) where
  shadow_existing :
      (m i : ℕ) (p : Bytes) (d : Metadata Rest) (ns : Namespace Rest) (n : Node Rest)
      → get ns.shadow_inodes (shadow_key Rest m p) ≡ some i
      → get ns.nodes i ≡ some n
      → get_or_create_shadow_node Rest m p d ns
        ≡ (i, record ns { nodes = insert ◌==◌ i (refresh Rest n i n.kind d) ns.nodes })
  unfolding get_or_create_shadow_node
  shadow_existing m i p d ns n h e = rw (get_or_create_shadow_node, h, e) refl

  abbrev shadow_added : ℕ → Bytes → Metadata Rest → Namespace Rest → Namespace Rest
  shadow_added m p d ns = record ns {
    nodes = insert ◌==◌ ns.next_inode (new_node Rest ns.next_inode (shadow m p) d) ns.nodes;
    shadow_inodes = insert same_shadow (shadow_key Rest m p) ns.next_inode ns.shadow_inodes;
    next_inode = (ns.next_inode + 1) % 2 ^ 64;
  }

  shadow_new :
      (m : ℕ) (p : Bytes) (d : Metadata Rest) (ns : Namespace Rest)
      → get ns.shadow_inodes (shadow_key Rest m p) ≡ none
      → get_or_create_shadow_node Rest m p d ns ≡ (ns.next_inode, shadow_added m p d ns)
  unfolding get_or_create_shadow_node insert_node
  shadow_new m p d ns h = rw (get_or_create_shadow_node, h) refl

  shadow_added-IsValid :
      (m : ℕ) (p : Bytes) (d : Metadata Rest) (ns : Namespace Rest)
      → IsValid Rest ns
      → ns.next_inode + 1 < 2 ^ 64
      → get ns.shadow_inodes (shadow_key Rest m p) ≡ none
      → IsValid Rest (shadow_added m p d ns)
  shadow_added-IsValid m p d ns v b h =
      let free = next_inode_free Rest ns v in
      let n = new_node Rest ns.next_inode (shadow m p) d in
      record {
        below =
            Below-insert Rest ns.nodes ns.next_inode ((ns.next_inode + 1) % 2 ^ 64) ns.next_inode n
              v.below (omega arith) (omega arith) refl;
        hosts =
            Agrees-skip Rest same_host host_key_of ns.nodes ns.host_inodes v.hosts ns.next_inode n
              free refl;
        shadows =
            Agrees-add Rest same_shadow shadow_key_of ns.nodes ns.shadow_inodes v.shadows
              ns.next_inode n same_shadow_sound same_shadow_refl (shadow_key Rest m p) free h refl;
      }

  -- While inodes are left, get_or_create_shadow_node keeps the tables valid and returns the inode of a
  -- node for the mount and the path.
  pub get_or_create_shadow_node-Created :
      (m : ℕ) (p : Bytes) (d : Metadata Rest) (ns : Namespace Rest)
      → IsValid Rest ns
      → ns.next_inode + 1 < 2 ^ 64
      → Created Rest shadow_key_of
          (shadow_key Rest m p)
          (lookups Rest ns (get ns.shadow_inodes (shadow_key Rest m p)))
          (get_or_create_shadow_node Rest m p d ns)
  get_or_create_shadow_node-Created m p d ns v b =
      elim (Option-cases (get ns.shadow_inodes (shadow_key Rest m p))) [
        | inl h ↦
            subst
              (Created Rest shadow_key_of (shadow_key Rest m p)
                (lookups Rest ns (get ns.shadow_inodes (shadow_key Rest m p))))
              (sym (shadow_new m p d ns h))
              (
                shadow_added-IsValid m p d ns v b h,
                (
                  _,
                  (
                    insert_same ◌==◌ ns.next_inode ns.next_inode _ ns.nodes (ground arith),
                    (refl, rw h refl),
                  ),
                ),
              )
        | inr (i, h) ↦
            let (n, (at, key)) = v.shadows.sound (shadow_key Rest m p) i h in
            subst
              (Created Rest shadow_key_of (shadow_key Rest m p)
                (lookups Rest ns (get ns.shadow_inodes (shadow_key Rest m p))))
              (sym (shadow_existing m i p d ns n h at))
              (
                IsValid-replace Rest ns i n _ v at refl refl refl,
                (
                  _,
                  (
                    insert_same ◌==◌ i i _ ns.nodes (ground arith),
                    (key, rw h (sym (lookups_at Rest ns i n at))),
                  ),
                ),
              )
      ]

  -- An entry: no panic, valid tables, the attribute of a node with the key, and the count of
  -- lookups before it with one more, which stops at the largest u64.
  abbrev pub Entered :
      {K : Type 0} → (NodeKind → Option K) → K → ℕ → Option (Attr Rest × Namespace Rest) → Type 0
  Entered key_of key count r =
      (attr : Attr Rest) × ((ns : Namespace Rest) × ((r ≡ some (attr, ns))
          × (IsValid Rest ns
              × ((n : Node Rest) × ((get ns.nodes attr.ino ≡ some n)
                    × ((key_of n.kind ≡ some key) × (n.lookup_count ≡ min (count + 1) u64_max)))))))

  add_lookup-Entered :
      {K : Type 0} (key_of : NodeKind → Option K) (key : K) (d : Metadata Rest) (count : ℕ)
      (r : ℕ × Namespace Rest)
      → Created Rest key_of key count r
      → Entered key_of key count (add_lookup Rest d r)
  add_lookup-Entered key_of key d count (i, ns) (v, (n, (at, (k, c)))) =
      let n' = count_lookup Rest d i n in
      (
        attr_from_metadata i d,
        (
          record ns { nodes = insert ◌==◌ i n' ns.nodes },
          (
            rw (add_lookup, at) refl,
            (
              IsValid-replace Rest ns i n n' v at refl refl refl,
              (
                n',
                (
                  insert_same ◌==◌ i i n' ns.nodes (ground arith),
                  (k, ap (λ x. min (x + 1) u64_max) c),
                ),
              ),
            ),
          ),
        ),
      )

  -- While inodes are left, a lookup of a host file on valid tables does not panic, keeps the tables
  -- valid, and leaves a node for the mount and the identity under the inode of the entry. Its
  -- count of lookups is what it was for that mount and identity before, 0 for a new node, and one
  -- more, at most the largest u64.
  pub entry_for_host_metadata-Entered :
      (m : ℕ) (p : Bytes) (d : Metadata Rest) (ns : Namespace Rest)
      → IsValid Rest ns
      → ns.next_inode + 1 < 2 ^ 64
      → Entered host_key_of
          (host_key Rest m d)
          (lookups Rest ns (get ns.host_inodes (host_key Rest m d)))
          (entry_for_host_metadata Rest m p d ns)
  unfolding entry_for_host_metadata
  entry_for_host_metadata-Entered m p d ns v b =
      add_lookup-Entered host_key_of (host_key Rest m d) d
        (lookups Rest ns (get ns.host_inodes (host_key Rest m d)))
        (get_or_create_host_node Rest m p d ns) (get_or_create_host_node-Created Rest m p d ns v b)

  -- While inodes are left, a lookup of a shadow file on valid tables does not panic, keeps the tables
  -- valid, and leaves a node for the mount and the path under the inode of the entry. Its
  -- count of lookups is what it was before, 0 for a new node, and one more, at most the largest u64.
  pub entry_for_shadow_metadata-Entered :
      (m : ℕ) (p : Bytes) (d : Metadata Rest) (ns : Namespace Rest)
      → IsValid Rest ns
      → ns.next_inode + 1 < 2 ^ 64
      → Entered shadow_key_of
          (shadow_key Rest m p)
          (lookups Rest ns (get ns.shadow_inodes (shadow_key Rest m p)))
          (entry_for_shadow_metadata Rest m p d ns)
  unfolding entry_for_shadow_metadata
  entry_for_shadow_metadata-Entered m p d ns v b =
      add_lookup-Entered shadow_key_of (shadow_key Rest m p) d
        (lookups Rest ns (get ns.shadow_inodes (shadow_key Rest m p)))
        (get_or_create_shadow_node Rest m p d ns) (get_or_create_shadow_node-Created m p d ns v b)
