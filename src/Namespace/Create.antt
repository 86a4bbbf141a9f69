-- ===== src/Namespace/Create.antt =====
-- The creation of nodes in composed-fs/src/namespace.rs keeps the tables valid.
use mathlib.Core.Option.{some-injective}
use wrapper.Common.{
  ℕ, ◌+◌, ◌%◌, ◌^◌, ◌<◌, ◌≡◌, refl, sym, ap, subst, ◌∙◌, Option, none, some, Bytes, ◌==◌,
  Bool-cases, Option-cases, inl, inr, arith,
}
use wrapper.Namespace.{
  HostIdentity, Metadata, identity_from_metadata, NodeKind, synthetic_dir, overlay_dir, mount_root,
  host, shadow, same_host, same_shadow, Node, Namespace, host_key, insert_node,
  get_or_create_host_node, set_host_path, refresh, new_node,
}
use wrapper.Namespace.Maps.{get, insert, insert_same}
use wrapper.Namespace.Agree.{Agrees-skip, Agrees-add}
use wrapper.Namespace.Invariant.{
  same_host_sound, same_host_refl, host_key_of, shadow_key_of, IsValid, Below-insert,
  IsValid-replace,
}

module _ (Rest : Type 0) where
  set_host_path_lem :
      (kind : NodeKind) (m : ℕ) (p : Bytes) (d : HostIdentity)
      → host_key_of kind ≡ some (record { mount = m; identity = d })
      → (host_key_of (set_host_path Rest kind m p d) ≡ host_key_of kind)
        × (shadow_key_of (set_host_path Rest kind m p d) ≡ shadow_key_of kind)
  set_host_path_lem (host mount path identity) m p d h =
      let e =
        some-injective (record { mount = mount; identity = identity })
          (record { mount = m; identity = d }) h in
      let em : mount ≡ m = ap (λ k. k.mount) e in
      let ei : identity ≡ d = ap (λ k. k.identity) e in
      elim (Bool-cases (mount == m)) [
        | inl b ↦ rw b (ap (λ x. some (record { mount = mount; identity = x })) (sym ei), refl)
        | inr b ↦ ground arith
      ]
  set_host_path_lem synthetic_dir m p d h = (refl, refl)
  set_host_path_lem (overlay_dir mount path) m p d h = (refl, refl)
  set_host_path_lem (mount_root mount) m p d h = (refl, refl)
  set_host_path_lem (shadow mount path) m p d h = (refl, refl)

  -- The next inode is free.
  pub next_inode_free : (ns : Namespace Rest) → IsValid Rest ns → get ns.nodes ns.next_inode ≡ none
  next_inode_free ns v = elim (Option-cases (get ns.nodes ns.next_inode)) [
    | inl e ↦ e
    | inr (n, e) ↦ let (l, k) = v.below ns.next_inode n e in ground arith
  ]

  -- The lookups counted for what a key table gives for a key.
  abbrev pub lookups : Namespace Rest → Option ℕ → ℕ
  lookups ns none = 0
  lookups ns (some i) = elim (get ns.nodes i) [ none ↦ 0 | some n ↦ n.lookup_count ]

  pub lookups_at :
      (ns : Namespace Rest) (i : ℕ) (n : Node Rest)
      → get ns.nodes i ≡ some n
      → lookups ns (some i) ≡ n.lookup_count
  lookups_at ns i n e = rw (lookups, e) refl

  -- The tables are valid, and the inode is that of a node with the key and the count of lookups.
  abbrev pub Created : {K : Type 0} → (NodeKind → Option K) → K → ℕ → ℕ × Namespace Rest → Type 0
  Created key_of key count r =
      IsValid Rest r.1
      × ((n : Node Rest) × ((get r.1.nodes r.0 ≡ some n)
            × ((key_of n.kind ≡ some key) × (n.lookup_count ≡ count))))

  host_existing :
      (m i : ℕ) (p : Bytes) (d : Metadata Rest) (ns : Namespace Rest) (n : Node Rest)
      → get ns.host_inodes (host_key Rest m d) ≡ some i
      → get ns.nodes i ≡ some n
      → get_or_create_host_node Rest m p d ns ≡ (
        i,
        record ns {
          nodes =
              insert ◌==◌ i
                (refresh Rest n i (set_host_path Rest n.kind m p (identity_from_metadata d)) d)
                ns.nodes;
        },
      )
  unfolding get_or_create_host_node
  host_existing m i p d ns n h e = rw (get_or_create_host_node, h, e) refl

  abbrev host_added : ℕ → Bytes → Metadata Rest → Namespace Rest → Namespace Rest
  host_added m p d ns = record ns {
    nodes =
        insert ◌==◌ ns.next_inode
          (new_node Rest ns.next_inode (host m p (identity_from_metadata d)) d) ns.nodes;
    host_inodes = insert same_host (host_key Rest m d) ns.next_inode ns.host_inodes;
    next_inode = (ns.next_inode + 1) % 2 ^ 64;
  }

  host_new :
      (m : ℕ) (p : Bytes) (d : Metadata Rest) (ns : Namespace Rest)
      → get ns.host_inodes (host_key Rest m d) ≡ none
      → get_or_create_host_node Rest m p d ns ≡ (ns.next_inode, host_added m p d ns)
  unfolding get_or_create_host_node insert_node
  host_new m p d ns h = rw (get_or_create_host_node, h) refl

  host_added-IsValid :
      (m : ℕ) (p : Bytes) (d : Metadata Rest) (ns : Namespace Rest)
      → IsValid Rest ns
      → ns.next_inode + 1 < 2 ^ 64
      → get ns.host_inodes (host_key Rest m d) ≡ none
      → IsValid Rest (host_added m p d ns)
  host_added-IsValid m p d ns v b h =
      let free = next_inode_free ns v in
      let n = new_node Rest ns.next_inode (host m p (identity_from_metadata d)) d in
      record {
        below =
            Below-insert Rest ns.nodes ns.next_inode ((ns.next_inode + 1) % 2 ^ 64) ns.next_inode n
              v.below (omega arith) (omega arith) refl;
        hosts =
            Agrees-add Rest same_host host_key_of ns.nodes ns.host_inodes v.hosts ns.next_inode n
              same_host_sound same_host_refl (host_key Rest m d) free h refl;
        shadows =
            Agrees-skip Rest same_shadow shadow_key_of ns.nodes ns.shadow_inodes v.shadows
              ns.next_inode n free refl;
      }

  -- While inodes are left, get_or_create_host_node keeps the tables valid and returns the inode of a
  -- node for the mount and the identity of the file, whose count of lookups is as before.
  pub get_or_create_host_node-Created :
      (m : ℕ) (p : Bytes) (d : Metadata Rest) (ns : Namespace Rest)
      → IsValid Rest ns
      → ns.next_inode + 1 < 2 ^ 64
      → Created host_key_of
          (host_key Rest m d)
          (lookups ns (get ns.host_inodes (host_key Rest m d)))
          (get_or_create_host_node Rest m p d ns)
  get_or_create_host_node-Created m p d ns v b =
      elim (Option-cases (get ns.host_inodes (host_key Rest m d))) [
        | inl h ↦
            subst
              (Created host_key_of (host_key Rest m d)
                (lookups ns (get ns.host_inodes (host_key Rest m d))))
              (sym (host_new m p d ns h))
              (
                host_added-IsValid m p d ns v b h,
                (
                  _,
                  (
                    insert_same ◌==◌ ns.next_inode ns.next_inode _ ns.nodes (ground arith),
                    (refl, rw h refl),
                  ),
                ),
              )
        | inr (i, h) ↦
            let (n, (at, key)) = v.hosts.sound (host_key Rest m d) i h in
            let (eh, es) = set_host_path_lem n.kind m p (identity_from_metadata d) key in
            subst
              (Created host_key_of (host_key Rest m d)
                (lookups ns (get ns.host_inodes (host_key Rest m d))))
              (sym (host_existing m i p d ns n h at))
              (
                IsValid-replace Rest ns i n _ v at refl eh es,
                (
                  _,
                  (
                    insert_same ◌==◌ i i _ ns.nodes (ground arith),
                    (eh ∙ key, rw h (sym (lookups_at ns i n at))),
                  ),
                ),
              )
      ]
