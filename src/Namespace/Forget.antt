-- ===== src/Namespace/Forget.antt =====
-- Forgetting in composed-fs/src/namespace.rs: the tables stay valid, and only a node without lookups
-- and children is removed.
use wrapper.Common.{
  ℕ, ◌-◌, ◌≤◌, ◌≡◌, ◌≢◌, refl, sym, ap, ◌∙◌, true, false, not, ◌||◌, Option, none, some, ◌==◌,
  Bool-cases, Option-cases, inl, inr, ◌⊎◌, arith,
}
use wrapper.Namespace.{
  NodeKind, synthetic_dir, overlay_dir, mount_root, host, shadow, same_host, same_shadow, Node,
  Namespace, remove_node, has_children, prune_cold_inode, sub_lookups, forget_inode, root_id,
}
use wrapper.Namespace.Maps.{Map, get, remove, insert_same, insert_other, remove_cases, remove_other}
use wrapper.Namespace.Agree.{Agrees-drop, Agrees-remove}
use wrapper.Namespace.Invariant.{
  same_host_sound, same_host_refl, same_shadow_sound, same_shadow_refl, host_key_of, shadow_key_of,
  Below, IsValid, IsValid-replace,
}

module _ (Rest : Type 0) where
  Below-remove :
      (nodes : Map ℕ (Node Rest)) (next i : ℕ)
      → Below Rest nodes next
      → Below Rest (remove ◌==◌ i nodes) next
  Below-remove nodes next i b j x h = b j x (remove_cases ◌==◌ i j x nodes h).1

  remove_node-IsValid :
      (i : ℕ) (kind : NodeKind) (ns : Namespace Rest) (n : Node Rest)
      → IsValid Rest ns
      → get ns.nodes i ≡ some n
      → n.kind ≡ kind
      → IsValid Rest (remove_node Rest i kind ns)
  remove_node-IsValid i (host m p d) ns n v h e = record {
    below = Below-remove ns.nodes ns.next_inode i v.below;
    hosts =
        Agrees-remove Rest same_host host_key_of ns.nodes ns.host_inodes v.hosts i n same_host_sound
          same_host_refl n (record { mount = m; identity = d }) h (ap host_key_of e);
    shadows =
        Agrees-drop Rest same_shadow shadow_key_of ns.nodes ns.shadow_inodes v.shadows i n n h
          (ap shadow_key_of e);
  }
  remove_node-IsValid i (shadow m p) ns n v h e = record {
    below = Below-remove ns.nodes ns.next_inode i v.below;
    hosts =
        Agrees-drop Rest same_host host_key_of ns.nodes ns.host_inodes v.hosts i n n h
          (ap host_key_of e);
    shadows =
        Agrees-remove Rest same_shadow shadow_key_of ns.nodes ns.shadow_inodes v.shadows i n
          same_shadow_sound same_shadow_refl n (record { mount = m; relative_path = p }) h
          (ap shadow_key_of e);
  }
  remove_node-IsValid i synthetic_dir ns n v h e = v
  remove_node-IsValid i (overlay_dir m p) ns n v h e = v
  remove_node-IsValid i (mount_root m) ns n v h e = v

  prune_cold_inode-IsValid :
      (i : ℕ) (ns : Namespace Rest) → IsValid Rest ns → IsValid Rest (prune_cold_inode Rest i ns)
  unfolding prune_cold_inode
  prune_cold_inode-IsValid i ns v = elim (Option-cases (get ns.nodes i)) [
    | inl h ↦ rw (prune_cold_inode, h) v
    | inr (n, h) ↦
        elim (Bool-cases (not (n.lookup_count == 0) || has_children Rest (get ns.children i))) [
          | inl b ↦ rw (prune_cold_inode, h, b) v
          | inr b ↦ rw (prune_cold_inode, h, b) (remove_node-IsValid i n.kind ns n v h refl)
        ]
  ]

  sub_lookups-IsValid :
      (i count : ℕ) (ns : Namespace Rest)
      → IsValid Rest ns
      → IsValid Rest (sub_lookups Rest i count ns)
  sub_lookups-IsValid i count ns v = elim (Option-cases (get ns.nodes i)) [
    | inl h ↦ rw (sub_lookups, h) v
    | inr (n, h) ↦
        rw (sub_lookups, h)
          (IsValid-replace Rest ns i n (record n { lookup_count = n.lookup_count - count }) v h refl
            refl refl)
  ]

  -- forget_inode keeps valid tables valid, for every inode and count.
  pub forget_inode-IsValid :
      (i count : ℕ) (ns : Namespace Rest)
      → IsValid Rest ns
      → IsValid Rest (forget_inode Rest i count ns)
  unfolding forget_inode
  forget_inode-IsValid i count ns v = elim (Bool-cases (i == root_id)) [
    | inl r ↦ rw r v
    | inr r ↦ rw r (
        prune_cold_inode-IsValid i (sub_lookups Rest i count ns) (sub_lookups-IsValid i count ns v))
  ]

  removed_same : (i : ℕ) (nodes : Map ℕ (Node Rest)) → get (remove ◌==◌ i nodes) i ≡ none
  removed_same i nodes = let b : (i == i) ≡ true = ground arith in rw b refl

  remove_node_at :
      (i : ℕ) (kind : NodeKind) (ns : Namespace Rest)
      → (get (remove_node Rest i kind ns).nodes i ≡ get ns.nodes i)
        ⊎ (get (remove_node Rest i kind ns).nodes i ≡ none)
  remove_node_at i (host m p d) ns = inr (removed_same i ns.nodes)
  remove_node_at i (shadow m p) ns = inr (removed_same i ns.nodes)
  remove_node_at i synthetic_dir ns = inl refl
  remove_node_at i (overlay_dir m p) ns = inl refl
  remove_node_at i (mount_root m) ns = inl refl

  remove_node_other :
      (i j : ℕ) (kind : NodeKind) (ns : Namespace Rest)
      → (i == j) ≡ false
      → get (remove_node Rest i kind ns).nodes j ≡ get ns.nodes j
  remove_node_other i j (host m p d) ns b = remove_other ◌==◌ i j ns.nodes b
  remove_node_other i j (shadow m p) ns b = remove_other ◌==◌ i j ns.nodes b
  remove_node_other i j synthetic_dir ns b = refl
  remove_node_other i j (overlay_dir m p) ns b = refl
  remove_node_other i j (mount_root m) ns b = refl

  prune_other :
      (i j : ℕ) (ns : Namespace Rest)
      → (i == j) ≡ false
      → get (prune_cold_inode Rest i ns).nodes j ≡ get ns.nodes j
  unfolding prune_cold_inode
  prune_other i j ns c = elim (Option-cases (get ns.nodes i)) [
    | inl h ↦ rw (prune_cold_inode, h) refl
    | inr (n, h) ↦
        elim (Bool-cases (not (n.lookup_count == 0) || has_children Rest (get ns.children i))) [
          | inl b ↦ rw (prune_cold_inode, h, b) refl
          | inr b ↦ rw (prune_cold_inode, h, b) (remove_node_other i j n.kind ns c)
        ]
  ]

  -- The node stands, or it had no lookup and no child and is gone.
  abbrev Pruned : ℕ → Node Rest → Namespace Rest → Option (Node Rest) → Type 0
  Pruned i n ns after =
      (after ≡ some n)
      ⊎ ((n.lookup_count ≡ 0) × ((has_children Rest (get ns.children i) ≡ false) × (after ≡ none)))

  prune_at :
      (i : ℕ) (ns : Namespace Rest) (n : Node Rest)
      → get ns.nodes i ≡ some n
      → Pruned i n ns (get (prune_cold_inode Rest i ns).nodes i)
  unfolding prune_cold_inode
  prune_at i ns n h =
      elim (Bool-cases (not (n.lookup_count == 0) || has_children Rest (get ns.children i))) [
        | inl b ↦ inl (rw (prune_cold_inode, h, b) h)
        | inr b ↦ elim (remove_node_at i n.kind ns) [
          | inl k ↦ inl (rw (prune_cold_inode, h, b) (k ∙ h))
          | inr k ↦ inr (ground arith, (ground arith, rw (prune_cold_inode, h, b) k))
        ]
      ]

  sub_at :
      (i count : ℕ) (ns : Namespace Rest) (n : Node Rest)
      → get ns.nodes i ≡ some n
      → get (sub_lookups Rest i count ns).nodes i
        ≡ some (record n { lookup_count = n.lookup_count - count })
  sub_at i count ns n h =
      rw (sub_lookups, h)
        (insert_same ◌==◌ i i (record n { lookup_count = n.lookup_count - count }) ns.nodes
          (ground arith))

  sub_children :
      (i count : ℕ) (ns : Namespace Rest)
      → get (sub_lookups Rest i count ns).children i ≡ get ns.children i
  sub_children i count ns = elim (Option-cases (get ns.nodes i)) [
    | inl h ↦ rw (sub_lookups, h) refl
    | inr (n, h) ↦ rw (sub_lookups, h) refl
  ]

  sub_other :
      (i j count : ℕ) (ns : Namespace Rest)
      → (i == j) ≡ false
      → get (sub_lookups Rest i count ns).nodes j ≡ get ns.nodes j
  sub_other i j count ns b = elim (Option-cases (get ns.nodes i)) [
    | inl h ↦ rw (sub_lookups, h) refl
    | inr (n, h) ↦
        rw (sub_lookups, h)
          (insert_other ◌==◌ i j (record n { lookup_count = n.lookup_count - count }) ns.nodes b)
  ]

  -- forget_inode reduces the lookups of a node other than the root by the count, to 0 at least, and the
  -- node stands; or the node had no more lookups than that and no children, and it is removed.
  pub forget_inode_at :
      (i count : ℕ) (ns : Namespace Rest) (n : Node Rest)
      → get ns.nodes i ≡ some n
      → i ≢ root_id
      → (get (forget_inode Rest i count ns).nodes i
          ≡ some (record n { lookup_count = n.lookup_count - count }))
        ⊎ ((n.lookup_count ≤ count)
            × ((has_children Rest (get ns.children i) ≡ false)
                × (get (forget_inode Rest i count ns).nodes i ≡ none)))
  unfolding forget_inode
  forget_inode_at i count ns n h r =
      let b : (i == root_id) ≡ false = ground arith in
      rw b
        (elim (prune_at i (sub_lookups Rest i count ns)
          (record n { lookup_count = n.lookup_count - count }) (sub_at i count ns n h)) [
            | inl k ↦ inl k
            | inr (z, (c, k)) ↦
                inr (omega arith, (ap (has_children Rest) (sym (sub_children i count ns)) ∙ c, k))
          ])

  -- forget_inode of the root changes no node, and forget_inode of another inode changes no node of a
  -- different one.
  pub forget_inode_other :
      (i j count : ℕ) (ns : Namespace Rest)
      → (i ≡ root_id) ⊎ (i ≢ j)
      → get (forget_inode Rest i count ns).nodes j ≡ get ns.nodes j
  unfolding forget_inode
  forget_inode_other i j count ns (inl e) =
      let b : (i == root_id) ≡ true = ground arith in rw b refl
  forget_inode_other i j count ns (inr d) = elim (Bool-cases (i == root_id)) [
    | inl b ↦ rw b refl
    | inr b ↦
        let c : (i == j) ≡ false = ground arith in
        rw b (prune_other i j (sub_lookups Rest i count ns) c ∙ sub_other i j count ns c)
  ]
