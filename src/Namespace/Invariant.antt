-- ===== src/Namespace/Invariant.antt =====
-- The tables of composed-fs/src/namespace.rs agree with each other, after every creation of a node.
use wrapper.Common.{
  ℕ, ◌≤◌, ◌<◌, ◌≡◌, sym, ap, ◌∙◌, true, Option, none, some, bytes_eq, bytes_eq_sound, bytes_eq_refl,
  ◌==◌, inl, inr, arith,
}
use wrapper.Namespace.{
  NodeKind, synthetic_dir, overlay_dir, mount_root, host, shadow, HostKey, ShadowKey, same_host,
  same_shadow, Node, Namespace,
}
use wrapper.Namespace.Maps.{Map, get, insert, insert_cases}
use wrapper.Namespace.Agree.{Agrees, Agrees-replace}

pub same_host_sound : (a b : HostKey) → same_host a b ≡ true → a ≡ b
same_host_sound a b h =
    let em : a.mount ≡ b.mount = ground arith in
    let ed : a.identity.dev ≡ b.identity.dev = ground arith in
    let ei : a.identity.ino ≡ b.identity.ino = ground arith in
    λ i. record { mount = em i; identity = record { dev = ed i; ino = ei i } }

pub same_host_refl : (a : HostKey) → same_host a a ≡ true
same_host_refl a = ground arith

pub same_shadow_sound : (a b : ShadowKey) → same_shadow a b ≡ true → a ≡ b
same_shadow_sound a b h =
    let em : a.mount ≡ b.mount = ground arith in
    let e : bytes_eq a.relative_path b.relative_path ≡ true = ground arith in
    let ep = bytes_eq_sound a.relative_path b.relative_path e in
    λ i. record { mount = em i; relative_path = ep i }

pub same_shadow_refl : (a : ShadowKey) → same_shadow a a ≡ true
same_shadow_refl a = ground (arith, bytes_eq_refl a.relative_path)

-- The key under which a node of a kind stands in its table.
abbrev pub host_key_of : NodeKind → Option HostKey
host_key_of (host mount path identity) = some (record { mount = mount; identity = identity })
host_key_of synthetic_dir = none
host_key_of (overlay_dir mount path) = none
host_key_of (mount_root mount) = none
host_key_of (shadow mount path) = none

abbrev pub shadow_key_of : NodeKind → Option ShadowKey
shadow_key_of (shadow mount path) = some (record { mount = mount; relative_path = path })
shadow_key_of synthetic_dir = none
shadow_key_of (overlay_dir mount path) = none
shadow_key_of (mount_root mount) = none
shadow_key_of (host mount path identity) = none

module _ (Rest : Type 0) where
  -- Every node stands under its own inode, below the next one to allocate.
  abbrev pub Below : Map ℕ (Node Rest) → ℕ → Type 0
  Below nodes next = (i : ℕ) (n : Node Rest) → get nodes i ≡ some n → (i < next) × (n.inode ≡ i)

  -- A host or shadow file has one node, which the table of its key leads to and which has that key.
  pub record IsValid (ns : Namespace Rest) : Type 0 where
    pub below : Below ns.nodes ns.next_inode
    pub hosts : Agrees Rest same_host host_key_of ns.nodes ns.host_inodes
    pub shadows : Agrees Rest same_shadow shadow_key_of ns.nodes ns.shadow_inodes

  pub Below-insert :
      (nodes : Map ℕ (Node Rest)) (next next' i : ℕ) (n : Node Rest)
      → Below nodes next
      → next ≤ next'
      → i < next'
      → n.inode ≡ i
      → Below (insert ◌==◌ i n nodes) next'
  Below-insert nodes next next' i n b le lt e j x h = elim (insert_cases ◌==◌ i j n x nodes h) [
    | inl (c, v) ↦
        let eq : i ≡ j = ground arith in (omega arith, ap (λ m. m.inode) (sym v) ∙ e ∙ eq)
    | inr (c, old) ↦ let (l, k) = b j x old in (omega arith, k)
  ]

  -- A node is replaced by one with the same inode and the same key.
  pub IsValid-replace :
      (ns : Namespace Rest) (i : ℕ) (n n' : Node Rest)
      → IsValid ns
      → get ns.nodes i ≡ some n
      → n'.inode ≡ n.inode
      → host_key_of n'.kind ≡ host_key_of n.kind
      → shadow_key_of n'.kind ≡ shadow_key_of n.kind
      → IsValid (record ns { nodes = insert ◌==◌ i n' ns.nodes })
  IsValid-replace ns i n n' v h ei eh es =
      let (l, k) = v.below i n h in
      record {
        below =
            Below-insert ns.nodes ns.next_inode ns.next_inode i n' v.below (omega arith) l (ei ∙ k);
        hosts =
            Agrees-replace Rest same_host host_key_of ns.nodes ns.host_inodes v.hosts i n' n h eh;
        shadows =
            Agrees-replace Rest same_shadow shadow_key_of ns.nodes ns.shadow_inodes v.shadows i n' n
              h es;
      }
