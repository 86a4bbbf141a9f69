-- ===== src/Namespace/Agree.antt =====
-- A table of composed-fs/src/namespace.rs from keys to inodes, and the nodes of the keys.
use mathlib.Core.Option.{some-injective, none-ne-some}
use wrapper.Common.{
  ℕ, ◌≡◌, sym, ap, ◌∙◌, Bool, true, Option, none, some, ◌==◌, Bool-cases, inl, inr, arith,
}
use wrapper.Namespace.{NodeKind, Node}
use wrapper.Namespace.Maps.{
  Map, get, insert, remove, insert_cases, insert_same, insert_other, remove_cases, remove_other,
}

==_sound : (i j : ℕ) → (i == j) ≡ true → i ≡ j
==_sound i j h = ground arith

==_refl : (i : ℕ) → (i == i) ≡ true
==_refl i = ground arith

module _ {K : Type 0} (Rest : Type 0) (same : K → K → Bool) (key_of : NodeKind → Option K) where
  -- The table leads from every key to the one node that has it.
  pub record Agrees (nodes : Map ℕ (Node Rest)) (table : Map K ℕ) : Type 0 where
    pub sound :
        (k : K) (i : ℕ)
        → get table k ≡ some i
        → (n : Node Rest) × ((get nodes i ≡ some n) × (key_of n.kind ≡ some k))
    pub complete :
        (i : ℕ) (n : Node Rest) (k : K)
        → get nodes i ≡ some n
        → key_of n.kind ≡ some k
        → get table k ≡ some i

  module _ (nodes : Map ℕ (Node Rest)) (table : Map K ℕ) (agrees : Agrees nodes table) (i : ℕ)
      (n' : Node Rest) where
    -- A node is replaced by one with the same key.
    pub Agrees-replace :
        (n : Node Rest)
        → get nodes i ≡ some n
        → key_of n'.kind ≡ key_of n.kind
        → Agrees (insert ◌==◌ i n' nodes) table
    Agrees-replace n h e = record {
      sound = λ k j t.
          let (x, (at, key)) = agrees.sound k j t in
          elim (Bool-cases (i == j)) [
            | inl b ↦
                let same_node : n ≡ x = some-injective n x (sym h ∙ rw (==_sound i j b) at) in
                (n', (insert_same ◌==◌ i j n' nodes b, e ∙ rw same_node key))
            | inr b ↦ (x, (insert_other ◌==◌ i j n' nodes b ∙ at, key))
          ];
      complete = λ j x k at key. elim (insert_cases ◌==◌ i j n' x nodes at) [
        | inl (b, v) ↦ rw (sym (==_sound i j b)) (agrees.complete i n k h (sym e ∙ rw v key))
        | inr (b, old) ↦ agrees.complete j x k old key
      ];
    }

    -- A node without a key is added.
    pub Agrees-skip :
        get nodes i ≡ none → key_of n'.kind ≡ none → Agrees (insert ◌==◌ i n' nodes) table
    Agrees-skip h e = record {
      sound = λ k j t.
          let (x, (at, key)) = agrees.sound k j t in
          elim (Bool-cases (i == j)) [
            | inl b ↦ elim (none-ne-some x (sym h ∙ rw (==_sound i j b) at)) [ ]
            | inr b ↦ (x, (insert_other ◌==◌ i j n' nodes b ∙ at, key))
          ];
      complete = λ j x k at key. elim (insert_cases ◌==◌ i j n' x nodes at) [
        | inl (b, v) ↦ elim (none-ne-some k (sym e ∙ rw v key)) [ ]
        | inr (b, old) ↦ agrees.complete j x k old key
      ];
    }

    -- A node without a key is removed.
    pub Agrees-drop :
        (n : Node Rest)
        → get nodes i ≡ some n
        → key_of n.kind ≡ none
        → Agrees (remove ◌==◌ i nodes) table
    Agrees-drop n h e = record {
      sound = λ k j t.
          let (x, (at, key)) = agrees.sound k j t in
          elim (Bool-cases (i == j)) [
            | inl b ↦
                let same_node : n ≡ x = some-injective n x (sym h ∙ rw (==_sound i j b) at) in
                elim (none-ne-some k (sym e ∙ rw same_node key)) [ ]
            | inr b ↦ (x, (remove_other ◌==◌ i j nodes b ∙ at, key))
          ];
      complete = λ j x k at key. agrees.complete j x k (remove_cases ◌==◌ i j x nodes at).1 key;
    }

    module _ (same_sound : (a b : K) → same a b ≡ true → a ≡ b)
        (same_refl : (a : K) → same a a ≡ true) where
      -- A node is added with a key that has no inode.
      pub Agrees-add :
          (k' : K)
          → get nodes i ≡ none
          → get table k' ≡ none
          → key_of n'.kind ≡ some k'
          → Agrees (insert ◌==◌ i n' nodes) (insert same k' i table)
      Agrees-add k' h free e = record {
        sound = λ k j t. elim (insert_cases same k' k i j table t) [
          | inl (b, v) ↦ (
            n',
            (insert_same ◌==◌ i j n' nodes (rw v (==_refl j)), e ∙ ap some (same_sound k' k b)),
          )
          | inr (b, old) ↦
              let (x, (at, key)) = agrees.sound k j old in
              elim (Bool-cases (i == j)) [
                | inl c ↦ elim (none-ne-some x (sym h ∙ rw (==_sound i j c) at)) [ ]
                | inr c ↦ (x, (insert_other ◌==◌ i j n' nodes c ∙ at, key))
              ]
        ];
        complete = λ j x k at key. elim (insert_cases ◌==◌ i j n' x nodes at) [
          | inl (b, v) ↦
              let same_key : k' ≡ k = some-injective k' k (sym e ∙ rw v key) in
              insert_same same k' k i table (rw (sym same_key) (same_refl k'))
              ∙ ap some (==_sound i j b)
          | inr (b, old) ↦
              let here = agrees.complete j x k old key in
              elim (Bool-cases (same k' k)) [
                | inl c ↦ elim (none-ne-some j (sym free ∙ rw (same_sound k' k c) here)) [ ]
                | inr c ↦ insert_other same k' k i table c ∙ here
              ]
        ];
      }

      -- A node is removed with its key.
      pub Agrees-remove :
          (n : Node Rest) (k' : K)
          → get nodes i ≡ some n
          → key_of n.kind ≡ some k'
          → Agrees (remove ◌==◌ i nodes) (remove same k' table)
      Agrees-remove n k' h e = record {
        sound = λ k j t.
            let (b, old) = remove_cases same k' k j table t in
            let (x, (at, key)) = agrees.sound k j old in
            elim (Bool-cases (i == j)) [
              | inl c ↦
                  let same_node : n ≡ x = some-injective n x (sym h ∙ rw (==_sound i j c) at) in
                  let same_key : k' ≡ k = some-injective k' k (sym e ∙ rw same_node key) in
                  let bad : same k' k ≡ true = rw same_key (same_refl k) in ground arith
              | inr c ↦ (x, (remove_other ◌==◌ i j nodes c ∙ at, key))
            ];
        complete = λ j x k at key.
            let (b, old) = remove_cases ◌==◌ i j x nodes at in
            let here = agrees.complete j x k old key in
            elim (Bool-cases (same k' k)) [
              | inl c ↦
                  let there = agrees.complete i n k' h e in
                  let eq : i ≡ j = some-injective i j (sym there ∙ rw (same_sound k' k c) here) in
                  let bad : (i == j) ≡ true = rw eq (==_refl j) in ground arith
              | inr c ↦ remove_other same k' k table c ∙ here
            ];
      }
