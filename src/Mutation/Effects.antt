-- ===== src/Mutation/Effects.antt =====
-- mutate.go: `applyVirtualOperation` refines the effects on the tree, for each kind of operation.
use randfiletree.Prelude.{
  Bool, true, false, none, some, eqb, eqb-same, ◌==◌, if◌then◌else◌, is_empty, ◌||◌, ◌≡◌, refl, ap,
  ◌∙◌, inl, inr, arith, Bool-cases, Option-cases, Result-cases,
}
use randfiletree.Prelude.Dict.{member}
use randfiletree.Prelude.Int.{ℤ}
use randfiletree.GoPath.{components, render}
use randfiletree.GoPath.Below.{strip, is_some}
use randfiletree.Plan.Metadata.{validate_xattr_name}
use randfiletree.Operation.{
  Operation, create_file, create_dir, create_symlink, create_hardlink, delete, rename, chmod, chown,
  truncate, append, overwrite_range, set_xattr, remove_xattr,
}
use randfiletree.Mutation.{
  MutationNode, Nodes, is_dir, is_file, xattr_names, is_child_mutation_path,
}
use randfiletree.Mutation.Virtual.{
  Change, change_nodes, link_node, delete_node, rename_node, require_node, resize_node,
  change_xattr,
}
use randfiletree.Mutation.Tree.{
  Tree, Effect, dir_at, effect, link_effect, delete_effect, rename_effect, require_effect,
  resize_effect, xattr_effect, parent_of,
}
use randfiletree.Mutation.Places.{IsPlace, is_child-strip}
use randfiletree.Mutation.Moved.{Placed}
use randfiletree.Mutation.Refine.{
  Shows, Refines, agrees, fails, at_place, key_at_place, parent_at_place, insert-Shows,
  remove_subtree-Shows, add_node-Refines,
}
use randfiletree.Mutation.Graft.{Closed, graft_file-Shows, graft_dir-Shows, remove-Shows}

module _ (nodes : Nodes) (t : Tree) (s : Shows nodes t) where
  link_node-Refines :
      (op : Operation)
      → IsPlace op.path
      → IsPlace op.source_path
      → Refines (link_node op nodes) (link_effect op t)
  unfolding link_node components
  link_node-Refines op i j = elim (Option-cases (t (components op.source_path))) [
    | inl e ↦ rw (link_node, at_place nodes t s op.source_path j, link_effect, e) fails
    | inr (n, e) ↦ elim (Bool-cases (is_file n)) [
      | inl f ↦
          rw (link_node, at_place nodes t s op.source_path j, link_effect, e, f)
            (add_node-Refines nodes t s op.kind op.path _ i)
      | inr f ↦ rw (link_node, at_place nodes t s op.source_path j, link_effect, e, f) fails
    ]
  ]

  require_node-Refines :
      (op : Operation) → IsPlace op.path → Refines (require_node op nodes) (require_effect op t)
  unfolding require_node components
  require_node-Refines op i = elim (Bool-cases (is_some (t (components op.path)))) [
    | inl e ↦ rw (require_node, key_at_place nodes t s op.path i, require_effect, e) (agrees s)
    | inr e ↦ rw (require_node, key_at_place nodes t s op.path i, require_effect, e) fails
  ]

  resize_node-Refines :
      (new_size : MutationNode → ℤ) (op : Operation)
      → IsPlace op.path
      → Refines (resize_node new_size op nodes) (resize_effect new_size op t)
  unfolding resize_node components
  resize_node-Refines new_size op i = elim (Option-cases (t (components op.path))) [
    | inl e ↦ rw (resize_node, at_place nodes t s op.path i, resize_effect, e) fails
    | inr (n, e) ↦ elim (Bool-cases (is_file n)) [
      | inl f ↦
          rw (resize_node, at_place nodes t s op.path i, resize_effect, e, f)
            (agrees (insert-Shows nodes t s op.path _ i))
      | inr f ↦ rw (resize_node, at_place nodes t s op.path i, resize_effect, e, f) fails
    ]
  ]

  change_xattr-Refines :
      (op : Operation) → IsPlace op.path → Refines (change_xattr op nodes) (xattr_effect op t)
  unfolding change_xattr components
  change_xattr-Refines op i = elim (Option-cases (t (components op.path))) [
    | inl e ↦ rw (change_xattr, at_place nodes t s op.path i, xattr_effect, e) fails
    | inr (n, e) ↦ elim (Result-cases (validate_xattr_name op.xattr_name)) [
      | inr (x, f) ↦ rw (change_xattr, at_place nodes t s op.path i, xattr_effect, e, f) fails
      | inl (x, f) ↦ elim (Bool-cases (op.kind == set_xattr)) [
        | inl g ↦
            rw (change_xattr, at_place nodes t s op.path i, xattr_effect, e, f, g)
              (agrees (insert-Shows nodes t s op.path _ i))
        | inr g ↦ elim (Bool-cases (member op.xattr_name (xattr_names n))) [
          | inl k ↦
              rw (change_xattr, at_place nodes t s op.path i, xattr_effect, e, f, g, k)
                (agrees (insert-Shows nodes t s op.path _ i))
          | inr k ↦ rw (change_xattr, at_place nodes t s op.path i, xattr_effect, e, f, g, k) fails
        ]
      ]
    ]
  ]

  delete_node-Refines :
      (op : Operation)
      → IsPlace op.path
      → Closed t
      → Refines (delete_node op nodes) (delete_effect op t)
  unfolding delete_node components
  delete_node-Refines op i c = elim (Option-cases (t (components op.path))) [
    | inl e ↦ rw (delete_node, at_place nodes t s op.path i, delete_effect, e) fails
    | inr (n, e) ↦ elim (Bool-cases (is_dir n)) [
      | inl f ↦
          rw (delete_node, at_place nodes t s op.path i, delete_effect, e, f)
            (agrees (remove_subtree-Shows nodes t op.path s i))
      | inr f ↦
          rw (delete_node, at_place nodes t s op.path i, delete_effect, e, f)
            (agrees (remove-Shows nodes t op.path s i c (rw (dir_at, e, f) refl)))
    ]
  ]

  -- The check that the destination is not inside the source.
  inside_check :
      (op : Operation) (n : MutationNode)
      → IsPlace op.path
      → IsPlace op.destination
      → t (components op.path) ≡ some n
      → t (components op.destination) ≡ none
      → is_child_mutation_path op.destination op.path
        ≡ is_some (strip (components op.path) (components op.destination))
  inside_check op n i j here vacant =
      not_same (eqb op.destination op.path) _ differ
      ∙ ap (λ x. eqb x op.path || is_child_mutation_path x op.path) j.rendered
      ∙ ap
          (λ x.
            eqb (render true (components op.destination)) x
            || is_child_mutation_path (render true (components op.destination)) x)
          i.rendered
      ∙ is_child-strip (components op.destination) (components op.path) j.plain i.plain
    where
      not_same : (a b : Bool) → a ≡ false → b ≡ (a || b)
      not_same true b e = cc
      not_same false b e = refl

      differ : eqb op.destination op.path ≡ false
      differ = elim (Bool-cases (eqb op.destination op.path)) [
        | inr e ↦ e
        | inl e ↦
            let both = ap (λ x. t (components x)) (eqb-same op.destination op.path e) in
            absurd (ground (arith, both, here, vacant))
      ]

  rename_node-Refines :
      (op : Operation)
      → Placed nodes
      → IsPlace op.path
      → IsPlace op.destination
      → is_empty (components op.path) ≡ false
      → is_empty (components op.destination) ≡ false
      → Closed t
      → Refines (rename_node op nodes) (rename_effect op t)
  unfolding rename_node components
  rename_node-Refines op w i j a b c = elim (Option-cases (t (components op.path))) [
    | inl e ↦ rw (rename_node, at_place nodes t s op.path i, rename_effect, e) fails
    | inr (n, e) ↦ elim (Option-cases (t (components op.destination))) [
      | inr (m, f) ↦
          rw
            (
              rename_node,
              at_place nodes t s op.path i,
              rename_effect,
              e,
              key_at_place nodes t s op.destination j,
              f,
            )
            fails
      | inl f ↦ elim (Bool-cases (dir_at t (parent_of (components op.destination)))) [
        | inr g ↦
            rw
              (
                rename_node,
                at_place nodes t s op.path i,
                rename_effect,
                e,
                key_at_place nodes t s op.destination j,
                f,
                parent_at_place nodes t s op.destination j,
                g,
              )
              fails
        | inl g ↦ elim (Bool-cases (is_dir n)) [
          | inr k ↦
              let d : dir_at t (components op.path) ≡ false = rw (dir_at, e, k) refl in
              rw
                (
                  rename_node,
                  at_place nodes t s op.path i,
                  rename_effect,
                  e,
                  key_at_place nodes t s op.destination j,
                  f,
                  parent_at_place nodes t s op.destination j,
                  g,
                  k,
                  d,
                )
                (agrees (graft_file-Shows nodes t n op.path op.destination s i j c e d f))
          | inl k ↦
              let d : dir_at t (components op.path) ≡ true = rw (dir_at, e, k) refl in
              elim (Bool-cases (is_some (strip (components op.path) (components op.destination)))) [
                | inl m ↦
                    rw
                      (
                        rename_node,
                        at_place nodes t s op.path i,
                        rename_effect,
                        e,
                        key_at_place nodes t s op.destination j,
                        f,
                        parent_at_place nodes t s op.destination j,
                        g,
                        k,
                        inside_check op n i j e f,
                        d,
                        m,
                      )
                      fails
                | inr m ↦
                    rw
                      (
                        rename_node,
                        at_place nodes t s op.path i,
                        rename_effect,
                        e,
                        key_at_place nodes t s op.destination j,
                        f,
                        parent_at_place nodes t s op.destination j,
                        g,
                        k,
                        inside_check op n i j e f,
                        d,
                        m,
                      )
                      (agrees (graft_dir-Shows nodes t op.path op.destination s w i j c a b f))
              ]
        ]
      ]
    ]
  ]

by_kind_known :
    {m m' : Change} {k k' : Effect} (b : Bool)
    → (b ≡ true → Refines m k)
    → Refines m' k'
    → Refines (if b then m else m') (if b then k else k')
by_kind_known true r r' = r refl
by_kind_known false r r' = r'

by_kind :
    {m m' : Change} {k k' : Effect} (b : Bool)
    → Refines m k
    → Refines m' k'
    → Refines (if b then m else m') (if b then k else k')
by_kind b r r' = by_kind_known b (λ e. r) r'

-- The paths that the operation uses are in their normal form, and a renaming is not of or to the
-- root.
pub record IsPlaced (op : Operation) : Type 0 where
  pub path_placed : IsPlace op.path
  pub source_placed : (op.kind == create_hardlink) ≡ true → IsPlace op.source_path
  pub destination_placed : (op.kind == rename) ≡ true → IsPlace op.destination
  pub path_below : (op.kind == rename) ≡ true → is_empty (components op.path) ≡ false
  pub destination_below : (op.kind == rename) ≡ true → is_empty (components op.destination) ≡ false

-- What an operation does to the virtual nodes is what its effect does to the tree that they show.
pub change_nodes-Refines :
    (op : Operation) (nodes : Nodes) (t : Tree)
    → IsPlaced op
    → Placed nodes
    → Closed t
    → Shows nodes t
    → Refines (change_nodes op nodes) (effect op t)
unfolding change_nodes effect
change_nodes-Refines op nodes t p w c s =
    let i = p.path_placed in
    by_kind (op.kind == create_file) (add_node-Refines nodes t s op.kind op.path _ i) (
      by_kind (op.kind == create_dir) (add_node-Refines nodes t s op.kind op.path _ i) (
        by_kind (op.kind == create_symlink) (add_node-Refines nodes t s op.kind op.path _ i) (
          by_kind_known (op.kind == create_hardlink)
            (λ e. link_node-Refines nodes t s op i (p.source_placed e))
            (by_kind (op.kind == delete) (delete_node-Refines nodes t s op i c) (
              by_kind_known (op.kind == rename)
                (λ e.
                  rename_node-Refines nodes t s op w i (p.destination_placed e) (p.path_below e)
                    (p.destination_below e) c)
                (by_kind (op.kind == chmod) (require_node-Refines nodes t s op i) (
                  by_kind (op.kind == chown) (require_node-Refines nodes t s op i) (
                    by_kind (op.kind == truncate) (resize_node-Refines nodes t s _ op i) (
                      by_kind (op.kind == append) (resize_node-Refines nodes t s _ op i) (
                        by_kind (op.kind == overwrite_range) (resize_node-Refines nodes t s _ op i)
                          (by_kind (op.kind == set_xattr) (change_xattr-Refines nodes t s op i) (
                            by_kind (op.kind == remove_xattr) (change_xattr-Refines nodes t s op i)
                              fails))))))))))))
