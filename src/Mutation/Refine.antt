-- ===== src/Mutation/Refine.antt =====
-- mutate.go: the virtual nodes show a tree, and each operation on them does to it what the
-- specification says.
use randfiletree.Prelude.{
  ℕ, true, false, Option, none, some, List, Bytes, ok, err, eqb, if◌then◌else◌, ◌||◌, ◌≡◌, refl, ap,
  ◌∙◌, All, inl, inr, Bool-cases, dec_bytes,
}
use randfiletree.Prelude.Dict.{lookup, insert, is_key, lookup-insert}
use randfiletree.GoPath.{render, components, dir_of, dot}
use randfiletree.GoPath.Rooted.{Plain}
use randfiletree.GoPath.Below.{strip, is_some}
use randfiletree.Mutation.{MutationNode, Nodes, has_parent_directory, is_child_mutation_path}
use randfiletree.Mutation.Virtual.{VirtualError, Change, remove_subtree, add_node}
use randfiletree.Mutation.Tree.{Tree, Effect, same_path, parent_of, dir_at, update, cut, add_effect}
use randfiletree.Mutation.Moved.{lookup-remove_subtree}
use randfiletree.Mutation.Places.{
  IsPlace, eqb-render, is_child-strip, dir_of-parent_of, parent_of-Plain,
}

-- The nodes have the tree's entries at the tree's paths.
abbrev pub Shows : Nodes → Tree → Type 0
Shows nodes t = (us : List Bytes) → All Plain us → lookup (render true us) nodes ≡ t us

-- A change and an effect have the same error, or results that agree.
pub data Refines : Change → Effect → Type 0 where
  agrees : {nodes : Nodes} {t : Tree} → Shows nodes t → Refines (ok nodes) (ok t)
  fails : {e : VirtualError} → Refines (err e) (err e)

abbrev pub view : Nodes → Tree
view nodes us = lookup (render true us) nodes

not_dot : (us : List Bytes) → eqb (render true us) dot ≡ false
unfolding render dec_bytes
not_dot us = refl

module _ (nodes : Nodes) (t : Tree) (s : Shows nodes t) where
  pub at_place : (p : Bytes) → IsPlace p → lookup p nodes ≡ t (components p)
  at_place p i = ap (λ x. lookup x nodes) i.rendered ∙ s (components p) i.plain

  pub key_at_place : (p : Bytes) → IsPlace p → is_key p nodes ≡ is_some (t (components p))
  unfolding is_key
  key_at_place p i = rw (is_key, at_place p i) (go (t (components p)))
    where
      go : (o : Option MutationNode) → elim o [ none ↦ false | some _ ↦ true ] ≡ is_some o
      go none = refl
      go (some n) = refl

  pub parent_at_place :
      (p : Bytes) → IsPlace p → has_parent_directory p nodes ≡ dir_at t (parent_of (components p))
  unfolding has_parent_directory
  parent_at_place p i =
      let d = ap dir_of i.rendered ∙ dir_of-parent_of (components p) i.plain in
      rw
        (
          has_parent_directory,
          d,
          not_dot (parent_of (components p)),
          s (parent_of (components p)) (parent_of-Plain (components p) i.plain),
        )
        refl

  pub insert-Shows :
      (p : Bytes) (n : MutationNode)
      → IsPlace p
      → Shows (insert p n nodes) (update (components p) n t)
  insert-Shows p n i us h =
      lookup-insert p (render true us) n nodes
      ∙ ap (λ b. if b then some n else lookup (render true us) nodes) same
      ∙ ap (λ o. if same_path (components p) us then some n else o) (s us h)
    where
      same : eqb p (render true us) ≡ same_path (components p) us
      same = ap (λ x. eqb x (render true us)) i.rendered ∙ eqb-render (components p) us i.plain h

  pub add_node-Refines :
      (kind : ℕ) (p : Bytes) (n : MutationNode)
      → IsPlace p
      → Refines (add_node kind p n nodes) (add_effect kind p n t)
  unfolding add_node
  add_node-Refines kind p n i = elim (Bool-cases (is_some (t (components p)))) [
    | inl e ↦ rw (add_node, key_at_place p i, e) fails
    | inr e ↦ elim (Bool-cases (dir_at t (parent_of (components p)))) [
      | inl f ↦
          rw (add_node, key_at_place p i, parent_at_place p i, e, f) (agrees (insert-Shows p n i))
      | inr f ↦ rw (add_node, key_at_place p i, parent_at_place p i, e, f) fails
    ]
  ]

pub remove_subtree-Shows :
    (nodes : Nodes) (t : Tree) (p : Bytes)
    → Shows nodes t
    → IsPlace p
    → Shows (remove_subtree p nodes) (cut (components p) t)
remove_subtree-Shows nodes t p s i us h =
    lookup-remove_subtree p (render true us) nodes
    ∙ ap (λ b. if b then none else lookup (render true us) nodes)
        (ap (λ x. eqb (render true us) x || is_child_mutation_path (render true us) x) i.rendered
          ∙ is_child-strip us (components p) h i.plain)
    ∙ ap (λ o. if is_some (strip (components p) us) then none else o) (s us h)
