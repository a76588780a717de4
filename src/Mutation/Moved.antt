-- ===== src/Mutation/Moved.antt =====
-- mutate.go: what the virtual nodes have at a path after a subtree was removed or moved.
use randfiletree.Prelude.{
  Bool, true, false, Option, none, some, List, [], ◌∷◌, ◌++◌, Bytes, eqb, eqb-same, eqb_refl,
  if◌then◌else◌, is_empty, not, ◌&&◌, ◌||◌, ◌≡◌, refl, sym, ap, ◌∙◌, All, inl, inr, arith,
  Bool-cases, Option-cases, trim_prefix,
}
use randfiletree.Prelude.Dict.{lookup, insert, lookup-insert}
use mathlib.Core.Path.{subst}
use randfiletree.GoPath.{render, components, clean}
use randfiletree.GoPath.Rooted.{Plain}
use randfiletree.GoPath.Below.{strip, strip-same, is_some, clean-moved, All-append}
use randfiletree.Mutation.{MutationNode, Nodes, is_child_mutation_path}
use randfiletree.Mutation.Virtual.{remove_subtree, moved, insert_all}
use randfiletree.Mutation.Tree.{same_path}
use randfiletree.Mutation.Places.{
  IsPlace, same_path_outside, same_path_sym, same_path-append, eqb-render, is_child-strip,
}

-- Removing a subtree keeps the other nodes.
pub lookup-remove_subtree :
    (p q : Bytes) (nodes : Nodes)
    → lookup q (remove_subtree p nodes)
      ≡ (if eqb q p || is_child_mutation_path q p then none else lookup q nodes)
unfolding lookup remove_subtree
lookup-remove_subtree p q [] = ground arith
lookup-remove_subtree p q ((r, n) ∷ nodes) = elim (Bool-cases (eqb r q)) [
  | inl e ↦
      let same = eqb-same r q e in
      subst
        (λ x.
          lookup x (remove_subtree p ((r, n) ∷ nodes))
          ≡ (if eqb x p || is_child_mutation_path x p then none else lookup x ((r, n) ∷ nodes)))
        same
        (elim (Bool-cases (eqb r p || is_child_mutation_path r p)) [
          | inl f ↦ rw f (ap (λ x. x) (rw f at (lookup-remove_subtree p r nodes)))
          | inr f ↦ rw (f, eqb_refl r) refl
        ])
  | inr e ↦ elim (Bool-cases (eqb r p || is_child_mutation_path r p)) [
    | inl f ↦ rw (f, e) (lookup-remove_subtree p q nodes)
    | inr f ↦ rw (f, e) (lookup-remove_subtree p q nodes)
  ]
]

-- Every key of the nodes is in its normal form.
abbrev pub Placed : Nodes → Type 0
Placed [] = Unit
Placed ((p, n) ∷ nodes) = IsPlace p × Placed nodes

pub strip-Plain : (ws us vs : List Bytes) → All Plain us → strip ws us ≡ some vs → All Plain vs
strip-Plain ws us vs h e = go ws vs (subst (All Plain) (strip-same ws us vs e) h)
  where
    go : (xs ys : List Bytes) → All Plain (xs ++ ys) → All Plain ys
    go [] ys h = h
    go (x ∷ xs) ys (p, h) = go xs ys h

-- The new path of a key that is moved.
moved_key :
    (ss ds us vs : List Bytes)
    → All Plain ds
    → All Plain us
    → is_empty ss ≡ false
    → is_empty ds ≡ false
    → strip ss us ≡ some vs
    → clean (render true ds ++ trim_prefix (render true us) (render true ss))
      ≡ render true (ds ++ vs)
moved_key ss ds us vs h k e f g =
    ap (λ x. clean (render true ds ++ trim_prefix (render true x) (render true ss)))
      (strip-same ss us vs g)
    ∙ clean-moved ss ds vs h (strip-Plain ss us vs k g) e f

-- A key outside the subtree is not moved.
moved_outside :
    (nodes : Nodes) (n : MutationNode) (ss ds us ks : List Bytes)
    → All Plain ss
    → All Plain ks
    → strip ss ks ≡ none
    → moved (render true ss) (render true ds) ((render true ks, n) ∷ nodes)
      ≡ moved (render true ss) (render true ds) nodes
unfolding moved
moved_outside nodes n ss ds us ks hs hk g =
    go (eqb (render true ks) (render true ss))
      (is_child_mutation_path (render true ks) (render true ss))
      (is_child-strip ks ss hk hs ∙ ap is_some g)
  where
    go :
        (a b : Bool)
        → (a || b) ≡ false
        → (if not a && not b
            then moved (render true ss) (render true ds) nodes
            else insert
                (clean (render true ds ++ trim_prefix (render true ks) (render true ss)))
                n
                (moved (render true ss) (render true ds) nodes))
          ≡ moved (render true ss) (render true ds) nodes
    go true b e = cc
    go false true e = cc
    go false false e = refl

moved_inside :
    (nodes : Nodes) (n : MutationNode) (ss ds ks ts : List Bytes)
    → All Plain ss
    → All Plain ds
    → All Plain ks
    → is_empty ss ≡ false
    → is_empty ds ≡ false
    → strip ss ks ≡ some ts
    → moved (render true ss) (render true ds) ((render true ks, n) ∷ nodes)
      ≡ insert (render true (ds ++ ts)) n (moved (render true ss) (render true ds) nodes)
unfolding moved
moved_inside nodes n ss ds ks ts hs hd hk e f g =
    go (eqb (render true ks) (render true ss))
      (is_child_mutation_path (render true ks) (render true ss))
      (is_child-strip ks ss hk hs ∙ ap is_some g)
    ∙ ap (λ x. insert x n (moved (render true ss) (render true ds) nodes))
        (moved_key ss ds ks ts hd hk e f g)
  where
    go :
        (a b : Bool)
        → (a || b) ≡ true
        → (if not a && not b
            then moved (render true ss) (render true ds) nodes
            else insert
                (clean (render true ds ++ trim_prefix (render true ks) (render true ss)))
                n
                (moved (render true ss) (render true ds) nodes))
          ≡ insert
              (clean (render true ds ++ trim_prefix (render true ks) (render true ss)))
              n
              (moved (render true ss) (render true ds) nodes)
    go true b e = refl
    go false true e = refl
    go false false e = cc

-- What the moved nodes have at a path, by what is left of it behind the destination.
abbrev pub behind : Nodes → List Bytes → Option (List Bytes) → Option MutationNode
behind nodes ss none = none
behind nodes ss (some vs) = lookup (render true (ss ++ vs)) nodes

abbrev pub moved_at : Nodes → List Bytes → List Bytes → List Bytes → Option MutationNode
moved_at nodes ss ds us = behind nodes ss (strip ds us)

lookup-cons :
    (us ks : List Bytes) (n : MutationNode) (nodes : Nodes)
    → All Plain us
    → All Plain ks
    → lookup (render true us) ((render true ks, n) ∷ nodes)
      ≡ (if same_path ks us then some n else lookup (render true us) nodes)
unfolding lookup
lookup-cons us ks n nodes hu hk = rw (eqb-render ks us hk hu) refl

moved_cons :
    (nodes : Nodes) (n : MutationNode) (ss ds us ks : List Bytes)
    → All Plain ss
    → All Plain ds
    → All Plain us
    → All Plain ks
    → is_empty ss ≡ false
    → is_empty ds ≡ false
    → lookup (render true us) (moved (render true ss) (render true ds) nodes)
      ≡ moved_at nodes ss ds us
    → lookup
        (render true us)
        (moved (render true ss) (render true ds) ((render true ks, n) ∷ nodes))
      ≡ moved_at ((render true ks, n) ∷ nodes) ss ds us
unfolding lookup
moved_cons nodes n ss ds us ks hs hd hu hk e f rest = elim (Option-cases (strip ss ks)) [
  | inl g ↦
      ap (lookup (render true us)) (moved_outside nodes n ss ds us ks hs hk g)
      ∙ rest
      ∙ elim (Option-cases (strip ds us)) [
        | inl k ↦ ap (behind nodes ss) k ∙ sym (ap (behind ((render true ks, n) ∷ nodes) ss) k)
        | inr (vs, k) ↦
            ap (behind nodes ss) k
            ∙ sym (
                lookup-cons (ss ++ vs) ks n nodes
                  (All-append Plain ss vs hs (strip-Plain ds us vs hu k)) hk
                ∙ ap (λ b. if b then some n else lookup (render true (ss ++ vs)) nodes)
                    (same_path_outside ss ks vs g))
            ∙ sym (ap (behind ((render true ks, n) ∷ nodes) ss) k)
      ]
  | inr (ts, g) ↦
      ap (lookup (render true us)) (moved_inside nodes n ss ds ks ts hs hd hk e f g)
      ∙ lookup-insert (render true (ds ++ ts)) (render true us) n _
      ∙ ap
          (λ b.
            if b
            then some n
            else lookup (render true us) (moved (render true ss) (render true ds) nodes))
          (eqb-render (ds ++ ts) us (All-append Plain ds ts hd (strip-Plain ss ks ts hk g)) hu)
      ∙ ap (λ o. if same_path (ds ++ ts) us then some n else o) rest
      ∙ elim (Option-cases (strip ds us)) [
        | inl k ↦
            ap (λ b. if b then some n else moved_at nodes ss ds us)
              (same_path_sym (ds ++ ts) us ∙ same_path_outside ds us ts k)
            ∙ ap (behind nodes ss) k
            ∙ sym (ap (behind ((render true ks, n) ∷ nodes) ss) k)
        | inr (vs, k) ↦
            ap (λ o. if same_path (ds ++ ts) us then some n else o) (ap (behind nodes ss) k)
            ∙ ap (λ b. if b then some n else lookup (render true (ss ++ vs)) nodes)
                (ap (λ x. same_path (ds ++ ts) x) (strip-same ds us vs k)
                  ∙ same_path-append ds ts vs
                  ∙ sym (same_path-append ss ts vs)
                  ∙ ap (λ x. same_path x (ss ++ vs)) (sym (strip-same ss ks ts g)))
            ∙ sym (
                lookup-cons (ss ++ vs) ks n nodes
                  (All-append Plain ss vs hs (strip-Plain ds us vs hu k)) hk)
            ∙ sym (ap (behind ((render true ks, n) ∷ nodes) ss) k)
      ]
]

-- The moved nodes show the subtree at its new place and nothing else.
pub lookup-moved :
    (nodes : Nodes) (ss ds us : List Bytes)
    → Placed nodes
    → All Plain ss
    → All Plain ds
    → All Plain us
    → is_empty ss ≡ false
    → is_empty ds ≡ false
    → lookup (render true us) (moved (render true ss) (render true ds) nodes)
      ≡ moved_at nodes ss ds us
unfolding lookup moved
lookup-moved [] ss ds us w hs hd hu e f = nothing (strip ds us)
  where
    nothing : (o : Option (List Bytes)) → none ≡ behind [] ss o
    nothing none = refl
    nothing (some vs) = refl
lookup-moved ((p, n) ∷ nodes) ss ds us (i, w) hs hd hu e f =
    subst
      (λ x.
        lookup (render true us) (moved (render true ss) (render true ds) ((x, n) ∷ nodes))
        ≡ moved_at ((x, n) ∷ nodes) ss ds us)
      (sym i.rendered)
      (moved_cons nodes n ss ds us (components p) hs hd hu i.plain e f
        (lookup-moved nodes ss ds us w hs hd hu e f))

-- The updates win over the nodes.
pub lookup-insert_all :
    (p : Bytes) (updates nodes : Nodes)
    → lookup p (insert_all updates nodes)
      ≡ elim (lookup p updates) [ none ↦ lookup p nodes | some n ↦ some n ]
unfolding lookup insert_all
lookup-insert_all p [] nodes = refl
lookup-insert_all p ((q, n) ∷ updates) nodes =
    lookup-insert q p n (insert_all updates nodes)
    ∙ go (eqb q p) (lookup-insert_all p updates nodes)
  where
    go :
        (b : Bool)
        → lookup p (insert_all updates nodes)
          ≡ elim (lookup p updates) [ none ↦ lookup p nodes | some n ↦ some n ]
        → (if b then some n else lookup p (insert_all updates nodes))
          ≡ elim (if b then some n else lookup p updates) [
            | none ↦ lookup p nodes
            | some n ↦ some n
          ]
    go true h = refl
    go false h = h
