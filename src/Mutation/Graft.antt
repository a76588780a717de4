-- ===== src/Mutation/Graft.antt =====
-- mutate.go: the virtual nodes after a removal or a renaming, in a tree whose paths stand in
-- directories.
use randfiletree.Prelude.{
  Bool, true, false, Option, none, some, List, [], ◌∷◌, ◌++◌, Bytes, eqb, if◌then◌else◌, is_empty,
  ◌≡◌, refl, sym, ap, ◌∙◌, All, inl, inr, Option-cases,
}
use randfiletree.Prelude.Dict.{lookup, insert, remove, lookup-remove}
use mathlib.Core.Path.{subst}
use mathlib.Core.List.{append-nil, append_assoc}
use randfiletree.GoPath.{render, components}
use randfiletree.GoPath.Rooted.{Plain}
use randfiletree.GoPath.Below.{strip, strip-same, is_some, All-append}
use randfiletree.Mutation.{MutationNode, Nodes}
use randfiletree.Mutation.Virtual.{remove_subtree, moved, insert_all}
use randfiletree.Mutation.Tree.{Tree, same_path, dir_at, update, cut, graft}
use randfiletree.Mutation.Moved.{
  Placed, behind, moved_at, strip-Plain, lookup-moved, lookup-insert_all,
}
use randfiletree.Mutation.Places.{
  IsPlace, same_path_outside, same_path_sym, same_path-append, same_path_refl, eqb-render,
}
use randfiletree.Mutation.Refine.{Shows, insert-Shows, remove_subtree-Shows}

-- Every path of the tree stands in a directory.
abbrev pub Closed : Tree → Type 0
Closed t =
    (us : List Bytes) (w : Bytes)
    → All Plain us
    → Plain w
    → is_some (t (us ++ (w ∷ []))) ≡ true
    → dir_at t us ≡ true

nothing : (o : Option MutationNode) → (is_some o ≡ true → ⊥) → o ≡ none
nothing none h = refl
nothing (some n) h = absurd (h refl)

dir_none : (t : Tree) (us : List Bytes) → t us ≡ none → dir_at t us ≡ false
dir_none t us h = rw (dir_at, h) refl

nothing_in :
    (t : Tree) (us : List Bytes) (v : Bytes)
    → Closed t
    → All Plain us
    → Plain v
    → dir_at t us ≡ false
    → t (us ++ (v ∷ [])) ≡ none
nothing_in t us v c h p d = nothing _ λ e. contradiction (c us v h p e) d
  where
    contradiction : {b : Bool} → b ≡ true → b ≡ false → ⊥
    contradiction x y = cc

-- Nothing is below what is no directory.
none_below :
    (t : Tree) (us : List Bytes) (v : Bytes) (vs : List Bytes)
    → Closed t
    → All Plain us
    → All Plain (v ∷ vs)
    → dir_at t us ≡ false
    → t (us ++ (v ∷ vs)) ≡ none
none_below t us v [] c h (p, k) d = nothing_in t us v c h p d
none_below t us v (w ∷ vs) c h (p, k) d =
    let here = nothing_in t us v c h p d in
    ap t (sym (append_assoc us (v ∷ []) (w ∷ vs)))
    ∙ none_below t (us ++ (v ∷ [])) w vs c (All-append Plain us (v ∷ []) h (p, tt)) k
        (dir_none t (us ++ (v ∷ [])) here)

is_some-none : (o : Option MutationNode) → is_some o ≡ false → o ≡ none
is_some-none none h = refl
is_some-none (some n) h = cc

either_none : (b : Bool) → if◌then◌else◌ {A = Option MutationNode} b none none ≡ none
either_none true = refl
either_none false = refl

-- A file is all that is at its path and below.
file_cut :
    (t : Tree) (ps us : List Bytes)
    → All Plain ps
    → All Plain us
    → Closed t
    → dir_at t ps ≡ false
    → (if same_path ps us then none else t us) ≡ cut ps t us
file_cut t ps us hp h c d = elim (Option-cases (strip ps us)) [
  | inl g ↦
      ap (λ b. if b then none else t us)
        (ap (λ x. same_path ps x) (sym (append-nil us))
          ∙ ap (λ x. same_path ps x) (append-nil us)
          ∙ same_path_sym ps us
          ∙ ap (λ x. same_path us x) (sym (append-nil ps))
          ∙ same_path_outside ps us [] g)
      ∙ sym (ap (λ o. if is_some o then none else t us) g)
  | inr ([], g) ↦
      let same : ps ≡ us = sym (strip-same ps us [] g ∙ append-nil ps) in
      ap (λ b. if b then none else t us)
        (subst (λ x. same_path ps x ≡ true) same (same_path_refl ps))
      ∙ sym (ap (λ o. if is_some o then none else t us) g)
  | inr (v ∷ vs, g) ↦
      let empty =
        ap t (strip-same ps us (v ∷ vs) g)
        ∙ none_below t ps v vs c hp (strip-Plain ps us (v ∷ vs) h g) d in
      ap (λ o. if same_path ps us then none else o) empty
      ∙ either_none (same_path ps us)
      ∙ sym (ap (λ o. if is_some o then none else t us) g)
]

-- Without the subtree that it is, a file is gone.
pub remove-Shows :
    (nodes : Nodes) (t : Tree) (p : Bytes)
    → Shows nodes t
    → IsPlace p
    → Closed t
    → dir_at t (components p) ≡ false
    → Shows (remove p nodes) (cut (components p) t)
remove-Shows nodes t p s i c d us h =
    lookup-remove p (render true us) nodes
    ∙ ap (λ b. if b then none else lookup (render true us) nodes)
        (ap (λ x. eqb x (render true us)) i.rendered ∙ eqb-render (components p) us i.plain h)
    ∙ ap (λ o. if same_path (components p) us then none else o) (s us h)
    ∙ file_cut t (components p) us i.plain h c d

-- Nothing is at or below a vacant path.
under_vacant :
    (t : Tree) (us vs : List Bytes)
    → Closed t
    → All Plain us
    → All Plain vs
    → t us ≡ none
    → t (us ++ vs) ≡ none
under_vacant t us [] c h k e = ap t (append-nil us) ∙ e
under_vacant t us (v ∷ vs) c h k e = none_below t us v vs c h k (dir_none t us e)

cut-none : (t : Tree) (ps us : List Bytes) → t us ≡ none → cut ps t us ≡ none
cut-none t ps us e =
    ap (λ o. if is_some (strip ps us) then none else o) e ∙ either_none (is_some (strip ps us))

abbrev or_else : Option MutationNode → Option MutationNode → Option MutationNode
or_else none other = other
or_else (some n) other = some n

or_none : (o : Option MutationNode) → or_else o none ≡ o
or_none none = refl
or_none (some n) = refl

abbrev graft_at :
    Tree → List Bytes → Option MutationNode → Option (List Bytes) → Option MutationNode
graft_at t ss other none = other
graft_at t ss other (some vs) = t (ss ++ vs)

graft_dir :
    (nodes : Nodes) (t : Tree) (ss ds us : List Bytes)
    → Shows nodes t
    → All Plain ss
    → All Plain ds
    → All Plain us
    → Closed t
    → t ds ≡ none
    → or_else (moved_at nodes ss ds us) (cut ss t us) ≡ graft ss ds t us
graft_dir nodes t ss ds us s hs hd h c e = elim (Option-cases (strip ds us)) [
  | inl g ↦
      ap (λ o. or_else (behind nodes ss o) (cut ss t us)) g
      ∙ sym (ap (graft_at t ss (cut ss t us)) g)
  | inr (vs, g) ↦
      let hv = strip-Plain ds us vs h g in
      let gone = ap t (strip-same ds us vs g) ∙ under_vacant t ds vs c hd hv e in
      ap (λ o. or_else (behind nodes ss o) (cut ss t us)) g
      ∙ ap (λ o. or_else o (cut ss t us)) (s (ss ++ vs) (All-append Plain ss vs hs hv))
      ∙ ap (or_else (t (ss ++ vs))) (cut-none t ss us gone)
      ∙ or_none (t (ss ++ vs))
      ∙ sym (ap (graft_at t ss (cut ss t us)) g)
]

graft_file :
    (t : Tree) (node : MutationNode) (ss ds us : List Bytes)
    → All Plain ss
    → All Plain ds
    → All Plain us
    → Closed t
    → t ss ≡ some node
    → dir_at t ss ≡ false
    → t ds ≡ none
    → update ds node (cut ss t) us ≡ graft ss ds t us
graft_file t node ss ds us hs hd h c at d e = elim (Option-cases (strip ds us)) [
  | inl g ↦
      ap (λ b. if b then some node else cut ss t us)
        (same_path_sym ds us
          ∙ ap (λ x. same_path us x) (sym (append-nil ds))
          ∙ same_path_outside ds us [] g)
      ∙ sym (ap (graft_at t ss (cut ss t us)) g)
  | inr ([], g) ↦
      let same : ds ≡ us = sym (strip-same ds us [] g ∙ append-nil ds) in
      ap (λ b. if b then some node else cut ss t us)
        (subst (λ x. same_path ds x ≡ true) same (same_path_refl ds))
      ∙ sym at
      ∙ ap t (sym (append-nil ss))
      ∙ sym (ap (graft_at t ss (cut ss t us)) g)
  | inr (v ∷ vs, g) ↦
      let hv = strip-Plain ds us (v ∷ vs) h g in
      let split = strip-same ds us (v ∷ vs) g in
      let gone = ap t split ∙ none_below t ds v vs c hd hv (dir_none t ds e) in
      ap (λ b. if b then some node else cut ss t us)
        (ap (same_path ds) split
          ∙ ap (λ x. same_path x (ds ++ (v ∷ vs))) (sym (append-nil ds))
          ∙ same_path-append ds [] (v ∷ vs))
      ∙ cut-none t ss us gone
      ∙ sym (none_below t ss v vs c hs hv d)
      ∙ sym (ap (graft_at t ss (cut ss t us)) g)
]

-- The nodes of a directory at their new paths.
pub graft_dir-Shows :
    (nodes : Nodes) (t : Tree) (p q : Bytes)
    → Shows nodes t
    → Placed nodes
    → IsPlace p
    → IsPlace q
    → Closed t
    → is_empty (components p) ≡ false
    → is_empty (components q) ≡ false
    → t (components q) ≡ none
    → Shows
        (insert_all (moved p q nodes) (remove_subtree p nodes))
        (graft (components p) (components q) t)
graft_dir-Shows nodes t p q s w i j c e f vacant us h =
    lookup-insert_all (render true us) (moved p q nodes) (remove_subtree p nodes)
    ∙ or_else_lem (lookup (render true us) (moved p q nodes))
        (lookup (render true us) (remove_subtree p nodes))
    ∙ ap (λ o. or_else o (lookup (render true us) (remove_subtree p nodes)))
        (ap (λ x. lookup (render true us) (moved x q nodes)) i.rendered
          ∙ ap (λ x. lookup (render true us) (moved (render true (components p)) x nodes))
              j.rendered
          ∙ lookup-moved nodes (components p) (components q) us w i.plain j.plain h e f)
    ∙ ap (or_else (moved_at nodes (components p) (components q) us))
        (remove_subtree-Shows nodes t p s i us h)
    ∙ graft_dir nodes t (components p) (components q) us s i.plain j.plain h c vacant
  where
    or_else_lem :
        (o other : Option MutationNode)
        → ◌≡◌ {A = Option MutationNode}
            (elim o [ none ↦ other | some n ↦ some n ])
            (or_else o other)
    or_else_lem none other = refl
    or_else_lem (some n) other = refl

pub graft_file-Shows :
    (nodes : Nodes) (t : Tree) (node : MutationNode) (p q : Bytes)
    → Shows nodes t
    → IsPlace p
    → IsPlace q
    → Closed t
    → t (components p) ≡ some node
    → dir_at t (components p) ≡ false
    → t (components q) ≡ none
    → Shows (insert q node (remove p nodes)) (graft (components p) (components q) t)
graft_file-Shows nodes t node p q s i j c here d vacant us h =
    insert-Shows (remove p nodes) (cut (components p) t) (remove-Shows nodes t p s i c d) q node j
      us h
    ∙ graft_file t node (components p) (components q) us i.plain j.plain h c here d vacant
