-- ===== src/Mutation/Shape.antt =====
-- mutate.go: `applyVirtualOperation` on a state whose nodes form a tree.
use randfiletree.Prelude.{
  true, none, List, [], ◌∷◌, ◌++◌, Bytes, ok, err, Check, eqb, eqb-same, ◌≡◌, refl, sym, ap, ◌∙◌,
  All, inl, inr, Bool-cases,
}
use randfiletree.Prelude.Dict.{lookup}
use mathlib.Core.Path.{subst}
use randfiletree.GoPath.{render}
use randfiletree.GoPath.Rooted.{Plain, components-render}
use randfiletree.GoPath.Below.{is_some, All-append}
use randfiletree.Operation.{Operation, normalize_operation}
use randfiletree.Mutation.{Nodes, MutationState, has_parent_directory, invalidate_path_indexes}
use randfiletree.Mutation.Virtual.{VirtualError, Change, change_nodes, apply_virtual_operation}
use randfiletree.Mutation.Tree.{Tree, Effect, dir_at, parent_of, effect}
use randfiletree.Mutation.Places.{IsPlace}
use randfiletree.Mutation.Moved.{Placed}
use randfiletree.Mutation.Refine.{Shows, Refines, agrees, fails, view, parent_at_place}
use randfiletree.Mutation.Graft.{Closed}
use randfiletree.Mutation.Effects.{change_nodes-Refines}
use randfiletree.Mutation.Normal.{normalize_operation-IsPlaced}

-- The parent of each path is a directory of the nodes; the root is its own parent.
abbrev pub Parented : Nodes → Nodes → Type 0
Parented all [] = Unit
Parented all ((p, n) ∷ nodes) = (has_parent_directory p all ≡ true) × Parented all nodes

pub record WellFormed (nodes : Nodes) : Type 0 where
  pub placed : Placed nodes
  pub parented : Parented nodes nodes

key-parent :
    (all nodes : Nodes) (k : Bytes)
    → Parented all nodes
    → is_some (lookup k nodes) ≡ true
    → has_parent_directory k all ≡ true
unfolding lookup
key-parent all [] k h e = cc
key-parent all ((p, n) ∷ nodes) k (d, h) e = elim (Bool-cases (eqb p k)) [
  | inl f ↦ subst (λ x. has_parent_directory x all ≡ true) (eqb-same p k f) d
  | inr f ↦ key-parent all nodes k h (rw f at e)
]

parent_of-snoc : (us : List Bytes) (w : Bytes) → parent_of (us ++ (w ∷ [])) ≡ us
parent_of-snoc [] w = refl
parent_of-snoc (u ∷ []) w = refl
parent_of-snoc (u ∷ v ∷ us) w = ap (λ xs. u ∷ xs) (parent_of-snoc (v ∷ us) w)

pub WellFormed-Closed : (nodes : Nodes) → WellFormed nodes → Closed (view nodes)
WellFormed-Closed nodes w us v h p e =
    let plain = All-append Plain us (v ∷ []) h (p, tt) in
    let back = components-render (us ++ (v ∷ [])) plain in
    let place : IsPlace (render true (us ++ (v ∷ []))) = record {
      plain = subst (All Plain) (sym back) plain;
      rendered = ap (render true) (sym back);
    } in
    ap (dir_at (view nodes)) (sym (ap parent_of back ∙ parent_of-snoc us v))
    ∙ sym (parent_at_place nodes (view nodes) (λ us h. refl) _ place)
    ∙ key-parent nodes nodes _ w.parented e

-- The state is the one that the effect describes, or the nodes are as before and the error is the
-- effect's. The indexes are gone in both cases.
pub data Carried (s : MutationState) : Check VirtualError × MutationState → Effect → Type 0 where
  carried :
      {s' : MutationState} {t : Tree}
      → Shows s'.nodes t
      → s'.indexes ≡ none
      → s'.name_seq ≡ s.name_seq
      → Carried s (ok tt, s') (ok t)
  refused :
      {s' : MutationState} {e : VirtualError}
      → s'.nodes ≡ s.nodes
      → s'.indexes ≡ none
      → s'.name_seq ≡ s.name_seq
      → Carried s (err e, s') (err e)

-- A normalized operation, applied to nodes in which every path is in its normal form and has a
-- directory as its parent, does to the tree of the nodes what its effect says, or is refused with
-- the effect's error and changes no node. In both cases the sorted indexes are dropped.
pub apply_virtual_operation-Carried :
    (raw op : Operation) (s : MutationState)
    → normalize_operation raw ≡ ok op
    → WellFormed s.nodes
    → Carried s (apply_virtual_operation op s) (effect op (view s.nodes))
unfolding apply_virtual_operation invalidate_path_indexes
apply_virtual_operation-Carried raw op s h w =
    go (change_nodes op s.nodes) (effect op (view s.nodes)) (
      change_nodes-Refines op s.nodes (view s.nodes) (normalize_operation-IsPlaced raw op h)
        w.placed (WellFormed-Closed s.nodes w) (λ us h. refl))
  where
    go :
        (c : Change) (t : Effect)
        → Refines c t
        → Carried s
            (elim c [
              | err e ↦ (err e, invalidate_path_indexes s)
              | ok nodes ↦ (ok tt, record (invalidate_path_indexes s) { nodes = nodes })
            ])
            t
    go _ _ (agrees r) = carried r refl refl
    go _ _ fails = refused refl refl refl
