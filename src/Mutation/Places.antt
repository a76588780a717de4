-- ===== src/Mutation/Places.antt =====
-- mutate.go: the paths of the virtual nodes as component lists.
use randfiletree.Prelude.{
  Bool, true, false, none, some, List, [], ◌∷◌, ◌++◌, Bytes, eqb, eqb-same, eqb_refl, dec_bytes,
  is_empty, not, ◌||◌, ◌≡◌, refl, sym, ap, ◌∙◌, All, inl, inr, arith, Bool-cases, Option-cases,
  has_prefix,
}
use mathlib.Core.Path.{subst}
use mathlib.Core.List.{append-nil}
use randfiletree.GoPath.{slash, root, render, components, dir_of}
use randfiletree.GoPath.Rooted.{Plain}
use randfiletree.GoPath.Below.{
  strip, strip-append, strip-same, is_some, render-tail_text, tail_text, has_prefix-tail_text,
  render-same, dir_of-name,
}
use randfiletree.Mutation.{is_child_mutation_path}
use randfiletree.Mutation.Tree.{same_path, parent_of}

-- A path in its normal form: the operations and the virtual nodes have no other.
pub record IsPlace (p : Bytes) : Type 0 where
  pub plain : All Plain (components p)
  pub rendered : p ≡ render true (components p)

pub same_path_refl : (us : List Bytes) → same_path us us ≡ true
same_path_refl [] = refl
same_path_refl (u ∷ us) = rw (eqb_refl u, same_path_refl us) refl

pub same_path-same : (us ws : List Bytes) → same_path us ws ≡ true → us ≡ ws
same_path-same [] [] h = refl
same_path-same [] (w ∷ ws) h = cc
same_path-same (u ∷ us) [] h = cc
same_path-same (u ∷ us) (w ∷ ws) h = ground (arith, eqb-same u w, same_path-same us ws)

Bool-same : (a b : Bool) → (a ≡ true → b ≡ true) → (b ≡ true → a ≡ true) → a ≡ b
Bool-same true b f g = sym (f refl)
Bool-same false true f g = g refl
Bool-same false false f g = refl

-- Normal forms are equal texts where their components are.
pub eqb-render :
    (us ws : List Bytes)
    → All Plain us
    → All Plain ws
    → eqb (render true us) (render true ws) ≡ same_path us ws
eqb-render us ws h k =
    Bool-same _ _
      (λ e.
        subst (λ x. same_path us x ≡ true) (render-same us ws h k (eqb-same _ _ e))
          (same_path_refl us))
      (λ e.
        subst (λ x. eqb (render true us) (render true x) ≡ true) (same_path-same us ws e)
          (eqb_refl (render true us)))

same_path-strip : (us ws : List Bytes) → same_path us ws ≡ true → strip ws us ≡ some []
same_path-strip us ws e =
    ap (λ x. strip ws x) (same_path-same us ws e ∙ sym (append-nil ws)) ∙ strip-append ws []

strictly : List Bytes → List Bytes → Bool
strictly ws us = elim (strip ws us) [ none ↦ false | some vs ↦ not (is_empty vs) ]

prefix-strictly :
    (us : List Bytes) (w : Bytes) (ws : List Bytes)
    → All Plain us
    → All Plain (w ∷ ws)
    → has_prefix (render true us) (render true (w ∷ ws) ++ (slash ∷ [])) ≡ strictly (w ∷ ws) us
unfolding strictly render
prefix-strictly [] [] ws h (p, k) = absurd (no_text p.some_text)
  where
    no_text : true ≡ false → ⊥
    no_text x = cc
prefix-strictly [] (c ∷ w) ws h k =
    ap (λ s. has_prefix root (s ++ (slash ∷ []))) (render-tail_text (c ∷ w) ws)
    ∙ unfold has_prefix strip in refl
prefix-strictly (u ∷ us) w ws h k =
    ap (λ s. has_prefix s (render true (w ∷ ws) ++ (slash ∷ []))) (render-tail_text u us)
    ∙ ap (λ s. has_prefix (tail_text (u ∷ us)) (s ++ (slash ∷ []))) (render-tail_text w ws)
    ∙ has_prefix-tail_text (u ∷ us) (w ∷ ws) h k

is_child-strictly :
    (us : List Bytes) (w : Bytes) (ws : List Bytes)
    → All Plain us
    → All Plain (w ∷ ws)
    → is_child_mutation_path (render true us) (render true (w ∷ ws)) ≡ strictly (w ∷ ws) us
unfolding is_child_mutation_path dec_bytes strictly render strip
is_child-strictly us w ws h k =
    rw (is_child_mutation_path, eqb-render (w ∷ ws) [] k tt) (prefix-strictly us w ws h k)

same_or_strictly :
    (us ws : List Bytes) → (same_path us ws || strictly ws us) ≡ is_some (strip ws us)
unfolding strictly
same_or_strictly us ws = elim (Option-cases (strip ws us)) [
  | inl e ↦ elim (Bool-cases (same_path us ws)) [
    | inl f ↦ absurd (ground (arith, e, same_path-strip us ws f))
    | inr f ↦ rw (strictly, e, f) refl
  ]
  | inr ([], e) ↦
      let same : us ≡ ws = strip-same ws us [] e ∙ append-nil ws in
      let f : same_path us ws ≡ true =
        subst (λ x. same_path us x ≡ true) same (same_path_refl us) in
      rw (strictly, e, f) refl
  | inr (v ∷ vs, e) ↦ rw (strictly, e) (or_true (same_path us ws))
]
  where
    or_true : (b : Bool) → (b || true) ≡ true
    or_true true = refl
    or_true false = refl

-- A path is another one or below it where it has its components in front.
pub is_child-strip :
    (us ws : List Bytes)
    → All Plain us
    → All Plain ws
    → (eqb (render true us) (render true ws)
        || is_child_mutation_path (render true us) (render true ws))
      ≡ is_some (strip ws us)
unfolding is_child_mutation_path strip render dec_bytes
is_child-strip us [] h k = or_not (eqb (render true us) root)
  where
    or_not : (b : Bool) → (b || not b) ≡ true
    or_not true = refl
    or_not false = refl
is_child-strip us (w ∷ ws) h k =
    rw (eqb-render us (w ∷ ws) h k, is_child-strictly us w ws h k) (same_or_strictly us (w ∷ ws))

-- The directory of a path in its normal form.
snoc_form : (w : Bytes) (ws : List Bytes) → (v : Bytes) × (w ∷ ws ≡ parent_of (w ∷ ws) ++ (v ∷ []))
snoc_form w [] = (w, refl)
snoc_form w (v ∷ ws) = let (x, e) = snoc_form v ws in (x, ap (λ xs. w ∷ xs) e)

pub parent_of-Plain : (us : List Bytes) → All Plain us → All Plain (parent_of us)
parent_of-Plain [] h = tt
parent_of-Plain (u ∷ []) h = tt
parent_of-Plain (u ∷ v ∷ us) (p, h) = (p, parent_of-Plain (v ∷ us) h)

last-Plain : (us : List Bytes) (v : Bytes) → All Plain (us ++ (v ∷ [])) → Plain v
last-Plain [] v (p, h) = p
last-Plain (u ∷ us) v (p, h) = last-Plain us v h

pub dir_of-parent_of :
    (us : List Bytes) → All Plain us → dir_of (render true us) ≡ render true (parent_of us)
dir_of-parent_of [] h = unfold dir_of render in refl
dir_of-parent_of (u ∷ us) h =
    let (v, e) = snoc_form u us in
    ap (λ x. dir_of (render true x)) e
    ∙ dir_of-name (parent_of (u ∷ us)) v (parent_of-Plain (u ∷ us) h)
        (last-Plain (parent_of (u ∷ us)) v (subst (All Plain) e h))

pub same_path-append : (us vs ws : List Bytes) → same_path (us ++ vs) (us ++ ws) ≡ same_path vs ws
same_path-append [] vs ws = refl
same_path-append (u ∷ us) vs ws = rw (eqb_refl u) (same_path-append us vs ws)

-- What is not below a directory is none of the paths in it.
pub same_path_outside :
    (ws us vs : List Bytes) → strip ws us ≡ none → same_path us (ws ++ vs) ≡ false
same_path_outside ws us vs h = elim (Bool-cases (same_path us (ws ++ vs))) [
  | inr e ↦ e
  | inl e ↦
      let found = ap (λ x. strip ws x) (same_path-same us (ws ++ vs) e) ∙ strip-append ws vs in
      absurd (ground (arith, h, found))
]

pub same_path_sym : (us ws : List Bytes) → same_path us ws ≡ same_path ws us
same_path_sym us ws =
    Bool-same _ _
      (λ e. subst (λ x. same_path x us ≡ true) (same_path-same us ws e) (same_path_refl us))
      (λ e. subst (λ x. same_path x ws ≡ true) (same_path-same ws us e) (same_path_refl ws))
