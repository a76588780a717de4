-- ===== src/GoPath/Rooted.antt =====
-- Go's `path.Clean` on rooted paths: what it returns is clean.
use randfiletree.Prelude.{
  ℕ, Bool, true, false, List, [], ◌∷◌, ◌++◌, Bytes, eqb, ◌==◌, is_empty, ◌||◌, ◌≡◌, refl, ap, ◌∙◌,
  All, inl, inr, arith, Bool-cases,
}
use mathlib.Core.List.{reverse, reverse_aux, reverse-reverse}
use randfiletree.GoPath.{
  slash, dot, dot_dot, cons_head, split_path, join_components, is_rooted, go_up, keep, keep_all,
  components, render, clean,
}

-- No slash and no NUL.
abbrev pub Allowed : ℕ → Type 0
Allowed c = ((c == slash) ≡ false) × ((c == 0) ≡ false)

abbrev pub NotNul : ℕ → Type 0
NotNul c = (c == 0) ≡ false

-- A component that a clean rooted path can have.
pub record Plain (w : Bytes) : Type 0 where
  pub some_text : is_empty w ≡ false
  pub not_dot : eqb w dot ≡ false
  pub not_dot_dot : eqb w dot_dot ≡ false
  pub allowed : All Allowed w

cons_head-Allowed :
    (c : ℕ) (ws : List Bytes)
    → Allowed c
    → All (All Allowed) ws
    → All (All Allowed) (cons_head c ws)
cons_head-Allowed c [] a h = ((a, tt), tt)
cons_head-Allowed c (w ∷ ws) a (h, k) = ((a, h), k)

split_path-Allowed : (s : Bytes) → All NotNul s → All (All Allowed) (split_path s)
unfolding split_path
split_path-Allowed [] h = (tt, tt)
split_path-Allowed (c ∷ s) (n, h) = elim (Bool-cases (c == slash)) [
  | inl e ↦ rw e (tt, split_path-Allowed s h)
  | inr e ↦ rw e (cons_head-Allowed c _ (e, n) (split_path-Allowed s h))
]

keep-Plain :
    (kept : List Bytes) (w : Bytes) → All Plain kept → All Allowed w → All Plain (keep true kept w)
unfolding keep go_up
keep-Plain kept w h a = elim (Bool-cases (is_empty w || eqb w dot)) [
  | inl e ↦ rw e h
  | inr e ↦ elim (Bool-cases (eqb w dot_dot)) [
    | inl f ↦ rw (e, f) (up kept h)
    | inr f ↦
        rw (e, f)
          (
            record {
              some_text = ground arith;
              not_dot = ground arith;
              not_dot_dot = f;
              allowed = a;
            },
            h,
          )
  ]
]
  where
    up : (kept : List Bytes) → All Plain kept → All Plain (go_up true kept)
    up [] h = tt
    up (w ∷ kept) (p, h) = rw (p.not_dot_dot) h

keep_all-Plain :
    (ws kept : List Bytes)
    → All Plain kept
    → All (All Allowed) ws
    → All Plain (keep_all true kept ws)
unfolding keep_all
keep_all-Plain [] kept h k = h
keep_all-Plain (w ∷ ws) kept h (a, k) = keep_all-Plain ws _ (keep-Plain kept w h a) k

reverse_aux-All : (xs ys : List Bytes) → All Plain xs → All Plain ys → All Plain (reverse_aux xs ys)
reverse_aux-All [] ys h k = k
reverse_aux-All (x ∷ xs) ys (p, h) k = reverse_aux-All xs (x ∷ ys) h (p, k)

pub components-Plain : (s : Bytes) → is_rooted s ≡ true → All NotNul s → All Plain (components s)
unfolding components
components-Plain s r h =
    rw r (reverse_aux-All _ [] (keep_all-Plain _ [] tt (split_path-Allowed s h)) tt)

pub split_path-text : (w : Bytes) → All Allowed w → split_path w ≡ w ∷ []
unfolding split_path
split_path-text [] h = refl
split_path-text (c ∷ w) (a, h) = rw (a.0, split_path-text w h) refl

pub split_path-before_slash :
    (w s : Bytes) → All Allowed w → split_path (w ++ (slash ∷ s)) ≡ w ∷ split_path s
unfolding split_path
split_path-before_slash [] s h = refl
split_path-before_slash (c ∷ w) s (a, h) = rw (a.0, split_path-before_slash w s h) refl

pub split_path-join_components :
    (w : Bytes) (ws : List Bytes)
    → All Plain (w ∷ ws)
    → split_path (join_components (w ∷ ws)) ≡ w ∷ ws
unfolding join_components
split_path-join_components w [] (p, h) = split_path-text w p.allowed
split_path-join_components w (v ∷ ws) (p, h) =
    split_path-before_slash w _ p.allowed ∙ ap (λ xs. w ∷ xs) (split_path-join_components v ws h)

pub keep_all-reverse_aux :
    (ws kept : List Bytes) → All Plain ws → keep_all true kept ws ≡ reverse_aux ws kept
unfolding keep_all keep
keep_all-reverse_aux [] kept h = refl
keep_all-reverse_aux (w ∷ ws) kept (p, h) =
    rw (p.some_text, p.not_dot, p.not_dot_dot) (keep_all-reverse_aux ws (w ∷ kept) h)

pub components-render : (ws : List Bytes) → All Plain ws → components (render true ws) ≡ ws
unfolding components render is_rooted split_path keep_all keep
components-render [] h = refl
components-render (w ∷ ws) h =
    rw (split_path-join_components w ws h)
      (ap reverse (keep_all-reverse_aux (w ∷ ws) [] h) ∙ reverse-reverse (w ∷ ws))

pub clean-render : (ws : List Bytes) → All Plain ws → clean (render true ws) ≡ render true ws
unfolding clean render is_rooted
clean-render ws h = ap (render true) (components-render ws h)

pub clean-rooted : (s : Bytes) → is_rooted s ≡ true → clean s ≡ render true (components s)
unfolding clean
clean-rooted s r = ap (λ b. render b (components s)) r

-- Cleaning a rooted path once is enough.
pub clean-clean : (s : Bytes) → is_rooted s ≡ true → All NotNul s → clean (clean s) ≡ clean s
clean-clean s r h = rw (clean-rooted s r) (clean-render (components s) (components-Plain s r h))

Allowed-NotNul : (w : Bytes) → All Allowed w → All NotNul w
Allowed-NotNul [] h = tt
Allowed-NotNul (c ∷ w) (a, h) = (a.1, Allowed-NotNul w h)

append-NotNul : (w t : Bytes) → All Allowed w → All NotNul t → All NotNul (w ++ t)
append-NotNul [] t h k = k
append-NotNul (c ∷ w) t (a, h) k = (a.1, append-NotNul w t h k)

join_components-NotNul : (ws : List Bytes) → All Plain ws → All NotNul (join_components ws)
unfolding join_components
join_components-NotNul [] h = tt
join_components-NotNul (w ∷ []) (p, h) = Allowed-NotNul w p.allowed
join_components-NotNul (w ∷ v ∷ ws) (p, h) =
    append-NotNul w _ p.allowed (refl, join_components-NotNul (v ∷ ws) h)

pub clean-NotNul : (s : Bytes) → is_rooted s ≡ true → All NotNul s → All NotNul (clean s)
unfolding render
clean-NotNul s r h =
    rw (clean-rooted s r, render)
      (refl, join_components-NotNul (components s) (components-Plain s r h))

-- A component of a relative path.
abbrev Named : Bytes → Type 0
Named w = (is_empty w ≡ false) × All Allowed w

go_up-Named : (kept : List Bytes) → All Named kept → All Named (go_up false kept)
unfolding go_up
go_up-Named [] h = ((refl, ((refl, refl), ((refl, refl), tt))), tt)
go_up-Named (w ∷ kept) (n, h) = elim (Bool-cases (eqb w dot_dot)) [
  | inl e ↦ rw e ((refl, ((refl, refl), ((refl, refl), tt))), (n, h))
  | inr e ↦ rw e h
]

keep-Named :
    (kept : List Bytes) (w : Bytes) → All Named kept → All Allowed w → All Named (keep false kept w)
unfolding keep
keep-Named kept w h a = elim (Bool-cases (is_empty w || eqb w dot)) [
  | inl e ↦ rw e h
  | inr e ↦ elim (Bool-cases (eqb w dot_dot)) [
    | inl f ↦ rw (e, f) (go_up-Named kept h)
    | inr f ↦ rw (e, f) ((ground arith, a), h)
  ]
]

keep_all-Named :
    (ws kept : List Bytes)
    → All Named kept
    → All (All Allowed) ws
    → All Named (keep_all false kept ws)
unfolding keep_all
keep_all-Named [] kept h k = h
keep_all-Named (w ∷ ws) kept h (a, k) = keep_all-Named ws _ (keep-Named kept w h a) k

reverse_aux-Named :
    (xs ys : List Bytes) → All Named xs → All Named ys → All Named (reverse_aux xs ys)
reverse_aux-Named [] ys h k = k
reverse_aux-Named (x ∷ xs) ys (p, h) k = reverse_aux-Named xs (x ∷ ys) h (p, k)

relative-is_rooted : (ws : List Bytes) → All Named ws → is_rooted (render false ws) ≡ false
unfolding render is_rooted join_components
relative-is_rooted [] h = refl
relative-is_rooted ((c ∷ w) ∷ []) ((_, a), h) = a.0.0
relative-is_rooted ((c ∷ w) ∷ v ∷ ws) ((_, a), h) = a.0.0
relative-is_rooted ([] ∷ ws) ((e, a), h) = cc

-- Cleaning does not make a relative path rooted.
pub clean-is_rooted : (s : Bytes) → All NotNul s → is_rooted (clean s) ≡ true → is_rooted s ≡ true
unfolding clean components
clean-is_rooted s h e = elim (Bool-cases (is_rooted s)) [
  | inl r ↦ r
  | inr r ↦ absurd (
      contradiction
        (relative-is_rooted _ (
          reverse_aux-Named _ [] (keep_all-Named (split_path s) [] tt (split_path-Allowed s h)) tt))
        (rw r at e))
]
  where
    contradiction : {b : Bool} → b ≡ false → b ≡ true → ⊥
    contradiction f t = cc
