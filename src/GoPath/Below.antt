-- ===== src/GoPath/Below.antt =====
-- Go's paths as lists of components: parents, joined names, and what lies below a directory.
use randfiletree.Prelude.{
  ℕ, Bool, true, false, Option, none, some, List, [], ◌∷◌, ◌++◌, Bytes, eqb, eqb-same, eqb_refl,
  eqb-differ, eqb_differ, dec_bytes, ◌==◌, if◌then◌else◌, is_empty, not, ◌&&◌, ◌≡◌, refl, sym, ap,
  ◌∙◌, All, inl, inr, ◌⊎◌, arith, Bool-cases, has_prefix, drop_prefix, trim_prefix,
}
use mathlib.Core.List.{
  reverse, reverse_aux, reverse-reverse, reverse-cons, append-nil, append_assoc,
}
use mathlib.Core.Path.{subst, ap₂}
use randfiletree.GoPath.{
  slash, split_path, join_components, is_rooted, keep, keep_all, components, render, clean, join,
  split_last, dir_of,
}
use randfiletree.GoPath.Rooted.{
  Plain, Allowed, components-render, clean-render, split_path-before_slash, split_path-text,
  keep_all-reverse_aux, clean-rooted,
}

-- Each component behind a slash.
abbrev pub tail_text : List Bytes → Bytes
tail_text [] = []
tail_text (w ∷ ws) = slash ∷ (w ++ tail_text ws)

pub render-tail_text : (w : Bytes) (ws : List Bytes) → render true (w ∷ ws) ≡ tail_text (w ∷ ws)
unfolding render join_components
render-tail_text w ws = ap (λ s. slash ∷ s) (go w ws)
  where
    go : (w : Bytes) (ws : List Bytes) → join_components (w ∷ ws) ≡ w ++ tail_text ws
    go w [] = sym (append-nil w)
    go w (v ∷ ws) = ap (λ s. w ++ (slash ∷ s)) (go v ws)

tail_text-append : (us ws : List Bytes) → tail_text (us ++ ws) ≡ tail_text us ++ tail_text ws
tail_text-append [] ws = refl
tail_text-append (u ∷ us) ws =
    ap (λ s. slash ∷ s)
      (ap (λ s. u ++ s) (tail_text-append us ws)
        ∙ sym (append_assoc u (tail_text us) (tail_text ws)))

split_path-tail_text :
    (ws : List Bytes) → All (All Allowed) ws → split_path (tail_text ws) ≡ [] ∷ ws
unfolding split_path
split_path-tail_text [] h = refl
split_path-tail_text (w ∷ ws) (a, h) = ap (λ xs. [] ∷ xs) (word w ws a h)
  where
    word :
        (w : Bytes) (ws : List Bytes)
        → All Allowed w
        → All (All Allowed) ws
        → split_path (w ++ tail_text ws) ≡ w ∷ ws
    word w [] a h = ap split_path (append-nil w) ∙ split_path-text w a
    word w (v ∷ ws) a (b, h) =
        split_path-before_slash w (v ++ tail_text ws) a ∙ ap (λ xs. w ∷ xs) (word v ws b h)

keep_all-append :
    (rooted : Bool) (kept us ws : List Bytes)
    → keep_all rooted kept (us ++ ws) ≡ keep_all rooted (keep_all rooted kept us) ws
unfolding keep_all
keep_all-append rooted kept [] ws = refl
keep_all-append rooted kept (u ∷ us) ws = keep_all-append rooted (keep rooted kept u) us ws

Plain-Allowed : (ws : List Bytes) → All Plain ws → All (All Allowed) ws
Plain-Allowed [] h = tt
Plain-Allowed (w ∷ ws) (p, h) = (p.allowed, Plain-Allowed ws h)

pub All-append :
    {A : Type 0} (P : A → Type 0) (us ws : List A) → All P us → All P ws → All P (us ++ ws)
All-append P [] ws h k = k
All-append P (u ∷ us) ws (p, h) k = (p, All-append P us ws h k)

is_rooted-tail_text : (ws : List Bytes) (s : Bytes) → is_rooted (tail_text ws ++ (slash ∷ s)) ≡ true
unfolding is_rooted
is_rooted-tail_text [] s = refl
is_rooted-tail_text (w ∷ ws) s = refl

-- What is kept of plain components and one more.
keep_all-snoc :
    (ws : List Bytes) (w : Bytes)
    → All Plain ws
    → keep_all true [] ([] ∷ (ws ++ (w ∷ []))) ≡ keep true (reverse_aux ws []) w
unfolding keep_all keep
keep_all-snoc ws w h =
    keep_all-append true [] ws (w ∷ [])
    ∙ ap (λ kept. keep true kept w) (keep_all-reverse_aux ws [] h)

components-snoc :
    (ws : List Bytes) (w : Bytes)
    → All Plain ws
    → All Allowed w
    → components (tail_text ws ++ (slash ∷ w)) ≡ reverse (keep true (reverse_aux ws []) w)
unfolding components
components-snoc ws w h a = rw (is_rooted-tail_text ws w) (
    ap (λ xs. reverse (keep_all true [] xs))
      (ap split_path same
        ∙ split_path-tail_text (ws ++ (w ∷ []))
            (All-append (All Allowed) ws (w ∷ []) (Plain-Allowed ws h) (a, tt)))
    ∙ ap reverse (keep_all-snoc ws w h))
  where
    same : tail_text ws ++ (slash ∷ w) ≡ tail_text (ws ++ (w ∷ []))
    same =
        ap (λ s. tail_text ws ++ (slash ∷ s)) (sym (append-nil w))
        ∙ sym (tail_text-append ws (w ∷ []))

-- A plain path with a slash behind it is cleaned of the slash.
clean-slash :
    (ws : List Bytes) → All Plain ws → clean (tail_text ws ++ (slash ∷ [])) ≡ render true ws
unfolding keep
clean-slash ws h =
    clean-rooted _ (is_rooted-tail_text ws [])
    ∙ ap (render true) (components-snoc ws [] h tt ∙ reverse-reverse ws)

-- A plain path with a plain name behind it is clean.
clean-name :
    (ws : List Bytes) (w : Bytes)
    → All Plain ws
    → Plain w
    → clean (tail_text ws ++ (slash ∷ w)) ≡ render true (ws ++ (w ∷ []))
unfolding keep
clean-name ws w h p =
    clean-rooted _ (is_rooted-tail_text ws w)
    ∙ ap (render true) (
        components-snoc ws w h p.allowed
        ∙ rw (p.some_text, p.not_dot, p.not_dot_dot)
            (reverse-cons w (reverse ws) ∙ ap (λ xs. xs ++ (w ∷ [])) (reverse-reverse ws)))

split_last-name :
    (s w : Bytes) → All Allowed w → split_last (s ++ (slash ∷ w)) ≡ (s ++ (slash ∷ []), w)
unfolding split_last
split_last-name [] w a = rw (word w a) refl
  where
    word : (w : Bytes) → All Allowed w → split_last w ≡ ([], w)
    word [] a = refl
    word (c ∷ w) (b, a) = rw (word w a, b.0) refl
split_last-name (c ∷ s) w a = rw (split_last-name s w a) (ground (arith, not_empty s))
  where
    not_empty : (s : Bytes) → is_empty (s ++ (slash ∷ [])) ≡ false
    not_empty [] = refl
    not_empty (d ∷ s) = refl

render-snoc :
    (ws : List Bytes) (w : Bytes) → render true (ws ++ (w ∷ [])) ≡ tail_text ws ++ (slash ∷ w)
render-snoc [] w = render-tail_text w [] ∙ ap (λ s. slash ∷ s) (append-nil w)
render-snoc (v ∷ ws) w =
    render-tail_text v (ws ++ (w ∷ []))
    ∙ tail_text-append (v ∷ ws) (w ∷ [])
    ∙ ap (λ s. tail_text (v ∷ ws) ++ (slash ∷ s)) (append-nil w)

-- The directory of a name in a plain path.
pub dir_of-name :
    (ws : List Bytes) (w : Bytes)
    → All Plain ws
    → Plain w
    → dir_of (render true (ws ++ (w ∷ []))) ≡ render true ws
unfolding dir_of
dir_of-name ws w h p =
    ap (λ s. clean (split_last s).0) (render-snoc ws w)
    ∙ ap (λ (s : Bytes × Bytes). clean s.0) (split_last-name (tail_text ws) w p.allowed)
    ∙ clean-slash ws h

root_name : (w : Bytes) → Plain w → clean (slash ∷ slash ∷ w) ≡ render true (w ∷ [])
unfolding clean components is_rooted split_path keep_all keep
root_name w p =
    ap (λ xs. render true (reverse (keep_all true [] ([] ∷ [] ∷ xs)))) (split_path-text w p.allowed)
    ∙ rw (p.some_text, p.not_dot, p.not_dot_dot) refl

-- `Join` of a plain path with a plain name.
pub join-name :
    (ws : List Bytes) (w : Bytes)
    → All Plain ws
    → Plain w
    → join (render true ws) w ≡ render true (ws ++ (w ∷ []))
unfolding join render
join-name ws [] h p = absurd (no_text p.some_text)
  where
    no_text : true ≡ false → ⊥
    no_text e = cc
join-name [] (c ∷ w) h p = root_name (c ∷ w) p
join-name (v ∷ ws) (c ∷ w) h p =
    ap (λ s. clean (s ++ (slash ∷ c ∷ w))) (render-tail_text v ws) ∙ clean-name (v ∷ ws) (c ∷ w) h p

-- What is left of a path behind another one; `none` where that is not above it.
unfoldable pub strip : List Bytes → List Bytes → Option (List Bytes)
strip [] us = some us
strip (w ∷ ws) [] = none
strip (w ∷ ws) (u ∷ us) = let rest = strip ws us in if eqb u w then rest else none

abbrev pub is_some {ℓ} : {A : Type ℓ} → Option A → Bool
is_some none = false
is_some (some a) = true

pub strip-append : (ws vs : List Bytes) → strip ws (ws ++ vs) ≡ some vs
unfolding strip
strip-append [] vs = refl
strip-append (w ∷ ws) vs = rw (eqb_refl w) (strip-append ws vs)

pub strip-same : (ws us vs : List Bytes) → strip ws us ≡ some vs → us ≡ ws ++ vs
unfolding strip
strip-same [] us vs h = cc
strip-same (w ∷ ws) [] vs h = cc
strip-same (w ∷ ws) (u ∷ us) vs h = ground (arith, eqb-same u w, strip-same ws us vs)

eqb-cons : (c d : ℕ) (u w : Bytes) → eqb (c ∷ u) (d ∷ w) ≡ ((c == d) && eqb u w)
eqb-cons c d u w = elim (Bool-cases (c == d)) [
  | inr e ↦ rw e (eqb_differ (c ∷ u) (d ∷ w) (λ q. heads_differ e q))
  | inl e ↦ elim (Bool-cases (eqb u w)) [
    | inr f ↦ rw (e, f) (eqb_differ (c ∷ u) (d ∷ w) (λ q. tails_differ f q))
    | inl f ↦
        let heads : c ≡ d = ground (arith, e) in
        let tails = eqb-same u w f in
        rw (e, f) (subst (λ s. eqb (c ∷ u) s ≡ true) (ap₂ ◌∷◌ heads tails) (eqb_refl (c ∷ u)))
  ]
]
  where
    heads_differ : (c == d) ≡ false → ◌≡◌ {A = Bytes} (c ∷ u) (d ∷ w) → ⊥
    heads_differ e q = let same : c ≡ d = cc in ground (arith, e, same)

    tails_differ : eqb u w ≡ false → ◌≡◌ {A = Bytes} (c ∷ u) (d ∷ w) → ⊥
    tails_differ f q = let same : u ≡ w = cc in eqb-differ u w f same

and_assoc : (a b c : Bool) → (a && (b && c)) ≡ ((a && b) && c)
and_assoc true b c = refl
and_assoc false b c = refl

-- One word and what begins with a slash behind it.
has_prefix-word :
    (u w t r : Bytes)
    → All Allowed u
    → All Allowed w
    → (t ≡ []) ⊎ (is_rooted t ≡ true)
    → has_prefix (u ++ t) (w ++ (slash ∷ r)) ≡ (eqb u w && has_prefix t (slash ∷ r))
unfolding has_prefix is_rooted dec_bytes
has_prefix-word [] [] t r a b h = refl
has_prefix-word [] (c ∷ w) [] r a b h = refl
has_prefix-word [] (c ∷ w) (d ∷ t) r a b (inl e) = cc
has_prefix-word [] (c ∷ w) (d ∷ t) r a (b, bs) (inr e) =
    let n : (d == c) ≡ false = ground (arith, b.0) in rw n refl
has_prefix-word (c ∷ u) [] t r (a, as_) b h = rw (a.0) refl
has_prefix-word (c ∷ u) (d ∷ w) t r (a, as_) (b, bs) h =
    rw (eqb-cons c d u w, has_prefix-word u w t r as_ bs h) (and_assoc (c == d) (eqb u w) _)

is_rooted-tail : (ws : List Bytes) → (tail_text ws ≡ []) ⊎ (is_rooted (tail_text ws) ≡ true)
unfolding is_rooted
is_rooted-tail [] = inl refl
is_rooted-tail (w ∷ ws) = inr refl

pub slash_first : (ws : List Bytes) → (r : Bytes) × (tail_text ws ++ (slash ∷ []) ≡ slash ∷ r)
slash_first [] = ([], refl)
slash_first (w ∷ ws) = ((w ++ tail_text ws) ++ (slash ∷ []), refl)

-- A text that begins with the text of `ws` and a slash is that of a path strictly below `ws`.
pub has_prefix-tail_text :
    (us ws : List Bytes)
    → All Plain us
    → All Plain ws
    → has_prefix (tail_text us) (tail_text ws ++ (slash ∷ []))
      ≡ elim (strip ws us) [ none ↦ false | some vs ↦ not (is_empty vs) ]
unfolding strip has_prefix
has_prefix-tail_text [] [] h k = refl
has_prefix-tail_text (u ∷ us) [] h k = refl
has_prefix-tail_text [] (w ∷ ws) h k = refl
has_prefix-tail_text (u ∷ us) (w ∷ ws) (p, h) (q, k) =
    let (r, e) = slash_first ws in
    ap (λ s. has_prefix (u ++ tail_text us) s) (append_assoc w (tail_text ws) (slash ∷ []))
    ∙ ap (λ s. has_prefix (u ++ tail_text us) (w ++ s)) e
    ∙ has_prefix-word u w (tail_text us) r p.allowed q.allowed (is_rooted-tail us)
    ∙ ap (λ s. eqb u w && has_prefix (tail_text us) s) (sym e)
    ∙ ap (λ b. eqb u w && b) (has_prefix-tail_text us ws h k)
    ∙ last (eqb u w)
  where
    last :
        (b : Bool)
        → (b && elim (strip ws us) [ none ↦ false | some vs ↦ not (is_empty vs) ])
          ≡ elim (if b then strip ws us else none) [ none ↦ false | some vs ↦ not (is_empty vs) ]
    last true = refl
    last false = refl

trim_prefix-append : (a b : Bytes) → trim_prefix (a ++ b) a ≡ b
unfolding trim_prefix has_prefix drop_prefix
trim_prefix-append a b = rw (trim_prefix, front a) (behind a)
  where
    front : (a : Bytes) → has_prefix (a ++ b) a ≡ true
    front [] = refl
    front (c ∷ a) = ground (arith, front a)

    behind : (a : Bytes) → drop_prefix (a ++ b) a ≡ b
    behind [] = refl
    behind (c ∷ a) = behind a

pub render-same :
    (us ws : List Bytes) → All Plain us → All Plain ws → render true us ≡ render true ws → us ≡ ws
render-same us ws h k e = sym (components-render us h) ∙ ap components e ∙ components-render ws k

-- What lies below one directory, below another one instead.
pub clean-moved :
    (ss ds vs : List Bytes)
    → All Plain ds
    → All Plain vs
    → is_empty ss ≡ false
    → is_empty ds ≡ false
    → clean (render true ds ++ trim_prefix (render true (ss ++ vs)) (render true ss))
      ≡ render true (ds ++ vs)
clean-moved [] ds vs h k e f = absurd (no_text e)
  where
    no_text : true ≡ false → ⊥
    no_text x = cc
clean-moved (s ∷ ss) [] vs h k e f = absurd (no_text f)
  where
    no_text : true ≡ false → ⊥
    no_text x = cc
clean-moved (s ∷ ss) (d ∷ ds) vs h k e f =
    ap clean (
      ap (λ t. t ++ trim_prefix (render true (s ∷ ss ++ vs)) (render true (s ∷ ss)))
        (render-tail_text d ds)
      ∙ ap (λ t. tail_text (d ∷ ds) ++ t) suffix
      ∙ sym (tail_text-append (d ∷ ds) vs)
      ∙ sym (render-tail_text d (ds ++ vs)))
    ∙ clean-render (d ∷ ds ++ vs) (All-append Plain (d ∷ ds) vs h k)
  where
    suffix : trim_prefix (render true (s ∷ ss ++ vs)) (render true (s ∷ ss)) ≡ tail_text vs
    suffix =
        ap (λ t. trim_prefix t (render true (s ∷ ss))) (render-tail_text s (ss ++ vs))
        ∙ ap (λ t. trim_prefix (tail_text (s ∷ ss ++ vs)) t) (render-tail_text s ss)
        ∙ ap (λ t. trim_prefix t (tail_text (s ∷ ss))) (tail_text-append (s ∷ ss) vs)
        ∙ trim_prefix-append (tail_text (s ∷ ss)) (tail_text vs)
