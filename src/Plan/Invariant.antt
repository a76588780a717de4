-- ===== src/Plan/Invariant.antt =====
-- plan.go: what holds of the book at every step of planning, and that the operations of the
-- state keep it.
use randfiletree.Prelude.{
  suc, ◌≤◌, false, List, [], ◌∷◌, ◌++◌, Bytes, length, length-append, ◌≡◌, refl, sym, ◌≢◌, ◌⊎◌, inl,
  inr, In, Distinct, map, arith,
}
use mathlib.Core.List.{map-append, append-nil, append_assoc}
use mathlib.Core.Path.{subst}
use randfiletree.Prelude.Dict.{member}
use randfiletree.Prelude.Int.{ℤ, pos_part}
use randfiletree.GoPath.{join}
use randfiletree.Plan.Types.{
  PlannedEntry, PlannedEntryType, dir, file, hardlink, PlanError, nil_call, index_panic,
  out_of_fuel,
}
use randfiletree.Plan.State.{Book}

-- What the invariant reads of an entry.
pub record Shape : Type 0 where
  pub type_id : PlannedEntryType
  pub path : Bytes
  pub link_target : Bytes

abbrev pub shape : PlannedEntry → Shape
shape e = record { type_id = e.type_id; path = e.path; link_target = e.link_target }

abbrev pub shapes : List PlannedEntry → List Shape
shapes = map shape

abbrev pub path_of : Shape → Bytes
path_of e = e.path

abbrev pub paths : List Shape → List Bytes
paths = map path_of

-- A file, or a hardlink to one.
abbrev pub IsFileLike : PlannedEntryType → Type 0
IsFileLike file = Unit
IsFileLike hardlink = Unit
IsFileLike _ = ⊥

-- Some entry of the list is a regular file at the path.
abbrev pub FileIn : Bytes → List Shape → Type 0
FileIn p [] = ⊥
FileIn p (e ∷ es) = ((e.path ≡ p) × IsFileLike e.type_id) ⊎ FileIn p es

-- Some entry of the list is a directory at the path.
abbrev pub DirIn : Bytes → List Shape → Type 0
DirIn p [] = ⊥
DirIn p (e ∷ es) = ((e.path ≡ p) × (e.type_id ≡ dir)) ⊎ DirIn p es

-- An entry that is known to be planned.
pub data Known : Type 0 where
  a_dir a_file : Bytes → Known

abbrev pub Holds : Known → List Shape → Type 0
Holds (a_dir p) es = DirIn p es
Holds (a_file p) es = FileIn p es

-- What a run does not change, and what is known of the names that it draws.
pub record Frame : Type 1 where
  pub base_path : Bytes
  pub limit : ℤ
  pub is_name : Bytes → Type 0

-- The path is the base path and no entry came before, or it is a name that was drawn, in a
-- directory that came before.
abbrev pub Anchored : Frame → List Shape → Bytes → Type 0
Anchored base before p =
    ((before ≡ []) × (p ≡ base.base_path))
    ⊎ ((d : Bytes) × (name : Bytes) × base.is_name name × DirIn d before × (p ≡ join d name))

-- A hardlink's target came before, as a regular file.
abbrev pub Linked : List Shape → Shape → Type 0
Linked before e = e.type_id ≡ hardlink → FileIn e.link_target before

-- Every entry finds what it needs among those before it, so that the plan applies in order.
abbrev pub Ordered : Frame → List Shape → List Shape → Type 0
Ordered base before [] = Unit
Ordered base before (e ∷ es) =
    (Anchored base before e.path × Linked before e) × Ordered base (before ++ (e ∷ [])) es

pub record Inv (base : Frame) (b : Book) : Type 0 where
  pub limited : b.entry_limit ≡ base.limit
  pub distinct : Distinct (paths (shapes b.entries))
  pub used : (p : Bytes) → In p (paths (shapes b.entries)) → In p b.used
  pub bounded : length b.entries ≤ pos_part b.entry_limit
  pub ordered : Ordered base [] (shapes b.entries)
  pub files : (p : Bytes) → In p b.file_paths → FileIn p (shapes b.entries)

-- A path that is taken and has no entry yet.
pub record Reserved (p : Bytes) (b : Book) : Type 0 where
  pub taken : In p b.used
  pub unplanned : ¬ In p (paths (shapes b.entries))

-- An error that the source can return: no panic, and the fuel did not run out.
abbrev pub IsReported : PlanError → Type 0
IsReported nil_call = ⊥
IsReported index_panic = ⊥
IsReported out_of_fuel = ⊥
IsReported _ = Unit

pub paths-append :
    (xs ys : List PlannedEntry) → paths (shapes (xs ++ ys)) ≡ paths (shapes xs) ++ paths (shapes ys)
paths-append xs ys = rw (map-append shape xs ys) (map-append path_of (shapes xs) (shapes ys))

In-append : (p : Bytes) (xs ys : List Bytes) → In p (xs ++ ys) → In p xs ⊎ In p ys
In-append p [] ys h = inr h
In-append p (x ∷ xs) ys (inl e) = inl (inl e)
In-append p (x ∷ xs) ys (inr h) = elim (In-append p xs ys h) [ inl a ↦ inl (inr a) | inr b ↦ inr b ]

Distinct-snoc : (xs : List Bytes) (p : Bytes) → Distinct xs → ¬ In p xs → Distinct (xs ++ (p ∷ []))
Distinct-snoc [] p d n = (λ h. h, tt)
Distinct-snoc (x ∷ xs) p (a, d) n = (
  λ h. elim (In-append x xs (p ∷ []) h) [
    | inl i ↦ a i
    | inr (inl e) ↦ n (inl (sym e))
    | inr (inr f) ↦ f
  ],
  Distinct-snoc xs p d (λ i. n (inr i)),
)

pub FileIn-append : (p : Bytes) (xs ys : List Shape) → FileIn p xs → FileIn p (xs ++ ys)
FileIn-append p (x ∷ xs) ys (inl e) = inl e
FileIn-append p (x ∷ xs) ys (inr h) = inr (FileIn-append p xs ys h)
FileIn-append p [] ys h = elim h [ ]

pub DirIn-append : (p : Bytes) (xs ys : List Shape) → DirIn p xs → DirIn p (xs ++ ys)
DirIn-append p (x ∷ xs) ys (inl e) = inl e
DirIn-append p (x ∷ xs) ys (inr h) = inr (DirIn-append p xs ys h)
DirIn-append p [] ys h = elim h [ ]

pub Holds-append : (k : Known) (xs ys : List Shape) → Holds k xs → Holds k (xs ++ ys)
Holds-append (a_dir p) = DirIn-append p
Holds-append (a_file p) = FileIn-append p

pub FileIn-last :
    (xs : List Shape) (e : Shape) → IsFileLike e.type_id → FileIn e.path (xs ++ (e ∷ []))
FileIn-last [] e h = inl (refl, h)
FileIn-last (x ∷ xs) e h = inr (FileIn-last xs e h)

pub DirIn-last : (xs : List Shape) (e : Shape) → e.type_id ≡ dir → DirIn e.path (xs ++ (e ∷ []))
DirIn-last [] e h = inl (refl, h)
DirIn-last (x ∷ xs) e h = inr (DirIn-last xs e h)

-- What an entry finds among those before it.
abbrev pub Fits : Frame → List Shape → Shape → Type 0
Fits base before e = Anchored base before e.path × Linked before e

Ordered-snoc :
    (base : Frame) (before es : List Shape) (e : Shape)
    → Ordered base before es
    → Fits base (before ++ es) e
    → Ordered base before (es ++ (e ∷ []))
Ordered-snoc base before [] e h a = (subst (λ b. Fits base b e) (append-nil before) a, tt)
Ordered-snoc base before (x ∷ es) e (h, o) a = (
  h,
  Ordered-snoc base (before ++ (x ∷ [])) es e o
      (subst (λ b. Fits base b e) (sym (append_assoc before (x ∷ []) es)) a),
)

abbrev pub add_entry : PlannedEntry → Book → Book
add_entry e b = record b { entries = b.entries ++ (e ∷ []) }

-- An entry at a reserved path, which fits behind the others, keeps the invariant.
pub add_entry-Inv :
    (base : Frame) (e : PlannedEntry) (b : Book)
    → Inv base b
    → Reserved e.path b
    → Fits base (shapes b.entries) (shape e)
    → suc (length b.entries) ≤ pos_part b.entry_limit
    → Inv base (add_entry e b)
add_entry-Inv base e b i r f room = record {
  limited = i.limited;
  distinct = rw (paths-append b.entries (e ∷ [])) (Distinct-snoc _ e.path i.distinct r.unplanned);
  used = λ p h.
      elim (In-append p (paths (shapes b.entries)) _ (rw (paths-append b.entries (e ∷ [])) at h)) [
        | inl old ↦ i.used p old
        | inr (inl same) ↦ subst (λ q. In q b.used) same r.taken
        | inr (inr n) ↦ absurd n
      ];
  bounded = omega (arith, length-append b.entries (e ∷ []));
  ordered = rw (map-append shape b.entries (e ∷ [])) (Ordered-snoc base [] _ (shape e) i.ordered f);
  files = λ p h. rw (map-append shape b.entries (e ∷ [])) (FileIn-append p _ _ (i.files p h));
}

-- Another reserved path stays reserved.
pub add_entry-Reserved :
    (p : Bytes) (e : PlannedEntry) (b : Book)
    → Reserved p b
    → e.path ≢ p
    → Reserved p (add_entry e b)
add_entry-Reserved p e b r n = record {
  taken = r.taken;
  unplanned = λ h.
      elim (In-append p (paths (shapes b.entries)) _ (rw (paths-append b.entries (e ∷ [])) at h)) [
        | inl old ↦ r.unplanned old
        | inr (inl same) ↦ n same
        | inr (inr f) ↦ f
      ];
}

pub member-false : (p : Bytes) (used : List Bytes) → member p used ≡ false → ¬ In p used
unfolding member
member-false p [] h = λ n. n
member-false p (x ∷ used) h = ground (arith, member-false p used)

abbrev pub taking : Bytes → Book → Book
taking p b = record b { used = p ∷ b.used }

pub taking-Inv : (base : Frame) (p : Bytes) (b : Book) → Inv base b → Inv base (taking p b)
taking-Inv base p b i = record {
  limited = i.limited;
  distinct = i.distinct;
  used = λ q h. inr (i.used q h);
  bounded = i.bounded;
  ordered = i.ordered;
  files = i.files;
}

pub taking-Reserved :
    (base : Frame) (p : Bytes) (b : Book)
    → Inv base b
    → member p b.used ≡ false
    → Reserved p (taking p b)
taking-Reserved base p b i h = record {
  taken = inl refl;
  unplanned = λ m. member-false p b.used h (i.used p m);
}

pub taking-Reserved_other : (p q : Bytes) (b : Book) → Reserved q b → Reserved q (taking p b)
taking-Reserved_other p q b r = record { taken = inr r.taken; unplanned = r.unplanned }
