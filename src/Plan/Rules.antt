-- ===== src/Plan/Rules.antt =====
-- plan.go: the operations on the planning state, as rules for code that keeps the invariant.
use randfiletree.Prelude.{
  ℕ, zero, suc, ◌+◌, ◌<◌, false, Option, none, some, List, [], ◌∷◌, Bytes, length, ◌≡◌, refl, inl,
  inr, In, All, Distinct, arith, Bool-cases, Result-cases, Result,
}
use mathlib.Core.Path.{subst}
use randfiletree.Prelude.Dict.{member}
use randfiletree.Prelude.Int.{pos, pos_part, leb_ℤ}
use randfiletree.Action.{◌>>=◌, Ensures, returns, raises, bind_rule, seq_rule, pure_rule, fail_rule}
use randfiletree.GoPath.{join}
use randfiletree.Plan.Types.{PlannedEntry, PlanError, Gen, FailingGen}
use randfiletree.Plan.State.{
  Book, PlanState, Planner, get_book, modify, draw, on_random, call, call_failing, append_entry,
  try_paths, count_collision, reserve,
}
use randfiletree.Plan.Config.{is_nil}
use randfiletree.Plan.Content.{Drawing}
use randfiletree.Plan.Invariant.{
  Frame, Known, Holds, Inv, Reserved, IsReported, Fits, shape, shapes, add_entry, add_entry-Inv,
  member-false, taking, taking-Inv, taking-Reserved, taking-Reserved_other,
}

-- On an error: it is one that the source reports, and the plan so far is sound.
abbrev pub Safe : {R : Type 0} → Frame → PlanError → PlanState R → Type 0
Safe base e s = IsReported e × Inv base s.book

-- The errors of code on the random source alone.
abbrev pub OnlyReports : {R A : Type 0} → Drawing R A → Type 0
OnlyReports {R} m = (r : R) → Ensures (λ _ _. Unit {0}) (λ e _. IsReported e) (m r)

-- The invariant, room for as many nested directories as the fuel allows, directories and files
-- that are already planned, and paths that are reserved.
pub record At (base : Frame) (fuel : ℕ) (known : List Known) (held : List Bytes) (b : Book)
    : Type 0 where
  pub inv : Inv base b
  pub room : pos_part b.entry_limit < length b.entries + fuel
  pub planned : All (λ k. Holds k (shapes b.entries)) known
  pub reserved : All (λ p. Reserved p b) held
  pub apart : Distinct held

-- A predicate that holds of the elements may be exchanged for one that follows from it.
pub All-weaken :
    {A : Type 0} (P Q : A → Type 0) (xs : List A) → ((x : A) → P x → Q x) → All P xs → All Q xs
All-weaken P Q [] f h = tt
All-weaken P Q (x ∷ xs) f (p, h) = (f x p, All-weaken P Q xs f h)

module _ (base : Frame) (fuel : ℕ) (known : List Known) (held : List Bytes) where
  -- The path is reserved beside the others, and lies in the directory.
  abbrev pub Fresh : Bytes → Bytes → Book → Type 0
  Fresh d p b =
      At base fuel known (p ∷ held) b × ((name : Bytes) × base.is_name name × (p ≡ join d name))

  count_collision-At :
      {b : Book} → At base fuel known held b → At base fuel known held (count_collision b)
  count_collision-At a = record {
    inv = record {
      limited = a.inv.limited;
      distinct = a.inv.distinct;
      used = a.inv.used;
      bounded = a.inv.bounded;
      ordered = a.inv.ordered;
      files = a.inv.files;
    };
    room = a.room;
    planned = a.planned;
    reserved =
        All-weaken _ _ held (λ q r. record { taken = r.taken; unplanned = r.unplanned }) a.reserved;
    apart = a.apart;
  }

  not_held :
      (p : Bytes) (b : Book) (ps : List Bytes)
      → ¬ In p b.used
      → All (λ q. Reserved q b) ps
      → ¬ In p ps
  not_held p b [] n h = λ f. f
  not_held p b (q ∷ ps) n (r, h) =
      λ i. elim i [ inl e ↦ n (subst (λ x. In x b.used) e r.taken) | inr j ↦ not_held p b ps n h j ]

  taking-At :
      (p : Bytes) {b : Book}
      → At base fuel known held b
      → member p b.used ≡ false
      → At base fuel known (p ∷ held) (taking p b)
  taking-At p {b} a m = record {
    inv = taking-Inv base p b a.inv;
    room = a.room;
    planned = a.planned;
    reserved = (
      taking-Reserved base p b a.inv m,
      All-weaken _ _ held (λ q r. taking-Reserved_other p q b r) a.reserved,
    );
    apart = (not_held p b held (member-false p b.used m) a.reserved, a.apart);
  }

module _ {R A : Type 0} (base : Frame) (P : Book → Type 0) where
  pub draw_rule :
      (g : Gen R A) (s : PlanState R)
      → P s.book
      → Ensures (λ _ s'. P s'.book) (Safe base) (draw g s)
  unfolding draw
  draw_rule g s p = returns p

  pub call_rule :
      (o : Option (Gen R A)) (s : PlanState R)
      → is_nil o ≡ false
      → P s.book
      → Ensures (λ _ s'. P s'.book) (Safe base) (call o s)
  unfolding call
  call_rule none s h p = cc
  call_rule (some g) s h p = draw_rule g s p

  pub call_failing_rule :
      (g : FailingGen R A) (s : PlanState R)
      → Inv base s.book
      → P s.book
      → Ensures (λ _ s'. P s'.book) (Safe base) (call_failing g s)
  unfolding call_failing
  call_failing_rule g s i p = elim (Result-cases (g s.rnd).0) [
    | inl (x, e) ↦ rw (e, call_failing) (returns p)
    | inr (x, e) ↦ rw (e, call_failing) (raises (tt, i))
  ]

  on_random-Ensures :
      (s : PlanState R) (x : Result PlanError A × R)
      → Ensures (λ _ _. Unit {0}) (λ e _. IsReported e) x
      → Inv base s.book
      → P s.book
      → Ensures (λ _ s'. P s'.book) (Safe base) (x.0, record s { rnd = x.1 })
  on_random-Ensures s x (returns _) i p = returns p
  on_random-Ensures s x (raises e) i p = raises (e, i)

  pub on_random_rule :
      (m : Drawing R A) (s : PlanState R)
      → OnlyReports m
      → Inv base s.book
      → P s.book
      → Ensures (λ _ s'. P s'.book) (Safe base) (on_random m s)
  unfolding on_random
  on_random_rule m s h i p = on_random-Ensures s (m s.rnd) (h s.rnd) i p

module _ {R A : Type 0} (X : PlanError → PlanState R → Type 0) where
  -- `get_book` gives the book of the state that the rest runs on.
  pub get_book_rule :
      {Q : A → PlanState R → Type 0} (f : Book → Planner R A) (s : PlanState R)
      → Ensures Q X (f s.book s)
      → Ensures Q X ((get_book >>= f) s)
  unfolding get_book ◌>>=◌
  get_book_rule f s h = h

module _ {R A B : Type 0} (X : PlanError → PlanState R → Type 0) where
  -- The rest runs on what was drawn.
  pub draw_bind_rule :
      {Q : B → PlanState R → Type 0} (g : Gen R A) (f : A → Planner R B) (s : PlanState R)
      → Ensures Q X (f (g s.rnd).0 (record s { rnd = (g s.rnd).1 }))
      → Ensures Q X ((draw g >>= f) s)
  unfolding draw ◌>>=◌
  draw_bind_rule g f s h = h

module _ {R : Type 0} (base : Frame) where
  pub modify_rule :
      (P : Book → Type 0) (f : Book → Book) (s : PlanState R)
      → P (f s.book)
      → Ensures (λ _ s'. P s'.book) (Safe base) (modify f s)
  unfolding modify
  modify_rule P f s p = returns p

  -- An entry that fits is added, or the limit is reached and nothing changes.
  pub append_entry_rule :
      (P : Book → Type 0) (e : PlannedEntry) (s : PlanState R)
      → Inv base s.book
      → Reserved e.path s.book
      → Fits base (shapes s.book.entries) (shape e)
      → (Inv base (add_entry e s.book) → P (add_entry e s.book))
      → Ensures (λ _ s'. P s'.book) (Safe base) (append_entry e s)
  unfolding append_entry
  append_entry_rule P e s i r f p =
      elim (Bool-cases (leb_ℤ s.book.entry_limit (pos (length s.book.entries)))) [
        | inl h ↦ rw h (raises (tt, i))
        | inr h ↦ rw h (returns (p (add_entry-Inv base e s.book i r f (ground arith))))
      ]

module _ {R : Type 0} (base : Frame) (fuel : ℕ) (known : List Known) (held : List Bytes) where
  pub try_paths_rule :
      (n : ℕ) (entry_kind d : Bytes) (name : Planner R Bytes) (s : PlanState R)
      → ((s : PlanState R)
          → At base fuel known held s.book
          → Ensures (λ w s'. At base fuel known held s'.book × base.is_name w) (Safe base) (name s))
      → At base fuel known held s.book
      → Ensures
          (λ p s'. Fresh base fuel known held d p s'.book)
          (Safe base)
          (try_paths n entry_kind d name s)
  unfolding try_paths
  try_paths_rule zero entry_kind d name s draws a = fail_rule _ _ (tt, a.inv)
  try_paths_rule (suc n) entry_kind d name s draws a =
      bind_rule _ _ _ (draws s a) λ w s1 (a1, named).
        get_book_rule (Safe base) _ s1 (elim (Bool-cases (member (join d w) s1.book.used)) [
          | inl e ↦ rw e (
              seq_rule _ _ _
                (modify_rule base (At base fuel known held) count_collision s1
                  (count_collision-At base fuel known held a1))
                λ s2 a2. try_paths_rule n entry_kind d name s2 draws a2)
          | inr e ↦ rw e (
              seq_rule _ _ _
                (modify_rule base (Fresh base fuel known held d (join d w)) (reserve (join d w)) s1
                  (taking-At base fuel known held _ a1 e, (w, named, refl)))
                λ s2 a2. pure_rule _ s2 a2)
        ])
