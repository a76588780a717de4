-- ===== src/Tests/Diffs.antt =====
-- diff/diff.go on two small trees.
use randfiletree.Prelude.{
  Result, err, ℕ, Bool, true, false, [], ◌∷◌, Bytes, codes, ok, err, ◌≡◌, refl, ◌≢◌, ◌⊎◌, ap,
  dec_bytes, ℕ_discrete,
}
use mathlib.Core.HLevel.{×_discrete, Discrete}
use mathlib.Core.List.{List-discrete}
use randfiletree.Prelude.Int.{ℤ, pos, negsuc}
use randfiletree.Diff.{
  paths_with_options, validate_options, Options, Node, CollectedPaths, default_options,
  timestamp_precision_seconds, timestamp_precision_nanoseconds, ProjectedNode, Cmp,
  compare_collected, index_panic, inode_type_regular,
}
use randfiletree.Diff.Spec.{ExactOn, IsExact, Agree}
use randfiletree.Diff.Agree.{
  compare_collected-Agree, Agree-compare_collected, paths_with_options-Agree,
}
use randfiletree.Diff.NoPanic.{compare_collected-NoPanic}

-- The difference of two values of a type with decidable equality.
abbrev diff_by : {A : Type 0} → Discrete A → A → A → Bytes
diff_by d x y = elim (d x y) [ yes _ ↦ [] | no _ ↦ codes "!=" ]

diff_by-ExactOn : {A : Type 0} (d : Discrete A) → ExactOn (diff_by d)
diff_by-ExactOn {A} d = (λ x y h. equal x y (d x y) h, λ x. same x (d x x))
  where
    equal : (x y : A) (t : Dec (x ≡ y)) → elim t [ yes _ ↦ [] | no _ ↦ codes "!=" ] ≡ [] → x ≡ y
    equal x y (yes e) h = e
    equal x y (no n) h = cc

    same : (x : A) (t : Dec (x ≡ x)) → elim t [ yes _ ↦ [] | no _ ↦ codes "!=" ] ≡ []
    same x (yes e) = refl
    same x (no n) = absurd (n refl)

bool_discrete : Discrete Bool
bool_discrete true true = yes refl
bool_discrete true false = no (cc)
bool_discrete false true = no (cc)
bool_discrete false false = yes refl

int_discrete : Discrete ℤ
int_discrete (pos m) (pos n) = elim (ℕ_discrete m n) [
  | yes e ↦ yes (ap pos e)
  | no k ↦ no λ e. k (cc)
]
int_discrete (pos m) (negsuc n) = no (cc)
int_discrete (negsuc m) (pos n) = no (cc)
int_discrete (negsuc m) (negsuc n) = elim (ℕ_discrete m n) [
  | yes e ↦ yes (ap negsuc e)
  | no k ↦ no λ e. k (cc)
]

abbrev Fields : Type 0
Fields =
    (Bytes × (Bytes × (ℤ × (ℕ × ℕ)))) × ((ℤ × (ℤ × (Bytes × (ℕ × ℕ)))) × (ℕ × (ℕ × (ℕ × Bool))))

abbrev fields : ProjectedNode → Fields
fields n = (
  (n.path, (n.link_target, (n.size, (n.mode, n.inode_type)))),
  (
    (n.mod_time, (n.atime, (n.hash, (n.uid, n.gid)))),
    (n.device_major, (n.device_minor, (n.dev_id, n.sparse_parity))),
  ),
)

abbrev from_fields : Fields → ProjectedNode
from_fields ((a, (b, (c, (d, e)))), ((f, (g, (h, (i, j)))), (k, (l, (m, n))))) = record {
  path = a;
  link_target = b;
  size = c;
  mode = d;
  inode_type = e;
  mod_time = f;
  atime = g;
  hash = h;
  uid = i;
  gid = j;
  device_major = k;
  device_minor = l;
  dev_id = m;
  sparse_parity = n;
}

fields_discrete : Discrete Fields
fields_discrete =
    ×_discrete
      (×_discrete dec_bytes
        (×_discrete dec_bytes (×_discrete int_discrete (×_discrete ℕ_discrete ℕ_discrete))))
      (×_discrete
        (×_discrete int_discrete
          (×_discrete int_discrete (×_discrete dec_bytes (×_discrete ℕ_discrete ℕ_discrete))))
        (×_discrete ℕ_discrete (×_discrete ℕ_discrete (×_discrete ℕ_discrete bool_discrete))))

node_discrete : Discrete ProjectedNode
node_discrete x y = elim (fields_discrete (fields x) (fields y)) [
  | yes e ↦ yes (ap from_fields e)
  | no n ↦ no λ e. n (ap fields e)
]

abbrev exact_cmp : Cmp
exact_cmp = record {
  diff_nodes = diff_by (List-discrete node_discrete);
  diff_groups = diff_by (List-discrete (List-discrete dec_bytes));
  diff_xattrs = diff_by (List-discrete (×_discrete dec_bytes dec_bytes));
  diff_acls = diff_by (List-discrete dec_bytes);
}

exact_cmp-IsExact : IsExact exact_cmp
exact_cmp-IsExact = record {
  nodes = diff_by-ExactOn (List-discrete node_discrete);
  groups = diff_by-ExactOn (List-discrete (List-discrete dec_bytes));
  xattrs = diff_by-ExactOn (List-discrete (×_discrete dec_bytes dec_bytes));
  acls = diff_by-ExactOn (List-discrete dec_bytes);
}

abbrev a_file : ℕ → Node
a_file uid = record {
  path = codes "/f";
  link_target = [];
  size = pos 3;
  mode = 420;
  mod_time = pos 10;
  atime = pos 11;
  mod_time_nsec = pos 100;
  atime_nsec = pos 110;
  hash = 7 ∷ [];
  uid = uid;
  gid = 0;
  has_ownership = true;
  has_access_time = true;
  inode_type = inode_type_regular;
  dev_id = 1;
  has_dev_id = true;
  allocated_blocks = pos 8;
  has_allocated_blocks = true;
  sparse_parity = false;
  device_major = 0;
  device_minor = 0;
  has_device_numbers = false;
  xattrs = [];
  has_xattrs = true;
  acl_entries = [];
  has_acl = true;
}

-- One file, with the owner that is given.
abbrev a_tree : ℕ → CollectedPaths
a_tree uid = record { nodes = a_file uid ∷ []; hardlink_groups = [] }

-- The owner is not compared by default.
trees-Agree : (m n : ℕ) → Agree default_options (a_tree m) (a_tree n)
trees-Agree m n = record {
  complete_left = (
    record {
      ownership = λ e. refl;
      access_time = λ e. refl;
      sparseness = λ e r. refl;
      dev_id = λ e. refl;
      xattrs = λ e. refl;
      acl = λ e. refl;
    },
    tt,
  );
  complete_right = (
    record {
      ownership = λ e. refl;
      access_time = λ e. refl;
      sparseness = λ e r. refl;
      dev_id = λ e. refl;
      xattrs = λ e. refl;
      acl = λ e. refl;
    },
    tt,
  );
  same = (
    record {
      path = refl;
      link_target = refl;
      size = refl;
      mode = refl;
      inode_type = refl;
      mod_time = λ p. refl;
      mod_time_nsec = λ p. refl;
      atime = λ c p. refl;
      atime_nsec = λ c p. refl;
      hash = λ c. refl;
      uid = λ c. cc;
      gid = λ c. refl;
      device_major = λ d. refl;
      device_minor = λ d. refl;
      dev_id = λ c. refl;
      sparse_parity = λ c r. refl;
    },
    tt,
  );
  topology = λ e. refl;
  hooks = ((λ e. (refl, tt), λ e. (refl, tt)), tt);
}

compares_example : compare_collected exact_cmp default_options (a_tree 1) (a_tree 2) ≡ ok tt
compares_example =
    Agree-compare_collected exact_cmp exact_cmp-IsExact default_options (a_tree 1) (a_tree 2)
      (trees-Agree 1 2)

agrees_example : Agree default_options (a_tree 1) (a_tree 2)
agrees_example =
    compare_collected-Agree exact_cmp exact_cmp-IsExact default_options (a_tree 1) (a_tree 2) (
      Agree-compare_collected exact_cmp exact_cmp-IsExact default_options (a_tree 1) (a_tree 2)
        (trees-Agree 1 2))

no_panic_example :
    compare_collected exact_cmp default_options (a_tree 1) (a_tree 2) ≢ err index_panic
no_panic_example =
    compare_collected-NoPanic exact_cmp exact_cmp-IsExact default_options (a_tree 1) (a_tree 2)

-- The trees of two disks, and nothing elsewhere.
abbrev two_disks : Bytes → Options → Result Bytes CollectedPaths
two_disks [] o = err (codes "no path")
two_disks (c ∷ p) o = ok (a_tree c)

disks_compare :
    paths_with_options exact_cmp two_disks (codes "a") (codes "b") default_options ≡ ok tt
unfolding paths_with_options validate_options
disks_compare =
    Agree-compare_collected exact_cmp exact_cmp-IsExact default_options (a_tree 97) (a_tree 98)
      (trees-Agree 97 98)

paths_example :
    ((default_options.timestamp_precision ≡ timestamp_precision_seconds)
      ⊎ (default_options.timestamp_precision ≡ timestamp_precision_nanoseconds))
    × ((a : CollectedPaths) × ((b : CollectedPaths) × ((two_disks (codes "a") default_options
              ≡ ok a)
            × ((two_disks (codes "b") default_options ≡ ok b) × Agree default_options a b))))
paths_example =
    paths_with_options-Agree exact_cmp exact_cmp-IsExact two_disks (codes "a") (codes "b")
      default_options disks_compare
