-- ===== src/Tests/Paths.antt =====
-- Go's path functions on concrete paths.
use randfiletree.Prelude.{some, codes, dec_bytes, ◌≡◌, refl}
use randfiletree.GoPath.{clean, rel, dir_of, base_of}

clean_test : clean (codes "/a//b/./../c/") ≡ codes "/a/c"
unfolding clean dec_bytes
clean_test = refl

rel_test : rel (codes "/a/b") (codes "/a/c/d") ≡ some (codes "../c/d")
unfolding rel dec_bytes
rel_test = refl

dir_test : dir_of (codes "/a/b") ≡ codes "/a"
unfolding dir_of dec_bytes
dir_test = refl

base_test : base_of (codes "/a/bc/") ≡ codes "bc"
unfolding base_of
base_test = refl
