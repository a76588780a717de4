-- ===== src/Diff/Chain.antt =====
-- Chains of checks.
use randfiletree.Prelude.{ok, err, Check, ◌>>◌, ◌≡◌, refl}
use randfiletree.Diff.{DiffError}

-- A step of a chain of checks.
pub seq-ok : (m k : Check DiffError) → m >> k ≡ ok tt → (m ≡ ok tt) × (k ≡ ok tt)
seq-ok (ok tt) k h = (refl, h)
seq-ok (err e) k h = cc

pub seq-both : (m k : Check DiffError) → m ≡ ok tt → k ≡ ok tt → m >> k ≡ ok tt
seq-both (ok tt) m h k = k
seq-both (err e) m h k = cc
