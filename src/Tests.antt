-- ===== src/Tests.antt =====
-- Runs on concrete inputs: that the hypotheses of the theorems can hold, and tests.
mod Plans
mod Faults
mod Diffs
mod Operations
mod Paths
mod Mutations
mod Codec
mod Acls
mod AclXattrs
