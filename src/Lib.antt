-- ===== src/Lib.antt =====
-- Verification library of randfiletree, which makes random file trees and compares them.
--
-- A run validates its configuration (generator.go), plans all entries of the tree in memory
-- (plan.go, with metadata.go and content_patterns.go), and applies the plan; a fault injector
-- (faults.go, executor.go) is asked before each step. Mutation operations are validated in
-- operations.go. The package diff compares two trees.
--
-- The parts:
--   Prelude, Action   shared types, lists, texts and integers; code on a state with errors.
--   GoPath            Go's path functions, written after their documentation.
--   Fault             faults.go and the `before` of executor.go. A `FaultInjector` is the list of
--                     its rule states; `before` is `faultInjector.before`. Fault.Spec says when to
--                     inject with no state; Fault.Trigger and Fault.Once relate the two.
--   Plan              plan.go, links.go, special.go, metadata.go, content_patterns.go and the
--                     validation in generator.go. `Book` holds the fields of `planState` and the
--                     entries of the plan, `PlanState` the random source beside it. Plan.State has
--                     the operations on the state, Plan.Entries one function for each kind of
--                     entry, Plan.Tree `planDir` and `planRun`, Plan.Config and Plan.Metadata the
--                     validation, Plan.Content the content patterns. A generator function is a
--                     function of the random source, `none` where the source has nil. Plan.Invariant
--                     states the invariant; Rules, Steps, Draws, Soundness, Cycles, Files, Nodes and
--                     Total show that each function keeps it; Plan.Accepted reads what planning
--                     needs out of the validation, Plan.Run concludes, and Plan.Placed looks at
--                     the parents of paths when names are single components. Plan.Extents is about
--                     the ranges of content, Plan.Acl about ACL entries.
--   Operation         operations.go: `normalize_operation` is `normalizeOperation`, with a function
--                     for each case of its switch; the options for generating operations.
--                     Operation.Replay has `ParseOperationSpec` of mutate.go.
--   Mutation          mutate.go and the listing of attributes in xattr_linux.go. `MutationState` is
--                     `mutationState`; its lazily built indexes are an option, `none` where they are
--                     invalid. Draft chooses operations (`planOperation`, a function for each case),
--                     Virtual applies them to the nodes, Scan and Generate are `scanMutationState`
--                     and `GenerateOperations`. System is what is used of the operating system,
--                     a record of functions; Apply, Execute and Loop are `applyOperation` and
--                     `ApplyOperationsWithOptions` on it. Tree has the effects of the operations on
--                     a function from component lists to nodes; Places, Moved, Refine, Graft,
--                     Effects, Normal and Shape relate the nodes to it. Resume is about the loop,
--                     Parents about `ensureNoSymlinkParents`.
--   AclXattr          internal/aclxattr/aclxattr.go: `marshal` and `parse` are `Marshal` and `Parse`,
--                     with the byte order of the machine as an argument; AclXattr.Text has the text
--                     form, `parse_text_entries` and `format_text_entries`. Codec, Modes and Again
--                     are about the binary form, Words, Form and Sets about the text.
--   Diff              diff/diff.go, diff/node.go and diff/options.go: `paths_with_options` is
--                     `PathsWithOptions`. The six `ensure...Metadata` functions are one function with
--                     the test as an argument. Diff.Spec says, without `projectNodes`, when two
--                     trees agree; Project relates it to the projections.
--   Tests             runs on concrete inputs.
--
-- `plan_dir` runs on fuel, one unit for each level of directories: every level plans an entry, so
-- that one more than the entry limit is enough, and `out_of_fuel` is among the errors that are
-- excluded below. The other loops run over lists or counts.
--
-- Parameters: the random source with the bounds of Intn and Int63n, the generator functions,
-- `path.Match`, `cmp.Diff`, the JSON codec (which is assumed to keep texts in valid UTF-8 only), the
-- system calls, the results of `filepath.Walk`, and the collection of a tree. Error texts are not
-- modelled, the errors are constructors. Panics are errors: `nil_call` for a nil function,
-- `index_panic` for an index out of range. A nil slice is an empty list; white space is that of
-- ASCII. On a 32-bit platform `int` overflow is not modelled.
--
-- Not modelled: applying plans to the file system, collecting a tree, scenarios and the probing of
-- capabilities, which are I/O; the option constructors, which set fields; the texts of errors; and
-- manifests and coverage enumeration, which stand apart from the parts above.
pub mod Prelude
pub mod GoPath
pub mod Action
pub mod Fault
pub mod Plan
pub mod Operation
pub mod Diff
pub mod Mutation
pub mod AclXattr
pub mod Tests
