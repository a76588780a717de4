-- ===== src/Tests/Codec.antt =====
-- mutate.go: an operation stream through a codec and back. The codec writes a text as its
-- successors and a zero, and everything else as numbers.
use randfiletree.Prelude.{
  ℕ, zero, suc, List, [], ◌∷◌, Bytes, codes, Result, ok, false, is_empty, ◌≡◌, ◌∙◌, refl, ap,
  length, All,
}
use randfiletree.Prelude.Int.{ℤ, pos, negsuc}
use mathlib.Core.Path.{subst}
use randfiletree.Prelude.Utf8.{is_utf8, continues, lead}
use randfiletree.Plan.Metadata.{trim_space}
use randfiletree.GoPath.{slash}
use randfiletree.Operation.{Operation, OperationSpec, export_operation_spec}
use randfiletree.Operation.Paths.{rooted-trim_space}
use randfiletree.Operation.Replay.{
  IsCodec, IsText, parse_operation_spec, parse_operation_spec-export_operation_spec,
}
use randfiletree.Tests.Operations.{renaming, stream_normalized}

abbrev write_text : Bytes → Bytes → Bytes
write_text [] rest = zero ∷ rest
write_text (c ∷ w) rest = suc c ∷ write_text w rest

abbrev read_text : Bytes → Bytes × Bytes
read_text [] = ([], [])
read_text (zero ∷ s) = ([], s)
read_text (suc c ∷ s) = let (w, rest) = read_text s in (c ∷ w, rest)

read_text-write_text : (w rest : Bytes) → read_text (write_text w rest) ≡ (w, rest)
read_text-write_text [] rest = refl
read_text-write_text (c ∷ w) rest = rw (read_text-write_text w rest) refl

abbrev write_int : ℤ → Bytes → Bytes
write_int (pos n) rest = zero ∷ n ∷ rest
write_int (negsuc n) rest = suc zero ∷ n ∷ rest

abbrev read_int : Bytes → ℤ × Bytes
read_int [] = (pos 0, [])
read_int (s ∷ []) = (pos 0, [])
read_int (zero ∷ n ∷ rest) = (pos n, rest)
read_int (suc s ∷ n ∷ rest) = (negsuc n, rest)

read_int-write_int : (n : ℤ) (rest : Bytes) → read_int (write_int n rest) ≡ (n, rest)
read_int-write_int (pos n) rest = refl
read_int-write_int (negsuc n) rest = refl

abbrev write_operation : Operation → Bytes → Bytes
write_operation op rest = write_text (op.kind ∷ op.mode ∷ []) (
    write_text op.path (
      write_text op.destination (
        write_text op.source_path (
          write_text op.link_target (
            write_text op.content (
              write_text op.xattr_name (
                write_text op.xattr_value (
                  write_int op.uid
                    (write_int op.gid (write_int op.size (write_int op.offset rest)))))))))))

abbrev head : Bytes → ℕ
head [] = 0
head (c ∷ w) = c

abbrev tail : Bytes → Bytes
tail [] = []
tail (c ∷ w) = w

abbrev read_operation : Bytes → Operation × Bytes
read_operation s =
    let (numbers, s1) = read_text s in
    let (path, s2) = read_text s1 in
    let (destination, s3) = read_text s2 in
    let (source_path, s4) = read_text s3 in
    let (link_target, s5) = read_text s4 in
    let (content, s6) = read_text s5 in
    let (xattr_name, s7) = read_text s6 in
    let (xattr_value, s8) = read_text s7 in
    let (uid, s9) = read_int s8 in
    let (gid, s10) = read_int s9 in
    let (size, s11) = read_int s10 in
    let (offset, rest) = read_int s11 in
    (
      record {
        kind = head numbers;
        path = path;
        destination = destination;
        source_path = source_path;
        link_target = link_target;
        mode = head (tail numbers);
        uid = uid;
        gid = gid;
        size = size;
        offset = offset;
        content = content;
        xattr_name = xattr_name;
        xattr_value = xattr_value;
      },
      rest,
    )

read_operation-write_operation :
    (op : Operation) (rest : Bytes) → read_operation (write_operation op rest) ≡ (op, rest)
read_operation-write_operation op rest = simp (read_text-write_text, read_int-write_int) refl

abbrev write_operations : List Operation → Bytes
write_operations [] = []
write_operations (op ∷ ops) = write_operation op (write_operations ops)

abbrev read_operations : ℕ → Bytes → List Operation
read_operations zero s = []
read_operations (suc n) s = let r = read_operation s in let ops = read_operations n r.1 in r.0 ∷ ops

-- An operation that was read, and those behind it.
abbrev next_operation : ℕ → Operation × Bytes → List Operation
next_operation n r = r.0 ∷ read_operations n r.1

read_operations-write_operations :
    (ops : List Operation) → read_operations (length ops) (write_operations ops) ≡ ops
read_operations-write_operations [] = refl
read_operations-write_operations (op ∷ ops) =
    ap (next_operation (length ops)) (read_operation-write_operation op (write_operations ops))
    ∙ ap (λ xs. op ∷ xs) (read_operations-write_operations ops)

abbrev encode_spec : OperationSpec → Result Bytes Bytes
encode_spec spec =
    ok (slash ∷ write_int spec.version (length spec.operations ∷ write_operations spec.operations))

abbrev read_spec : Bytes → OperationSpec
read_spec s =
    let (version, rest) = read_int (tail s) in
    record { version = version; operations = read_operations (head rest) (tail rest) }

abbrev unmarshal : Bytes → Result Bytes OperationSpec
unmarshal s = ok (read_spec s)

read_spec-encode_spec :
    (spec : OperationSpec) (text : Bytes) → encode_spec spec ≡ ok text → unmarshal text ≡ ok spec
read_spec-encode_spec spec text e =
    subst (λ t. unmarshal t ≡ ok spec) (texts_same e) (ap ok (back spec))
  where
    texts_same : {a b : Bytes} → ◌≡◌ {A = Result Bytes Bytes} (ok a) (ok b) → a ≡ b
    texts_same k = cc

    decode : ℤ × Bytes → OperationSpec
    decode r = record { version = r.0; operations = read_operations (head r.1) (tail r.1) }

    back :
        (spec : OperationSpec)
        → read_spec (
            slash
            ∷ write_int spec.version (length spec.operations ∷ write_operations spec.operations))
          ≡ spec
    back spec =
        ap decode (
          read_int-write_int spec.version
            (length spec.operations ∷ write_operations spec.operations))
        ∙ ap (λ ops. record { version = spec.version; operations = ops })
            (read_operations-write_operations spec.operations)

encode_spec-not_blank :
    (spec : OperationSpec) (text : Bytes)
    → encode_spec spec ≡ ok text
    → is_empty (trim_space text) ≡ false
encode_spec-not_blank spec text e =
    subst (λ t. is_empty (trim_space t) ≡ false) (texts_same e) (rooted-trim_space _)
  where
    texts_same : {a b : Bytes} → ◌≡◌ {A = Result Bytes Bytes} (ok a) (ok b) → a ≡ b
    texts_same k = cc

encode_spec-IsCodec : IsCodec encode_spec unmarshal
encode_spec-IsCodec = record {
  decodes = λ spec text _. read_spec-encode_spec spec text;
  not_blank = encode_spec-not_blank;
}

abbrev one_renaming : List Operation
one_renaming = renaming (codes "/a/./b") (codes "/c/") ∷ []

abbrev exported : Bytes
exported =
    slash ∷ write_int (pos 1) (1 ∷ write_operations (renaming (codes "/a/b") (codes "/c") ∷ []))

renaming_export : export_operation_spec encode_spec one_renaming ≡ ok exported
unfolding export_operation_spec
renaming_export = rw stream_normalized refl

abbrev renamed : List Operation
renamed = renaming (codes "/a/b") (codes "/c") ∷ []

renamed-IsText : All IsText renamed
unfolding is_utf8 continues lead
renamed-IsText = (
  record {
    path = refl;
    destination = refl;
    source_path = refl;
    link_target = refl;
    xattr_name = refl;
  },
  tt,
)

replay_example : parse_operation_spec unmarshal exported ≡ ok renamed
replay_example =
    parse_operation_spec-export_operation_spec encode_spec unmarshal one_renaming renamed exported
      encode_spec-IsCodec stream_normalized renamed-IsText renaming_export
