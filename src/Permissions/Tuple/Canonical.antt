-- ===== src/Permissions/Tuple/Canonical.antt =====
-- A text that parses is the canonical text of what it parses to, and that is valid.
use server_kit.Base.{
  Text, codes, cut, cut-eq-some, strip_suffix, strip_suffix-eq-some, ok, ◌>>=◌, >>=-eq-ok, true,
  Option-cases, ◌∷◌, ◌++◌, append_assoc, ◌≡◌, ap, arith, inl, inr,
}
use server_kit.Permissions.Tuple.{
  SubjectRef, concrete, userset, RelationTuple, subject_ok, tuple_ok, format_subject,
  stringify_tuple, check_subject, check_tuple, tuple_of, parse_subject, parse_tuple,
}
use server_kit.Permissions.Tuple.RoundTrip.{parse_tuple-stringify_tuple}

check_subject-eq-ok :
    (u : SubjectRef) {s : SubjectRef} → check_subject u ≡ ok s → (u ≡ s) × (subject_ok u ≡ true)
check_subject-eq-ok u h = ground arith

-- The branches of `parse_subject` after the test for `.*`.
pub format_subject-parse_subject :
    (input : Text) {s : SubjectRef}
    → parse_subject input ≡ ok s
    → (format_subject s ≡ input) × (subject_ok s ≡ true)
unfolding parse_subject format_subject
format_subject-parse_subject input {s} h = elim (Option-cases (strip_suffix (codes ".*") input)) [
  | inr (ns, star) ↦ ground (arith, strip_suffix-eq-some (codes ".*") input star)
  | inl plain ↦ elim (Option-cases (cut b':' input)) [
    | inl missing ↦ ground arith
    | inr ((ns, rest), found) ↦
        let (e, _) = cut-eq-some b':' input found in
        elim (Option-cases (cut b'.' rest)) [
          | inl whole ↦ ground (arith, check_subject-eq-ok (concrete ns rest) {s = s})
          | inr ((id, rel), dotted) ↦
              let (e', _) = cut-eq-some b'.' rest dotted in
              ground (arith, check_subject-eq-ok (userset ns id rel) {s = s})
        ]
  ]
]

-- A text that parses is printed back, and the parsed tuple is valid.
pub stringify_tuple-parse_tuple :
    (input : Text) {t : RelationTuple}
    → parse_tuple input ≡ ok t
    → (stringify_tuple t ≡ input) × (tuple_ok t ≡ true)
unfolding parse_tuple stringify_tuple
stringify_tuple-parse_tuple input {t} h = elim (Option-cases (cut b'@' input)) [
  | inl missing ↦ ground arith
  | inr ((left, right), at) ↦ elim (Option-cases (cut b':' left)) [
    | inl missing ↦ ground arith
    | inr ((ns, rest), colon) ↦ elim (Option-cases (cut b'.' rest)) [
      | inl missing ↦ ground arith
      | inr ((id, rel), dot) ↦
          let (e, _) = cut-eq-some b'@' input at in
          let (e', _) = cut-eq-some b':' left colon in
          let (e'', _) = cut-eq-some b'.' rest dot in
          let reduced : (parse_subject right >>= λ s. check_tuple (tuple_of ns id rel s)) ≡ ok t =
            ground arith in
          let (s, parsed, checked) = >>=-eq-ok (parse_subject right) _ reduced in
          let (f, _) = format_subject-parse_subject right parsed in
          ground (
            arith,
            append_assoc ns (b':' ∷ (id ++ b'.' ∷ rel)) (b'@' ∷ right),
            append_assoc id (b'.' ∷ rel) (b'@' ∷ right),
          )
    ]
  ]
]

-- No two valid tuples have the same text.
pub stringify_tuple-injective :
    (t u : RelationTuple)
    → tuple_ok t ≡ true
    → tuple_ok u ≡ true
    → stringify_tuple t ≡ stringify_tuple u
    → t ≡ u
stringify_tuple-injective t u ht hu e =
    cc (parse_tuple-stringify_tuple t ht, parse_tuple-stringify_tuple u hu, ap parse_tuple e)
