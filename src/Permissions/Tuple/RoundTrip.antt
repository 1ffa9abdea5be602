-- ===== src/Permissions/Tuple/RoundTrip.antt =====
-- Formatting and parsing of subjects and tuples are inverse to one another.
use server_kit.Base.{
  Text, codes, includes, includes-append, cut-append, cut-none, strip_suffix, strip_suffix-append,
  strip_suffix-eq-some, ok, true, false, ◌&&◌, ◌||◌, Option-cases, &&_split, ◌∷◌, ◌++◌,
  append_assoc, none, ◌≡◌, ap, arith, inl, inr,
}
use server_kit.Permissions.Tuple.{
  is_name, is_id, SubjectRef, concrete, wildcard, userset, RelationTuple, object_ok, subject_ok,
  tuple_ok, format_subject, stringify_tuple, parse_subject, parse_tuple,
}
use server_kit.Permissions.Tuple.Valid.{is_name-IsPlain, is_id-IsPlain}

strip_suffix_star : (s : Text) → includes b'*' s ≡ false → strip_suffix (codes ".*") s ≡ none
strip_suffix_star s h = elim (Option-cases (strip_suffix (codes ".*") s)) [
  | inl e ↦ e
  | inr (p, found) ↦
      let e = strip_suffix-eq-some (codes ".*") s found in
      cc (ap (includes b'*') e, includes-append b'*' p (codes ".*"), star p)
]
  where
    star : (p : Text) → (includes b'*' p || includes b'*' (codes ".*")) ≡ true
    star p = ground arith

-- The text of a valid subject has no `*` but that of a wildcard.
pub parse_subject-format_subject :
    (s : SubjectRef) → subject_ok s ≡ true → parse_subject (format_subject s) ≡ ok s
unfolding parse_subject format_subject subject_ok
parse_subject-format_subject (concrete ns id) h =
    let (hn, hi) = &&_split (is_name ns) (is_id id) h in
    let n = is_name-IsPlain ns hn in
    let i = is_id-IsPlain id hi in
    ground (
      arith,
      strip_suffix_star (ns ++ b':' ∷ id) (rw includes-append (ground arith)),
      cut-append b':' ns id n.1,
      cut-none b'.' id i.0,
    )
parse_subject-format_subject (wildcard ns) h =
    ground (arith, strip_suffix-append (codes ".*") ns, (is_name-IsPlain ns h).1)
parse_subject-format_subject (userset ns id rel) h =
    let (hni, hr) = &&_split (is_name ns && is_id id) (is_name rel) h in
    let (hn, hi) = &&_split (is_name ns) (is_id id) hni in
    let n = is_name-IsPlain ns hn in
    let i = is_id-IsPlain id hi in
    let r = is_name-IsPlain rel hr in
    ground (
      arith,
      strip_suffix_star (ns ++ b':' ∷ (id ++ b'.' ∷ rel))
          (rw includes-append (ground (arith, includes-append b'*' id (b'.' ∷ rel)))),
      cut-append b':' ns (id ++ b'.' ∷ rel) n.1,
      cut-append b'.' id rel i.0,
    )

module _ (t : RelationTuple) (h : tuple_ok t ≡ true) where
  tuple_parts :
      (object_ok t.object ≡ true) × (is_name t.relation ≡ true) × (subject_ok t.subject ≡ true)
  unfolding tuple_ok
  tuple_parts = ground arith

  object_parts : (is_name t.object.namespace ≡ true) × (is_id t.object.id ≡ true)
  unfolding object_ok
  object_parts = &&_split _ _ tuple_parts.0

  -- The part before the `@` holds no `@`.
  left_plain :
      includes b'@' (t.object.namespace ++ b':' ∷ (t.object.id ++ b'.' ∷ t.relation)) ≡ false
  left_plain = ground (
    arith,
    includes-append b'@' t.object.namespace (b':' ∷ (t.object.id ++ b'.' ∷ t.relation)),
    includes-append b'@' t.object.id (b'.' ∷ t.relation),
    (is_name-IsPlain _ object_parts.0).2,
    (is_id-IsPlain _ object_parts.1).2,
    (is_name-IsPlain _ tuple_parts.1).2,
  )

  -- Parsing the text of a valid tuple gives the tuple.
  pub parse_tuple-stringify_tuple : parse_tuple (stringify_tuple t) ≡ ok t
  unfolding parse_tuple stringify_tuple
  parse_tuple-stringify_tuple = ground (
    arith,
    cut-append b'@' (t.object.namespace ++ b':' ∷ (t.object.id ++ b'.' ∷ t.relation))
        (format_subject t.subject) left_plain,
    cut-append b':' t.object.namespace (t.object.id ++ b'.' ∷ t.relation)
        (is_name-IsPlain _ object_parts.0).1,
    cut-append b'.' t.object.id t.relation (is_id-IsPlain _ object_parts.1).0,
    append_assoc t.object.namespace (b':' ∷ (t.object.id ++ b'.' ∷ t.relation))
        (b'@' ∷ format_subject t.subject),
    append_assoc t.object.id (b'.' ∷ t.relation) (b'@' ∷ format_subject t.subject),
    parse_subject-format_subject t.subject tuple_parts.2,
  )
