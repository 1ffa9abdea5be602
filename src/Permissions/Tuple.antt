-- ===== src/Permissions/Tuple.antt =====
-- packages/permissions/src/tuple.ts: tuples, their validation, and their canonical text.
-- The zod schemas are read as the tests that they declare.
pub mod Valid
pub mod RoundTrip
pub mod Canonical
mod Tests
use server_kit.Base.{
  ℕ, Text, codes, cut, strip_suffix, includes, every, Result, ok, err, ◌>>=◌, Bool, true, false,
  not, ◌&&◌, ◌||◌, leb, ◌==◌, if◌then◌else◌, [], ◌∷◌, ◌++◌, some, none,
}

abbrev is_lower : ℕ → Bool
is_lower c = leb b'a' c && leb c b'z'

abbrev is_digit : ℕ → Bool
is_digit c = leb b'0' c && leb c b'9'

abbrev pub is_name_char : ℕ → Bool
is_name_char c = is_lower c || is_digit c || c == b'_'

-- /^[a-z][a-z0-9_]*$/
unfoldable pub is_name : Text → Bool
is_name [] = false
is_name (c ∷ s) = is_lower c && every is_name_char s

abbrev pub is_id_char : ℕ → Bool
is_id_char c = not (c == b'.' || c == b'@' || c == b':' || c == b'*')

-- min(1) and /^[^.@:*]+$/
unfoldable pub is_id : Text → Bool
is_id [] = false
is_id (c ∷ s) = is_id_char c && every is_id_char s

pub record ObjectRef : Type 0 where
  pub namespace : Text
  pub id : Text

pub data SubjectRef : Type 0 where
  concrete : (namespace id : Text) → SubjectRef
  wildcard : (namespace : Text) → SubjectRef
  userset : (namespace id relation : Text) → SubjectRef

pub record RelationTuple : Type 0 where
  pub object : ObjectRef
  pub relation : Text
  pub subject : SubjectRef

unfoldable pub object_ok : ObjectRef → Bool
object_ok o = is_name o.namespace && is_id o.id

unfoldable pub subject_ok : SubjectRef → Bool
subject_ok (concrete ns id) = is_name ns && is_id id
subject_ok (wildcard ns) = is_name ns
subject_ok (userset ns id rel) = is_name ns && is_id id && is_name rel

unfoldable pub tuple_ok : RelationTuple → Bool
tuple_ok t = object_ok t.object && is_name t.relation && subject_ok t.subject

unfoldable pub format_subject : SubjectRef → Text
format_subject (concrete ns id) = ns ++ b':' ∷ id
format_subject (wildcard ns) = ns ++ codes ".*"
format_subject (userset ns id rel) = ns ++ b':' ∷ (id ++ b'.' ∷ rel)

unfoldable pub stringify_tuple : RelationTuple → Text
stringify_tuple t =
    t.object.namespace
    ++ b':' ∷ (t.object.id ++ b'.' ∷ (t.relation ++ b'@' ∷ format_subject t.subject))

-- One constructor for each throw; `schema` is a zod refusal.
pub data TupleError : Type 0 where
  wildcard_with_id subject_missing_colon missing_at object_missing_colon missing_dot : TupleError
  schema : TupleError

abbrev check_subject : SubjectRef → Result TupleError SubjectRef
check_subject s = if subject_ok s then ok s else err schema

abbrev check_tuple : RelationTuple → Result TupleError RelationTuple
check_tuple t = if tuple_ok t then ok t else err schema

unfoldable pub parse_subject : Text → Result TupleError SubjectRef
parse_subject input = elim (strip_suffix (codes ".*") input) [
  | some ns ↦ if includes b':' ns then err wildcard_with_id else check_subject (wildcard ns)
  | none ↦ elim (cut b':' input) [
    | none ↦ err subject_missing_colon
    | some (ns, rest) ↦ elim (cut b'.' rest) [
      | some (id, rel) ↦ check_subject (userset ns id rel)
      | none ↦ check_subject (concrete ns rest)
    ]
  ]
]

abbrev tuple_of : Text → Text → Text → SubjectRef → RelationTuple
tuple_of ns id rel s = record {
  object = record { namespace = ns; id = id };
  relation = rel;
  subject = s;
}

unfoldable pub parse_tuple : Text → Result TupleError RelationTuple
parse_tuple input = elim (cut b'@' input) [
  | none ↦ err missing_at
  | some (left, right) ↦ elim (cut b':' left) [
    | none ↦ err object_missing_colon
    | some (ns, id_and_relation) ↦ elim (cut b'.' id_and_relation) [
      | none ↦ err missing_dot
      | some (id, rel) ↦ parse_subject right >>= λ s. check_tuple (tuple_of ns id rel s)
    ]
  ]
]
