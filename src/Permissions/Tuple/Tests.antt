-- ===== src/Permissions/Tuple/Tests.antt =====
-- Runs of the tuple parser, and the round trips at concrete inputs.
use server_kit.Base.{codes, ok, err, true, ◌≡◌, refl}
use server_kit.Permissions.Tuple.{
  concrete, wildcard, userset, RelationTuple, is_name, is_id, object_ok, subject_ok, tuple_ok,
  format_subject, stringify_tuple, wildcard_with_id, missing_dot, schema, parse_subject,
  parse_tuple,
}
use server_kit.Permissions.Tuple.RoundTrip.{parse_tuple-stringify_tuple}
use server_kit.Permissions.Tuple.Canonical.{stringify_tuple-parse_tuple}

opened : Unit {0}
unfolding is_name is_id object_ok subject_ok tuple_ok format_subject stringify_tuple parse_subject
    parse_tuple
opened = tt

abbrev owned : RelationTuple
owned = record {
  object = record { namespace = codes "doc"; id = codes "readme" };
  relation = codes "owner";
  subject = concrete (codes "user") (codes "alice");
}

shapes :
    (parse_subject (codes "user.*") ≡ ok (wildcard (codes "user")))
    × (parse_subject (codes "org:42.admin")
        ≡ ok (userset (codes "org") (codes "42") (codes "admin")))
    × (parse_subject (codes "org:42.*") ≡ err wildcard_with_id)
    × (parse_tuple (codes "doc:a@user:b") ≡ err missing_dot)
    × (parse_tuple (codes "Doc:a.x@user:b") ≡ err schema)
unfolding opened
shapes = (refl, refl, refl, refl, refl)

parse_tuple-stringify_tuple_example : parse_tuple (stringify_tuple owned) ≡ ok owned
unfolding opened
parse_tuple-stringify_tuple_example = parse_tuple-stringify_tuple owned refl

stringify_tuple-parse_tuple_example :
    (stringify_tuple owned ≡ codes "doc:readme.owner@user:alice") × (tuple_ok owned ≡ true)
unfolding opened
stringify_tuple-parse_tuple_example =
    stringify_tuple-parse_tuple (codes "doc:readme.owner@user:alice") {t = owned} refl
