-- ===== src/Permissions/Sample.antt =====
-- A small model and store for the tests: documents with owners, banned users and parent folders.
use server_kit.Base.{codes, List, [], ◌∷◌}
use server_kit.Permissions.Tuple.{ObjectRef, SubjectRef, concrete, RelationTuple}
use server_kit.Permissions.Model.{
  computed, tuple_to_userset, exclusion, NamespaceDef, AuthorizationModel,
}

abbrev pub users : NamespaceDef
users = record { name = codes "user"; relations = []; permissions = [] }

abbrev pub folders : NamespaceDef
folders = record {
  name = codes "folder";
  relations = (codes "viewer", record { subjects = codes "user" ∷ [] }) ∷ [];
  permissions = [];
}

abbrev pub docs : NamespaceDef
docs = record {
  name = codes "doc";
  relations =
      (codes "owner", record { subjects = codes "user" ∷ [] })
      ∷ (codes "banned", record { subjects = codes "user.*" ∷ [] })
      ∷ (codes "parent", record { subjects = codes "folder" ∷ codes "user" ∷ [] })
      ∷ [];
  permissions =
      (codes "view", exclusion (computed (codes "owner")) (computed (codes "banned")))
      ∷ (codes "read", tuple_to_userset (codes "parent") (codes "viewer"))
      ∷ [];
}

abbrev pub namespaces : List NamespaceDef
namespaces = users ∷ folders ∷ docs ∷ []

abbrev pub model : AuthorizationModel
model = record { by_name = namespaces }

abbrev pub readme : ObjectRef
readme = record { namespace = codes "doc"; id = codes "readme" }

abbrev pub alice : SubjectRef
alice = concrete (codes "user") (codes "alice")

abbrev pub owned : RelationTuple
owned = record { object = readme; relation = codes "owner"; subject = alice }

-- A parent that is a user: the model accepts it, and users have no viewers.
abbrev pub user_parent : RelationTuple
user_parent = record { object = readme; relation = codes "parent"; subject = alice }

abbrev pub alice_object : ObjectRef
alice_object = record { namespace = codes "user"; id = codes "alice" }
