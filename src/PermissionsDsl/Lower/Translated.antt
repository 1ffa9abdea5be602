-- ===== src/PermissionsDsl/Lower/Translated.antt =====
-- What a translated file's permissions are in the model that is built from it.
use server_kit.Base.{
  Text, text_eq, text_eq_iff, contains, lookup, insert, lookup-insert, ok, Bool, true, false,
  Bool-cases, List, [], ◌∷◌, map, some, ◌≡◌, refl, ap, ◌∙◌, inl, inr, arith,
}
use mathlib.Core.List.{Memᴰ}
use server_kit.Permissions.Model.{
  UsersetExpr, NamespaceDef, AuthorizationModel, find_namespace, resolve,
}
use server_kit.PermissionsDsl.Ast.{
  SourceSpan, ExprNode, MemberNode, relation, permission, NamespaceNode, FileNode,
}
use server_kit.PermissionsDsl.Lower.{
  subject_to_string, lower_expr, lower_members, lower_namespace, local_members, validate_local,
  validate_refs, lower,
}
use server_kit.PermissionsDsl.Lower.Meaning.{allows, permits, permits-lower_expr}
use server_kit.PermissionsDsl.Lower.Refers.{Refers, validate_refs-Refers}
use server_kit.PermissionsDsl.Lower.Checked.{IsBindable, lower-IsBindable}

-- A permission that is seen is not declared again.
lookup-lower_members_seen :
    (k : Text) (relations permissions : List Text) (ms : List MemberNode) (def : NamespaceDef)
    → local_members relations permissions ms ≡ ok tt
    → contains k permissions ≡ true
    → lookup k (lower_members def ms).permissions ≡ lookup k def.permissions
unfolding local_members lower_members
lookup-lower_members_seen k relations permissions [] def h seen = refl
lookup-lower_members_seen k relations permissions (relation name l subjects ∷ ms) def h seen =
    lookup-lower_members_seen k (name ∷ relations) permissions ms
      (record def {
        relations =
            insert name (record { subjects = map subject_to_string subjects }) def.relations;
      })
      (ground arith) seen
lookup-lower_members_seen k relations permissions (permission name l e ∷ ms) def h seen =
    let new : contains name permissions ≡ false = ground arith in
    let later : local_members relations (name ∷ permissions) ms ≡ ok tt = ground arith in
    elim (Bool-cases (text_eq name k)) [
      | inl same ↦
          let key : name ≡ k = (text_eq_iff name k).0 same in
          absurd (cc (ap (λ n. contains n permissions) key))
      | inr other ↦
          lookup-lower_members_seen k relations (name ∷ permissions) ms
            (record def { permissions = insert name (lower_expr e) def.permissions }) later
            (rw other seen)
          ∙ lookup-insert name k (lower_expr e) def.permissions
          ∙ rw other refl
    ]

lookup-lower_members :
    (k : Text) (l : SourceSpan) (e : ExprNode) (relations permissions : List Text)
    (ms : List MemberNode) (def : NamespaceDef)
    → local_members relations permissions ms ≡ ok tt
    → Memᴰ (permission k l e) ms
    → lookup k (lower_members def ms).permissions ≡ some (lower_expr e)
unfolding local_members lower_members
lookup-lower_members k l e relations permissions [] def h at = elim at [ ]
lookup-lower_members k l e relations permissions (m ∷ ms) def h (Memᴰ.head same) = here m same h
  where
    here :
        (m : MemberNode)
        → permission k l e ≡ m
        → local_members relations permissions (m ∷ ms) ≡ ok tt
        → lookup k (lower_members def (m ∷ ms)).permissions ≡ some (lower_expr e)
    here (relation name l' subjects) same h = absurd (cc)
    here (permission name l' e') same h =
        let key : k ≡ name = cc in
        let one : e ≡ e' = cc in
        let own : text_eq k k ≡ true = (text_eq_iff k k).1 refl in
        let later : local_members relations (k ∷ permissions) ms ≡ ok tt = ground arith in
        rw (← key, ← one)
          (lookup-lower_members_seen k relations (k ∷ permissions) ms
              (record def { permissions = insert k (lower_expr e) def.permissions }) later
              (rw own refl)
            ∙ lookup-insert k k (lower_expr e) def.permissions
            ∙ rw own refl)
lookup-lower_members k l e relations permissions (relation name l' subjects ∷ ms) def h
      (Memᴰ.tail at) =
    lookup-lower_members k l e (name ∷ relations) permissions ms
      (record def {
        relations =
            insert name (record { subjects = map subject_to_string subjects }) def.relations;
      })
      (ground arith) at
lookup-lower_members k l e relations permissions (permission name l' e' ∷ ms) def h (Memᴰ.tail at) =
    lookup-lower_members k l e relations (name ∷ permissions) ms
      (record def { permissions = insert name (lower_expr e') def.permissions }) (ground arith) at

name-lower_members :
    (ms : List MemberNode) (def : NamespaceDef) → (lower_members def ms).name ≡ def.name
unfolding lower_members
name-lower_members [] def = refl
name-lower_members (relation name l subjects ∷ ms) def = name-lower_members ms _
name-lower_members (permission name l e ∷ ms) def = name-lower_members ms _

validate_local-members :
    (seen : List Text) (nss : List NamespaceNode) (ns : NamespaceNode)
    → validate_local seen nss ≡ ok tt
    → Memᴰ ns nss
    → local_members [] [] ns.members ≡ ok tt
unfolding validate_local
validate_local-members seen [] ns h at = elim at [ ]
validate_local-members seen (x ∷ nss) ns h (Memᴰ.head same) =
    let here : local_members [] [] x.members ≡ ok tt = ground arith in rw same here
validate_local-members seen (x ∷ nss) ns h (Memᴰ.tail at) =
    validate_local-members (x.name ∷ seen) nss ns (ground arith) at

IsBindable-new :
    (seen : List Text) (nss : List NamespaceNode) (ns : NamespaceNode)
    → IsBindable seen nss
    → Memᴰ ns nss
    → contains ns.name seen ≡ false
IsBindable-new seen [] ns h at = elim at [ ]
IsBindable-new seen (x ∷ nss) ns (valid, free, new, rest) (Memᴰ.head same) = rw same new
IsBindable-new seen (x ∷ nss) ns (valid, free, new, rest) (Memᴰ.tail at) =
    let later = IsBindable-new (x.name ∷ seen) nss ns rest at in ground arith

find-lower_namespace :
    (seen : List Text) (nss : List NamespaceNode) (ns : NamespaceNode)
    → IsBindable seen nss
    → Memᴰ ns nss
    → find_namespace ns.name (map lower_namespace nss) ≡ some (lower_namespace ns)
unfolding lower_namespace
find-lower_namespace seen [] ns h at = elim at [ ]
find-lower_namespace seen (x ∷ nss) ns (valid, free, new, rest) (Memᴰ.head same) =
    let named =
      name-lower_members x.members (record { name = x.name; relations = []; permissions = [] }) in
    let own : text_eq x.name x.name ≡ true = (text_eq_iff x.name x.name).1 refl in
    rw (same, named, own) refl
find-lower_namespace seen (x ∷ nss) ns (valid, free, new, rest) (Memᴰ.tail at) =
    let named =
      name-lower_members x.members (record { name = x.name; relations = []; permissions = [] }) in
    let apart = IsBindable-new (x.name ∷ seen) nss ns rest at in
    let other : text_eq x.name ns.name ≡ false = ground arith in
    rw (named, other) (find-lower_namespace (x.name ∷ seen) nss ns rest at)

-- In the model of a translated file, every permission of the file resolves to an expression that permits
-- what the permission's expression allows, whatever the names and walks in it stand for; and what that
-- expression refers to is declared: a name by a member of its namespace, and a walk by a relation of
-- its namespace, of which some subject type without a relation names a namespace of the file that
-- declares the other name.
pub lower-resolve :
    (file : FileNode) (namespaces : List NamespaceDef) (m : AuthorizationModel) (ns : NamespaceNode)
    (name : Text) (l : SourceSpan) (e : ExprNode) (named : Text → Bool)
    (walked : Text → Text → Bool)
    → lower file ≡ ok (namespaces, m)
    → Memᴰ ns (file.namespaces)
    → Memᴰ (permission name l e) ns.members
    → ((u : UsersetExpr) × (resolve m ns.name name ≡ ok (some u))
        × (permits named walked u ≡ allows named walked e))
      × Refers (file.namespaces) ns e
unfolding lower resolve lower_namespace
lower-resolve file namespaces m ns name l e named walked h at member =
    let local : validate_local [] (file.namespaces) ≡ ok tt = ground arith in
    let refs : validate_refs (file.namespaces) ≡ ok tt = ground arith in
    let (bindable, same, built, kept) = lower-IsBindable file namespaces m h in
    let found : find_namespace ns.name m.by_name ≡ some (lower_namespace ns) =
      rw (kept, same) (find-lower_namespace [] (file.namespaces) ns bindable at) in
    let here : lookup name (lower_namespace ns).permissions ≡ some (lower_expr e) =
      lookup-lower_members name l e [] [] ns.members
        (record { name = ns.name; relations = []; permissions = [] })
        (validate_local-members [] (file.namespaces) ns local at) member in
    (
      (lower_expr e, rw (found, here, resolve) refl, permits-lower_expr named walked e),
      validate_refs-Refers (file.namespaces) ns name l e refs at member,
    )
