-- ===== src/PermissionsDsl/Lower/Checked.antt =====
-- What the translation guarantees once it succeeds.
use server_kit.Base.{
  Text, contains, Result, ok, err, true, false, List, [], ◌∷◌, map, ◌≡◌, refl, arith,
}
use server_kit.Permissions.Tuple.{is_name}
use server_kit.Permissions.Model.{NamespaceDef, ModelError, AuthorizationModel, construct}
use server_kit.Permissions.Model.WellFormed.{construct-eq-ok}
use server_kit.PermissionsDsl.Ast.{SourceSpan, NamespaceNode, FileNode}
use server_kit.PermissionsDsl.Lower.{
  with_model, is_reserved, lower_namespace, validate_local, build_model, lower,
}

-- A name that the generated code can bind, and that none of the names before it is.
abbrev pub IsBindable : List Text → List NamespaceNode → Type 0
IsBindable seen [] = Unit
IsBindable seen (ns ∷ rest) =
    (is_name ns.name ≡ true)
    × (is_reserved ns.name ≡ false)
    × (contains ns.name seen ≡ false)
    × IsBindable (ns.name ∷ seen) rest

validate_local-IsBindable :
    (seen : List Text) (namespaces : List NamespaceNode)
    → validate_local seen namespaces ≡ ok tt
    → IsBindable seen namespaces
unfolding validate_local
validate_local-IsBindable seen [] h = tt
validate_local-IsBindable seen (ns ∷ rest) h =
    let valid : is_name ns.name ≡ true = ground arith in
    let free : is_reserved ns.name ≡ false = ground arith in
    let new : contains ns.name seen ≡ false = ground arith in
    let later : validate_local (ns.name ∷ seen) rest ≡ ok tt = ground arith in
    (valid, free, new, validate_local-IsBindable (ns.name ∷ seen) rest later)

build_model-eq-ok :
    (loc : SourceSpan) (namespaces result : List NamespaceDef) (m : AuthorizationModel)
    → build_model loc namespaces ≡ ok (result, m)
    → (result ≡ namespaces) × (construct namespaces ≡ ok m)
unfolding build_model with_model
build_model-eq-ok loc namespaces result m h = go (construct namespaces) refl h
  where
    go :
        (r : Result ModelError AuthorizationModel)
        → construct namespaces ≡ r
        → with_model loc namespaces r ≡ ok (result, m)
        → (result ≡ namespaces) × (construct namespaces ≡ ok m)
    go (ok model) e h = (cc, cc)
    go (err x) e h = absurd (cc)

-- When a file is translated, its namespaces have distinct names that are neither reserved nor
-- malformed, and the definitions that are returned are their translations, in order, which the
-- constructor of the model has accepted and which the model holds.
pub lower-IsBindable :
    (file : FileNode) (namespaces : List NamespaceDef) (m : AuthorizationModel)
    → lower file ≡ ok (namespaces, m)
    → IsBindable [] (file.namespaces)
      × (namespaces ≡ map lower_namespace (file.namespaces))
      × (construct namespaces ≡ ok m)
      × (m.by_name ≡ namespaces)
unfolding lower
lower-IsBindable file namespaces m h =
    let local : validate_local [] (file.namespaces) ≡ ok tt = ground arith in
    let h₂ : build_model (file.loc) (map lower_namespace (file.namespaces)) ≡ ok (namespaces, m) =
      ground arith in
    let (same, built) =
      build_model-eq-ok (file.loc) (map lower_namespace (file.namespaces)) namespaces m h₂ in
    let built' : construct namespaces ≡ ok m = rw same built in
    let (kept, valid) = construct-eq-ok namespaces built' in
    (validate_local-IsBindable [] (file.namespaces) local, same, built', kept)
