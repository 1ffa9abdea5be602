-- ===== src/Permissions/Check/Key.antt =====
-- Memo keys and the pairs that they stand for.
use server_kit.Base.{
  Text, cut, cut-append, append-cancel_right, true, &&_split, ◌∷◌, ◌++◌, some, ◌≡◌, ap, arith,
}
use server_kit.Permissions.Tuple.{ObjectRef, SubjectRef, object_ok, is_name, is_id, format_subject}
use server_kit.Permissions.Tuple.Valid.{is_name-IsPlain, is_id-IsPlain}
use server_kit.Permissions.Check.{memo_key}

module _ (s : SubjectRef) where
  -- The key as read: cut at the first colon, then at the first dot.
  cut-memo_key :
      (o : ObjectRef) (rel : Text)
      → object_ok o ≡ true
      → (cut b':' (memo_key o rel s)
          ≡ some (o.namespace, o.id ++ b'.' ∷ (rel ++ b'@' ∷ format_subject s)))
        × (cut b'.' (o.id ++ b'.' ∷ (rel ++ b'@' ∷ format_subject s))
            ≡ some (o.id, rel ++ b'@' ∷ format_subject s))
  unfolding memo_key object_ok
  cut-memo_key o rel h =
      let (hn, hi) = &&_split (is_name o.namespace) (is_id o.id) h in
      (
        cut-append b':' o.namespace _ (is_name-IsPlain o.namespace hn).1,
        cut-append b'.' o.id _ (is_id-IsPlain o.id hi).0,
      )

  -- Two pairs with valid objects and one key are one pair.
  pub memo_key-injective :
      (o o' : ObjectRef) (rel rel' : Text)
      → object_ok o ≡ true
      → object_ok o' ≡ true
      → memo_key o rel s ≡ memo_key o' rel' s
      → (o ≡ o') × (rel ≡ rel')
  memo_key-injective o o' rel rel' h h' e =
      let (a, b) = cut-memo_key o rel h in
      let (a', b') = cut-memo_key o' rel' h' in
      let c = ap (cut b':') e in
      let ns : o.namespace ≡ o'.namespace = cc in
      let rest : o.id ++ b'.' ∷ (rel ++ b'@' ∷ format_subject s)
          ≡ o'.id ++ b'.' ∷ (rel' ++ b'@' ∷ format_subject s) =
        cc in
      let d = ap (cut b'.') rest in
      let id : o.id ≡ o'.id = cc in
      let tail : rel ++ b'@' ∷ format_subject s ≡ rel' ++ b'@' ∷ format_subject s = cc in
      (ground arith, append-cancel_right rel rel' (b'@' ∷ format_subject s) tail)
