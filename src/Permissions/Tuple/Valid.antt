-- ===== src/Permissions/Tuple/Valid.antt =====
-- What the name and id patterns exclude.
use server_kit.Base.{Text, includes, every, true, false, [], ◌∷◌, ◌≡◌, refl, arith}
use server_kit.Permissions.Tuple.{is_name_char, is_name, is_id_char, is_id}

-- Neither pattern admits a separator: none of `. : @ *` stands in a name or an id.
abbrev pub IsPlain : Text → Type 0
IsPlain s =
    (includes b'.' s ≡ false)
    × (includes b':' s ≡ false)
    × (includes b'@' s ≡ false)
    × (includes b'*' s ≡ false)

name_chars-IsPlain : (s : Text) → every is_name_char s ≡ true → IsPlain s
name_chars-IsPlain [] h = (refl, refl, refl, refl)
name_chars-IsPlain (c ∷ s) h = ground (arith, name_chars-IsPlain s)

id_chars-IsPlain : (s : Text) → every is_id_char s ≡ true → IsPlain s
id_chars-IsPlain [] h = (refl, refl, refl, refl)
id_chars-IsPlain (c ∷ s) h = ground (arith, id_chars-IsPlain s)

pub is_name-IsPlain : (s : Text) → is_name s ≡ true → IsPlain s
unfolding is_name
is_name-IsPlain [] h = (refl, refl, refl, refl)
is_name-IsPlain (c ∷ s) h = ground (arith, name_chars-IsPlain s)

pub is_id-IsPlain : (s : Text) → is_id s ≡ true → IsPlain s
unfolding is_id
is_id-IsPlain [] h = (refl, refl, refl, refl)
is_id-IsPlain (c ∷ s) h = ground (arith, id_chars-IsPlain s)
