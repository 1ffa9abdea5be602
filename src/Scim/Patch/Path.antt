-- ===== src/Scim/Patch/Path.antt =====
-- parsePatchPath and findMatchingBracket of packages/scim/src/patch/patch.applier.ts.
mod Tests
use server_kit.Base.{
  ℕ, zero, suc, Text, Result, ok, err, ◌>>=◌, cut, includes, ◌==◌, Bool, true, false, if◌then◌else◌,
  List, [], ◌∷◌, Option, some, none,
}
use mathlib.Core.Option
use server_kit.Scim.Ast.{FilterNode, FilterError}
use server_kit.Scim.Parser.{parse_scim_filter}

-- The throws of the applier; a filter's own error is kept.
pub data PatchError : Type 0 where
  remove_without_path pathless_value unknown_op : PatchError
  unterminated_filter no_attribute no_dot bad_sub_attribute empty_path : PatchError
  not_multi_valued nothing_matched : PatchError
  bad_filter : FilterError → PatchError

pub record ParsedPath (Num : Type 0) : Type 0 where
  pub segments : List Text
  pub filter : Option (FilterNode Num)
  pub filter_sub_attr : Option Text

-- Add a character to the first piece.
abbrev prepend : ℕ → List Text → List Text
prepend c [] = (c ∷ []) ∷ []
prepend c (piece ∷ pieces) = (c ∷ piece) ∷ pieces

-- `s.split('.')`.
unfoldable pub split_dots : Text → List Text
split_dots [] = [] ∷ []
split_dots (c ∷ s) = let rest = split_dots s in if c == b'.' then [] ∷ rest else prepend c rest

-- `.filter(Boolean)`.
drop_empty : List Text → List Text
drop_empty [] = []
drop_empty ([] ∷ pieces) = drop_empty pieces
drop_empty ((c ∷ s) ∷ pieces) = (c ∷ s) ∷ drop_empty pieces

unfoldable pub path_segments : Text → List Text
unfolding drop_empty
path_segments s = drop_empty (split_dots s)

abbrev inside : ℕ → Option (Text × Text) → Option (Text × Text)
inside c r = Option.map (λ (a, b). (c ∷ a, b)) r

-- The text up to the bracket that closes the `depth` open ones, and what follows it; `in_string`
-- says whether a quote is open. A backslash in a string hides the character behind it.
find_matching_bracket : ℕ → Bool → Text → Option (Text × Text)
find_matching_bracket depth in_string [] = none
find_matching_bracket depth true (c ∷ []) = none
find_matching_bracket depth true (c ∷ (d ∷ s)) =
    let hidden = inside c (inside d (find_matching_bracket depth true s)) in
    let closed = inside c (find_matching_bracket depth false (d ∷ s)) in
    let going_on = inside c (find_matching_bracket depth true (d ∷ s)) in
    if c == 92 then hidden else if c == b'"' then closed else going_on
find_matching_bracket zero false (c ∷ s) = none
find_matching_bracket (suc zero) false (c ∷ s) =
    let quoted = inside c (find_matching_bracket 1 true s) in
    let deeper = inside c (find_matching_bracket 2 false s) in
    let going_on = inside c (find_matching_bracket 1 false s) in
    if c == b'"'
    then quoted
    else if c == b'['
    then deeper
    else if c == b']'
    then some ([], s)
    else going_on
find_matching_bracket (suc (suc depth)) false (c ∷ s) =
    let quoted = inside c (find_matching_bracket (suc (suc depth)) true s) in
    let deeper = inside c (find_matching_bracket (suc (suc (suc depth))) false s) in
    let shallower = inside c (find_matching_bracket (suc depth) false s) in
    let going_on = inside c (find_matching_bracket (suc (suc depth)) false s) in
    if c == b'"'
    then quoted
    else if c == b'['
    then deeper
    else if c == b']'
    then shallower
    else going_on

-- What may follow the closing bracket: nothing, or a dot and a sub-attribute.
sub_attribute : Text → Result PatchError (Option Text)
sub_attribute [] = ok none
sub_attribute (c ∷ sub) =
    if c == b'.'
    then (elim sub [
      | [] ↦ err bad_sub_attribute
      | d ∷ s ↦ if includes b'[' (d ∷ s) then err bad_sub_attribute else ok (some (d ∷ s))
    ])
    else err no_dot

module _ {Num : Type 0} (to_number : Text → Option Num) where
  -- `parseScimFilter`, with its error as one of the applier's.
  parse_filter : Text → Result PatchError (FilterNode Num)
  parse_filter source = elim (parse_scim_filter to_number source) [
    | ok filter ↦ ok filter
    | err e ↦ err (bad_filter e)
  ]

  -- A path with a value-path filter, cut at its first bracket and at the one that closes it.
  filtered_path : List Text → Text → Text → Result PatchError (ParsedPath Num)
  filtered_path [] source tail = err no_attribute
  filtered_path (segment ∷ segments) source tail = do
    filter ← parse_filter source
    sub ← sub_attribute tail
    ok (record { segments = segment ∷ segments; filter = some filter; filter_sub_attr = sub })

  pub parse_patch_path : Text → Result PatchError (ParsedPath Num)
  parse_patch_path raw = elim (cut b'[' raw) [
    | none ↦ ok (record { segments = path_segments raw; filter = none; filter_sub_attr = none })
    | some (head, rest) ↦ elim (find_matching_bracket 1 false rest) [
      | none ↦ err unterminated_filter
      | some (source, tail) ↦ filtered_path (path_segments head) source tail
    ]
  ]
