-- ===== src/Scim/Patch/Path/Tests.antt =====
-- Paths on concrete texts.
use server_kit.Base.{ℕ, false, Text, codes, ok, err, [], ◌∷◌, Option, some, none, ◌≡◌, refl}
use server_kit.Scim.Patch.Path.{
  split_dots, drop_empty, path_segments, find_matching_bracket, sub_attribute, parse_filter,
  filtered_path, parse_patch_path, unterminated_filter, no_attribute, no_dot, bad_sub_attribute,
}

opened : Unit {0}
unfolding split_dots drop_empty path_segments find_matching_bracket sub_attribute parse_filter
    filtered_path parse_patch_path
opened = tt

abbrev one : Text → Option ℕ
one s = some 1

plain :
    parse_patch_path one (codes "a..b.c")
    ≡ ok (record {
      segments = codes "a" ∷ codes "b" ∷ codes "c" ∷ [];
      filter = none;
      filter_sub_attr = none;
    })
unfolding opened
plain = refl

quoted_bracket :
    find_matching_bracket 1 false (codes "x eq \"]\"].v") ≡ some (codes "x eq \"]\"", codes ".v")
unfolding opened
quoted_bracket = refl

nested_brackets : find_matching_bracket 1 false (codes "a[b pr]]") ≡ some (codes "a[b pr]", [])
unfolding opened
nested_brackets = refl

refused :
    (parse_patch_path one (codes "a[b pr") ≡ err unterminated_filter)
    × (parse_patch_path one (codes "[b pr]") ≡ err no_attribute)
unfolding opened
refused = (refl, refl)

tails :
    (sub_attribute (codes "x") ≡ err no_dot)
    × (sub_attribute (codes ".") ≡ err bad_sub_attribute)
    × (sub_attribute (codes ".x[") ≡ err bad_sub_attribute)
    × (sub_attribute (codes ".x.y") ≡ ok (some (codes "x.y")))
unfolding opened
tails = (refl, refl, refl, refl)
