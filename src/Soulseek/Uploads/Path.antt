-- ===== src/Soulseek/Uploads/Path.antt =====
-- internal/soulseek/shares.go: normalizeVirtualPath, on bytes.
use slusk.Prelude.{Bool, ◌||◌, ◌==◌, Option, none, some, List, [], ◌∷◌, ◌++◌, if◌then◌else◌}
use slusk.Prelude.Text.{Text, text_eq, is_empty}
use slusk.Matcher.Path.{slash, backslash, dot, dot_dot}
use slusk.Store.Table.{exists}

abbrev to_backslash : Text → Text
to_backslash [] = []
to_backslash (c ∷ cs) = (if c == slash then backslash else c) ∷ to_backslash cs

-- strings.Split at `\`
unfoldable pub split_backslash : Text → Text → List Text
split_backslash part [] = part ∷ []
split_backslash part (c ∷ cs) =
    let here = split_backslash [] cs in
    let on = split_backslash (part ++ c ∷ []) cs in if c == backslash then part ∷ here else on

-- strings.Join with `\`
unfoldable pub join_backslash : List Text → Text
join_backslash [] = []
join_backslash (p ∷ []) = p
join_backslash (p ∷ q ∷ ps) = p ++ backslash ∷ join_backslash (q ∷ ps)

abbrev invalid_part : Text → Bool
invalid_part p = is_empty p || text_eq p (dot ∷ []) || text_eq p dot_dot

-- normalizeVirtualPath. A leading or trailing `\` leaves an empty part, which is refused with the
-- others.
unfoldable pub normalize_virtual_path : Text → Option Text
unfolding split_backslash join_backslash
normalize_virtual_path value =
    let parts = split_backslash [] (to_backslash value) in
    if is_empty value || exists invalid_part parts then none else some (join_backslash parts)
