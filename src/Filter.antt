-- ===== src/Filter.antt =====
-- pkg/store/filter.go: the substring filter of the readers, on ASCII text.
use ts_store.Prelude.{Bool, true, map, if◌then◌else◌}
use ts_store.Prelude.Equality.{Bytes}
use ts_store.Strings.{contains, is_empty}
use ts_store.Rules.Parse.{lower}

unfoldable pub matches_filter : Bytes → Bytes → Bool → Bool
matches_filter bs filter ignore_case =
    if is_empty filter
    then true
    else if ignore_case
    then contains (map lower bs) (map lower filter)
    else contains bs filter
