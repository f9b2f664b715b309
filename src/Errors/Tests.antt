-- ===== src/Errors/Tests.antt =====
-- The theorems on errors at concrete inputs.
use py_gre_sql.Base.{ℕ, ◌≡◌, ◌↔◌, codes}
use py_gre_sql.Errors.{integrity_error, data_error, not_supported_error, get_error_type}
use py_gre_sql.Errors.Laws.{get_error_type_classes}

abbrev two : ℕ
two = b'2'

abbrev three : ℕ
three = b'3'

get_error_type_classes_example :
    ((get_error_type (codes "23505") ≡ integrity_error) ↔ ((two ≡ two) × (three ≡ three)))
    × ((get_error_type (codes "23505") ≡ data_error) ↔ ((two ≡ two) × (three ≡ two)))
    × ((get_error_type (codes "23505") ≡ not_supported_error) ↔ ((two ≡ b'0') × (three ≡ b'A')))
get_error_type_classes_example = get_error_type_classes two three (codes "505")
