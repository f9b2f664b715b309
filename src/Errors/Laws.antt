-- ===== src/Errors/Laws.antt =====
-- Which SQLSTATE classes raise which exception.
use py_gre_sql.Base.{ℕ, ◌∷◌, Bytes, ◌≡◌, arith, ◌↔◌}
use py_gre_sql.Errors.{
  integrity_error, data_error, not_supported_error, class_0, class_2, class_3, class_4, error_class,
  get_error_type,
}

-- An IntegrityError is raised for the SQLSTATE class 23 and no other, a DataError for class 22 and
-- no other, and a NotSupportedError for class 0A and no other.
pub get_error_type_classes :
    (a b : ℕ) (s : Bytes)
    → ((get_error_type (a ∷ b ∷ s) ≡ integrity_error) ↔ ((a ≡ b'2') × (b ≡ b'3')))
      × ((get_error_type (a ∷ b ∷ s) ≡ data_error) ↔ ((a ≡ b'2') × (b ≡ b'2')))
      × ((get_error_type (a ∷ b ∷ s) ≡ not_supported_error) ↔ ((a ≡ b'0') × (b ≡ b'A')))
unfolding get_error_type error_class class_0 class_2 class_3 class_4
get_error_type_classes a b s = (ground arith, ground arith, ground arith)
