-- ===== src/Source/Checks.antt =====
-- A method behind its check.
use py_gre_sql.Base.{ℕ, none, some, ◌≡◌, refl, Option-cases, inl, inr}
use py_gre_sql.Libpq.{Libpq}
use py_gre_sql.Source.{Source, Failure, Reply, raised, check_source_obj, checked}

module _ {pq : Libpq} {A : Type 0} (self : Source pq) (level : ℕ) (body : Source pq × Reply A) where
  pub checked-none : check_source_obj self level ≡ none → checked self level body ≡ body
  checked-none h = rw (h, checked) refl

  pub checked-some :
      (f : Failure)
      → check_source_obj self level ≡ some f
      → checked self level body ≡ (self, raised f)
  checked-some f h = rw (h, checked) refl

  -- a predicate of the reply and the state holds if it holds of a refusal and of the body
  pub checked-All : (P : Source pq → Type 0) → P self → P body.0 → P (checked self level body).0
  checked-All P h k = elim (Option-cases (check_source_obj self level)) [
    | inl e ↦ rw (e, checked) k
    | inr (f, e) ↦ rw (e, checked) h
  ]
