-- ===== src/Source/Fields.antt =====
-- The methods of pgsource.c that describe the fields of a result or read one value, for Python 3.
use py_gre_sql.Base.{
  ℕ, zero, suc, ℤ, pos_part, is_negative, leb, ◌||◌, List, [], ◌∷◌, Bytes, Option, none, some, ◌==◌,
  if◌then◌else◌, ◌⊎◌, inl, inr, ◌+◌,
}
use py_gre_sql.Libpq.{Libpq, get_value}
use py_gre_sql.Source.{
  Source, Failure, Reply, returned, raised, null_pointer, argument_expected, unknown_field,
  check_result, check_dql, checked,
}

-- a Python value as the name of a field
pub data Desc : Type 0 where
  text_desc : Bytes → Desc
  int_desc : ℤ → Desc
  other_desc : Desc

-- a tuple of field information
pub record Info : Type 0 where
  pub num : ℕ
  pub name : Bytes
  pub type : ℕ
  pub size : ℤ
  pub modifier : ℤ

module _ (pq : Libpq) where
  -- `PQoidValue`, None for 0; the check is CHECK_RESULT
  abbrev last_oid : Source pq → Option pq.Answer → Source pq × Reply (Option ℕ)
  last_oid self none = (self, null_pointer)
  last_oid self (some r) =
      (self, returned (if pq.oid_value r == 0 then none else some (pq.oid_value r)))

  unfoldable pub source_oidstatus : Source pq → Source pq × Reply (Option ℕ)
  source_oidstatus self = checked self check_result (last_oid self self.result)

  -- `num < 0 || num >= self->num_fields`
  abbrev in_fields : ℕ → ℤ → Failure ⊎ ℕ
  in_fields n num =
      if is_negative num || leb n (pos_part num) then inl unknown_field else inr (pos_part num)

  -- The name of a text is read by `PyBytes_AsString`, which is a null pointer for a text.
  unfoldable pub field_number : ℕ → pq.Answer → Desc → Failure ⊎ ℕ
  field_number n r (text_desc s) = in_fields n (pq.fnumber r none)
  field_number n r (int_desc i) = in_fields n i
  field_number n r other_desc = inl argument_expected

  -- `_source_fieldindex`, with CHECK_RESULT | CHECK_DQL, and the method behind it
  abbrev pub field_in :
      {A : Type 0}
      → Source pq
      → Desc
      → (pq.Answer → ℕ → Reply A)
      → Option pq.Answer
      → Source pq × Reply A
  field_in self desc k none = (self, null_pointer)
  field_in self desc k (some r) = elim (field_number self.num_fields r desc) [
    | inl f ↦ (self, raised f)
    | inr num ↦ (self, k r num)
  ]

  abbrev with_field :
      {A : Type 0} → Source pq → Desc → (pq.Answer → ℕ → Reply A) → Source pq × Reply A
  with_field self desc k =
      checked self (check_result + check_dql) (field_in self desc k self.result)

  unfoldable pub source_buildinfo : pq.Answer → ℕ → Info
  source_buildinfo r num = record {
    num = num;
    name = pq.fname r num;
    type = pq.ftype r num;
    size = pq.fsize r num;
    modifier = pq.fmod r num;
  }

  unfoldable pub infos_from : pq.Answer → ℕ → ℕ → List Info
  infos_from r zero i = []
  infos_from r (suc n) i = source_buildinfo r i ∷ infos_from r n (suc i)

  abbrev infos_of : Source pq → Option pq.Answer → Source pq × Reply (List Info)
  infos_of self none = (self, null_pointer)
  infos_of self (some r) = (self, returned (infos_from r self.num_fields 0))

  unfoldable pub source_listinfo : Source pq → Source pq × Reply (List Info)
  source_listinfo self = checked self (check_result + check_dql) (infos_of self self.result)

  unfoldable pub source_fieldinfo : Source pq → Desc → Source pq × Reply Info
  source_fieldinfo self desc = with_field self desc (λ r num. returned (source_buildinfo r num))

  -- `PyStr_FromString (PQgetvalue (...))`
  abbrev pub text_from : Option Bytes → Reply Bytes
  text_from none = null_pointer
  text_from (some s) = returned s

  unfoldable pub source_field : Source pq → Desc → Source pq × Reply Bytes
  source_field self desc =
      with_field self desc (λ r num. text_from (get_value (pq.cell r self.current_row num)))
