-- ===== src/Types/Laws.antt =====
-- The types of arrays against those of their elements.
use Prim.Native.Nat.{bit_or}
use py_gre_sql.Base.{
  ℕ, List, [], ◌∷◌, if◌then◌else◌, ◌≡◌, ◌≢◌, refl, ◌==◌, Bool, true, false, ◌&&◌, arith,
}
use py_gre_sql.Settings.{Settings}
use py_gre_sql.Types.{get_type, get_array_type, pygres_text, pygres_array, pygres_other}

-- The array types of pgtypes.h, each with the type of its elements: those whose elements get a code
-- of their own from `get_type`, and the others. The pseudo-type of all arrays is none of them.
abbrev pub array_types : List (ℕ × ℕ)
array_types =
    (1005, 21)
    ∷ (1007, 23)
    ∷ (1016, 20)
    ∷ (1012, 29)
    ∷ (1028, 26)
    ∷ (1011, 28)
    ∷ (1021, 700)
    ∷ (1022, 701)
    ∷ (1231, 1700)
    ∷ (791, 790)
    ∷ (1000, 16)
    ∷ (1001, 17)
    ∷ (199, 114)
    ∷ (3807, 3802)
    ∷ (1014, 1042)
    ∷ (1002, 18)
    ∷ (1009, 25)
    ∷ (1015, 1043)
    ∷ (1003, 19)
    ∷ (2211, 2206)
    ∷ []

abbrev pub other_array_types : List (ℕ × ℕ)
other_array_types =
    (143, 142)
    ∷ (629, 628)
    ∷ (719, 718)
    ∷ (1006, 22)
    ∷ (1008, 24)
    ∷ (1010, 27)
    ∷ (1013, 30)
    ∷ (1017, 600)
    ∷ (1018, 601)
    ∷ (1019, 602)
    ∷ (1020, 603)
    ∷ (1023, 702)
    ∷ (1024, 703)
    ∷ (1025, 704)
    ∷ (1027, 604)
    ∷ (1034, 1033)
    ∷ (1040, 829)
    ∷ (775, 774)
    ∷ (1041, 869)
    ∷ (651, 650)
    ∷ (1263, 2275)
    ∷ (1115, 1114)
    ∷ (1182, 1082)
    ∷ (1183, 1083)
    ∷ (1185, 1184)
    ∷ (1187, 1186)
    ∷ (1270, 1266)
    ∷ (1561, 1560)
    ∷ (1563, 1562)
    ∷ (2201, 1790)
    ∷ (2207, 2202)
    ∷ (2208, 2203)
    ∷ (2209, 2204)
    ∷ (2210, 2205)
    ∷ (4097, 4096)
    ∷ (4090, 4089)
    ∷ (2951, 2950)
    ∷ (3221, 3220)
    ∷ (3643, 3614)
    ∷ (3644, 3642)
    ∷ (3645, 3615)
    ∷ (3735, 3734)
    ∷ (3770, 3769)
    ∷ (2949, 2970)
    ∷ (3905, 3904)
    ∷ (3907, 3906)
    ∷ (3909, 3908)
    ∷ (3911, 3910)
    ∷ (3913, 3912)
    ∷ (3927, 3926)
    ∷ (2287, 2249)
    ∷ []

abbrev pub All : {A : Type 0} → (A → Type 0) → List A → Type 0
All P [] = Unit
All P (x ∷ xs) = P x × All P xs

false-ne-true : false ≢ true
false-ne-true e = cc

both_true : (a b : Bool) → (a && b) ≡ true → (a ≡ true) × (b ≡ true)
both_true true b h = (refl, h)
both_true false b h = elim (false-ne-true h) [ ]

eq_of : (a b : ℕ) → (a == b) ≡ true → a ≡ b
eq_of a b h = ground arith

module _ {Obj : Type 0} (g : Settings Obj) where
  -- the code of an array type from that of its elements
  abbrev pub CastsElements : ℕ × ℕ → Type 0
  CastsElements p =
      get_type g p.0
      ≡ (if g.array_as_text then pygres_text else bit_or (get_type g p.1) pygres_array)

  -- an array type and its elements, left to the cast hook
  abbrev pub IsOther : ℕ × ℕ → Type 0
  IsOther p = (get_type g p.0 ≡ pygres_other) × (get_type g p.1 ≡ pygres_other)

  all_other : List (ℕ × ℕ) → Bool
  all_other [] = true
  all_other (p ∷ ps) =
      let rest = all_other ps in
      (get_type g p.0 == pygres_other) && ((get_type g p.1 == pygres_other) && rest)

  all_other-IsOther : (ps : List (ℕ × ℕ)) → all_other ps ≡ true → All IsOther ps
  unfolding all_other
  all_other-IsOther [] h = tt
  all_other-IsOther (p ∷ ps) h =
      let (a, more) = both_true (get_type g p.0 == pygres_other) _ h in
      let (b, rest) = both_true (get_type g p.1 == pygres_other) _ more in
      (
        (eq_of (get_type g p.0) pygres_other a, eq_of (get_type g p.1) pygres_other b),
        all_other-IsOther ps rest,
      )

  -- Under any settings, the array types of pgtypes.h are cast as their elements are: where the
  -- elements have a code of their own, as text if arrays are kept as text, and else with that code
  -- and the array bit; and where they are left to the cast hook, the array is so too.
  pub get_type_arrays : All CastsElements array_types × All IsOther other_array_types
  unfolding get_type get_array_type all_other
  get_type_arrays = (
    (
      refl,
      (
        refl,
        (
          refl,
          (
            refl,
            (
              refl,
              (
                refl,
                (
                  refl,
                  (
                    refl,
                    (
                      refl,
                      (
                        refl,
                        (
                          refl,
                          (
                            refl,
                            (refl, (refl, (refl, (refl, (refl, (refl, (refl, (refl, tt)))))))),
                          ),
                        ),
                      ),
                    ),
                  ),
                ),
              ),
            ),
          ),
        ),
      ),
    ),
    all_other-IsOther other_array_types refl,
  )
