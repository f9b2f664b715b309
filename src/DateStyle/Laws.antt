-- ===== src/DateStyle/Laws.antt =====
-- The two conversions of date styles are inverse on what they return.
use py_gre_sql.Base.{Bytes, Option, some, ◌≡◌, refl, ap, ◌∙◌}
use py_gre_sql.Scan.{skip_blanks}
use py_gre_sql.DateStyle.{
  Style, iso, postgres_mdy, postgres_dmy, sql_mdy, sql_dmy, german, formats, datestyle, after_comma,
  style_of, date_style_to_format, format_style, date_format_to_style,
}

style_of-datestyle : (k : Style) → style_of (some (datestyle k)) ≡ k
unfolding style_of datestyle after_comma skip_blanks
style_of-datestyle iso = refl
style_of-datestyle postgres_mdy = refl
style_of-datestyle postgres_dmy = refl
style_of-datestyle sql_mdy = refl
style_of-datestyle sql_dmy = refl
style_of-datestyle german = refl

format_style-formats : (k : Style) → format_style (some (formats k)) ≡ k
unfolding format_style formats
format_style-formats iso = refl
format_style-formats postgres_mdy = refl
format_style-formats postgres_dmy = refl
format_style-formats sql_mdy = refl
format_style-formats sql_dmy = refl
format_style-formats german = refl

-- For any date style, null too: the style of its format has the same format, so no date is read
-- in another way once the style has been stored as a format and given back as a style.
pub style_format_round_trip :
    (s : Option Bytes)
    → date_style_to_format (some (date_format_to_style (some (date_style_to_format s))))
      ≡ date_style_to_format s
unfolding date_style_to_format date_format_to_style
style_format_round_trip s = ap formats (style_of-datestyle _ ∙ format_style-formats (style_of s))
