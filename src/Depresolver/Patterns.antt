-- ===== src/Depresolver/Patterns.antt =====
-- The patterns of controllers/depresolver/depresolver_validator.go.
use k8gb.Prelude.{ℕ, String, Bool, ◌&&◌, ◌||◌, nat_eq, leb}
use k8gb.Prelude.Regexp.{
  Regexp, one_of, seq, alt, star, opt, letter, is_letter, is_lower_letter, is_digit,
}

-- A pattern: the text that the error message quotes, and its meaning.
pub record Pattern : Type 0 where
  pub text : String
  pub syntax : Regexp

is_letter_or_digit : ℕ → Bool
unfolding is_letter is_digit
is_letter_or_digit c = is_letter c || is_digit c

is_geo_char : ℕ → Bool
unfolding is_letter_or_digit
is_geo_char c = is_letter_or_digit c || nat_eq c b'-'

-- "^[a-zA-Z\\-\\d]*$"
unfoldable pub geo_tag_regex : Pattern
unfolding is_geo_char
geo_tag_regex = record { text = "^[a-zA-Z\\-\\d]*$"; syntax = star (one_of is_geo_char) }

-- [a-zA-Z0-9]|[a-zA-Z0-9][a-zA-Z0-9\-]*[a-zA-Z0-9]
host_label : Regexp
unfolding is_geo_char
host_label =
    alt (one_of is_letter_or_digit) (
      seq (one_of is_letter_or_digit) (seq (star (one_of is_geo_char)) (one_of is_letter_or_digit)))

unfoldable pub host_name_regex : Pattern
unfolding host_label
host_name_regex = record {
  text =
      "^(([a-zA-Z0-9]|[a-zA-Z0-9][a-zA-Z0-9\\-]*[a-zA-Z0-9])\\.)*([A-Za-z0-9]|[A-Za-z0-9][A-Za-z0-9\\-]*[A-Za-z0-9])$";
  syntax = seq (star (seq host_label (letter b'.'))) host_label;
}

abbrev in_range : ℕ → ℕ → ℕ → Bool
in_range lo hi c = leb lo c && leb c hi

-- [0-9]|[1-9][0-9]|1[0-9]{2}|2[0-4][0-9]|25[0-5]
octet : Regexp
octet = alt (one_of (in_range b'0' b'9')) (
    alt (seq (one_of (in_range b'1' b'9')) (one_of (in_range b'0' b'9'))) (
      alt (seq (letter b'1') (seq (one_of (in_range b'0' b'9')) (one_of (in_range b'0' b'9')))) (
        alt (seq (letter b'2') (seq (one_of (in_range b'0' b'4')) (one_of (in_range b'0' b'9'))))
          (seq (letter b'2') (seq (letter b'5') (one_of (in_range b'0' b'5')))))))

unfoldable pub ip_address_regex : Pattern
unfolding octet
ip_address_regex =
    let dotted = seq octet (letter b'.') in
    record {
      text =
          "^(([0-9]|[1-9][0-9]|1[0-9]{2}|2[0-4][0-9]|25[0-5])\\.){3}([0-9]|[1-9][0-9]|1[0-9]{2}|2[0-4][0-9]|25[0-5])$";
      syntax = seq dotted (seq dotted (seq dotted octet));
    }

-- 0|(?:[1-9]\d*)
version_number : Regexp
unfolding is_digit
version_number = alt (letter b'0') (seq (one_of (in_range b'1' b'9')) (star (one_of is_digit)))

-- \w is a letter, a digit or an underscore.
is_word_char : ℕ → Bool
unfolding is_letter_or_digit
is_word_char c = is_letter_or_digit c || nat_eq c b'_'

is_suffix_char : ℕ → Bool
unfolding is_word_char
is_suffix_char c = is_word_char c || nat_eq c b'.' || nat_eq c b'-'

unfoldable pub version_number_regex : Pattern
unfolding version_number is_suffix_char
version_number_regex =
    let dotted = seq (letter b'.') version_number in
    let suffix = seq (letter b'-') (seq (one_of is_word_char) (star (one_of is_suffix_char))) in
    record {
      text =
          "^(v){0,1}(0|(?:[1-9]\\d*))(?:\\.(0|(?:[1-9]\\d*))(?:\\.(0|(?:[1-9]\\d*)))?(?:\\-([\\w][\\w\\.\\-_]*))?)?$";
      syntax =
          seq (opt (letter b'v'))
            (seq version_number (opt (seq dotted (seq (opt dotted) (opt suffix)))));
    }

is_lower_or_digit : ℕ → Bool
unfolding is_lower_letter is_digit
is_lower_or_digit c = is_lower_letter c || is_digit c

is_namespace_char : ℕ → Bool
unfolding is_lower_or_digit
is_namespace_char c = nat_eq c b'-' || is_lower_or_digit c

unfoldable pub k8s_namespace_regex : Pattern
unfolding is_namespace_char
k8s_namespace_regex = record {
  text = "^[a-z0-9]([-a-z0-9]*[a-z0-9])?$";
  syntax =
      seq (one_of is_lower_or_digit)
        (opt (seq (star (one_of is_namespace_char)) (one_of is_lower_or_digit)));
}
