-- ===== src/Json/Tests.antt =====
-- The string literals, the decimals and the parser of lsp/json/json.cpp on concrete texts.
use lsp_framework.Base.{
  ok, refl, negsuc, ◌∷◌, ℕ, ◌≡◌, ◌≢◌, [], ◌++◌, Bytes, codes, err, pos, arith, length, true,
}
use lsp_framework.Exceptions.{out_of_fuel, parse_error}
use lsp_framework.Json.RoundTrip.{Printable, parse-stringify}
use lsp_framework.Json.Value.{
  Value, decimal, string, number, append_field, array, cons, null, nil, object, field, end, integer,
  update_field, index, find, contains, append_item, item_at, update_item, Decimals,
  invalid_argument,
}
use lsp_framework.Json.Literal.{to_string_literal, from_string_literal}
use lsp_framework.Json.Literal.RoundTrip.{from_string_literal-to_string_literal}
use lsp_framework.Json.Print.{stringify, print_decimal}
use lsp_framework.Json.Print.Trim.{print_decimal-id}
use lsp_framework.Json.Parser.{parse}
use lsp_framework.Json.Parser.Pointers.{deref, modify_at}
use lsp_framework.Json.Parser.Tokens.{
  skip_whitespace, parse_simple_value, parse_string, scan_string, take_while, parse_number,
  number_value, parse_identifier, identifier_value, has_decimal_char,
}
use lsp_framework.Json.Parser.Termination.{parse-ne-out_of_fuel}

abbrev no_decimals : Decimals ℕ
no_decimals = record {
  stod = λ s. invalid_argument;
  to_string = λ d. [];
  of_int = λ i. 0;
  to_int = λ d. pos 0;
}

from_string_literal-to_string_literal_example :
    from_string_literal (to_string_literal (codes "a\"b\\c\n")) ≡ codes "a\"b\\c\n"
from_string_literal-to_string_literal_example =
    from_string_literal-to_string_literal (codes "a\"b\\c\n")

print_decimal-id_example : print_decimal (codes "1.500000") ≡ codes "1.500000"
print_decimal-id_example = print_decimal-id (codes "1.500000")

parse-ne-out_of_fuel_example : parse no_decimals (codes "[1, {\"a\": [}") ≢ err out_of_fuel
parse-ne-out_of_fuel_example = parse-ne-out_of_fuel no_decimals (codes "[1, {\"a\": [}")

parse_run :
    parse no_decimals (codes " {\"a\" : [1, -2 ,null], \"b\":{}} ")
    ≡ ok (
        object (
          field
            (codes "a")
            (array (cons (integer (pos 1)) (cons (integer (negsuc 1)) (cons null nil))))
            (field (codes "b") (object end) end)))
unfolding parse skip_whitespace parse_simple_value parse_string scan_string take_while parse_number
    number_value parse_identifier identifier_value from_string_literal deref modify_at append_item
    index update_field item_at update_item contains find
parse_run = refl

parse_trailing : parse no_decimals (codes "[1,]") ≡ err (parse_error (codes "Trailing ','") 2)
unfolding parse skip_whitespace parse_simple_value parse_string scan_string take_while parse_number
    number_value parse_identifier identifier_value from_string_literal deref modify_at append_item
    index update_field item_at update_item contains find
parse_trailing = refl

literal_run :
    from_string_literal (codes "\"a\\n\\u00e9\\q\\u12x\\\"")
    ≡ codes "a\n" ++ 0xC3 ∷ 0xA9 ∷ codes "q\\u12x\\"
unfolding from_string_literal
literal_run = refl

-- Decimals that are their own text.
abbrev texts : Decimals Bytes
texts = record {
  stod = λ s. number s (length s);
  to_string = λ d. d;
  of_int = λ i. [];
  to_int = λ d. pos 0;
}

abbrev nested : Value Bytes
nested = object (
    field (codes "a\n")
      (array
        (cons (integer (negsuc 7)) (cons (decimal (codes "-1.500000")) (cons (object end) nil))))
      (field (codes "b") (string (codes "\"]")) end))

nested-Printable : Printable texts nested
unfolding Printable contains append_field has_decimal_char
nested-Printable = ground arith

parse-stringify_example : parse texts (stringify texts true nested) ≡ ok nested
parse-stringify_example = parse-stringify texts true nested nested-Printable
