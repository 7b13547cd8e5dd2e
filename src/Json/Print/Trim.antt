-- ===== src/Json/Print/Trim.antt =====
-- The loop of `stringifyImplementation` that is to remove trailing zeros of a decimal.
use lsp_framework.Base.{◌≡◌, refl, none, [], ◌∷◌, Bytes, length, get_elem?, arith}
use lsp_framework.Json.Print.{print_decimal}

get_elem?-length : (s : Bytes) → get_elem? s (length s) ≡ none
get_elem?-length [] = refl
get_elem?-length (c ∷ s) = get_elem?-length s

-- The loop that should remove trailing zeros starts at the terminating null character, which is no
-- zero digit, so it ends at once: the print of every decimal is left as `std::to_string` gives it.
pub print_decimal-id : (s : Bytes) → print_decimal s ≡ s
unfolding print_decimal
print_decimal-id [] = refl
print_decimal-id (c ∷ s) = ground (arith, get_elem?-length s)
