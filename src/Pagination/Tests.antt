-- ===== src/Pagination/Tests.antt =====
-- A cursor with a codec that is good enough for a test: a unit is written as so many `A`s and a `B`.
use hushvault.Base.{
  ℕ, zero, suc, ◌≡◌, refl, ap, ◌∙◌, Bool, true, false, ◌||◌, Option, none, some, [], ◌∷◌, Text,
  codes, all, any, ◌==◌, ◌+◌, if◌then◌else◌, arith,
}
use hushvault.Pagination.{cons_stripped, strip_padding, encode_keyset_cursor, decode_keyset_cursor}
use hushvault.Pagination.Cursor.{is_url_char, IsBase64, decode_keyset_cursor-encode_keyset_cursor}

abbrev unary : ℕ → Text → Text
unary zero s = 66 ∷ s
unary (suc n) s = 65 ∷ unary n s

abbrev write_units : Text → Text
write_units [] = []
write_units (c ∷ s) = unary c (write_units s)

abbrev with_unit : ℕ → Option Text → Option Text
with_unit c none = none
with_unit c (some s) = some (c ∷ s)

abbrev read_units : (count : ℕ) → Text → Option Text
read_units count [] = some []
read_units count (c ∷ s) =
    let last = read_units 0 s in
    let more = read_units (suc count) s in if c == 66 then with_unit count last else more

abbrev is_clean : ℕ → Bool
is_clean c = c == 65 || c == 66

unary_clean : (n : ℕ) (s : Text) → all is_clean s ≡ true → all is_clean (unary n s) ≡ true
unary_clean zero s h = h
unary_clean (suc n) s h = unary_clean n s h

write_units_clean : (s : Text) → all is_clean (write_units s) ≡ true
write_units_clean [] = refl
write_units_clean (c ∷ s) = unary_clean c (write_units s) (write_units_clean s)

clean_plain : (s : Text) → all is_clean s ≡ true → any is_url_char s ≡ false
clean_plain [] h = refl
clean_plain (c ∷ s) h = ground (arith, clean_plain s, h)

cons_clean : (c : ℕ) (s : Text) → is_clean c ≡ true → cons_stripped c s ≡ c ∷ s
unfolding cons_stripped
cons_clean c [] h = ground (arith, h)
cons_clean c (d ∷ s) h = refl

strip_clean : (s : Text) → all is_clean s ≡ true → strip_padding s ≡ s
unfolding strip_padding
strip_clean [] h = refl
strip_clean (c ∷ s) h =
    let ih = strip_clean s (ground (arith, h)) in
    ap (cons_stripped c) ih ∙ cons_clean c s (ground (arith, h))

read_unary :
    (n count : ℕ) (s : Text) → read_units count (unary n s) ≡ with_unit (n + count) (read_units 0 s)
read_unary zero count s = ap (λ m. with_unit m (read_units 0 s)) (omega arith)
read_unary (suc n) count s =
    read_unary n (suc count) s ∙ ap (λ m. with_unit m (read_units 0 s)) (omega arith)

read_written : (s : Text) → read_units 0 (write_units s) ≡ some s
read_written [] = refl
read_written (c ∷ s) =
    read_unary c 0 (write_units s)
    ∙ (ap (λ m. with_unit m (read_units 0 (write_units s))) (omega arith)
        ∙ ap (with_unit c) (read_written s))

units-IsBase64 : IsBase64 write_units (read_units 0)
units-IsBase64 s h = (
  clean_plain (write_units s) (write_units_clean s),
  ap (read_units 0) (strip_clean (write_units s) (write_units_clean s)) ∙ read_written s,
)

decode_keyset_cursor-encode_keyset_cursor_example :
    decode_keyset_cursor write_units
      (read_units 0)
      (encode_keyset_cursor write_units (read_units 0) (codes "a|b") (codes "c"))
    ≡ some (codes "a|b", codes "c")
decode_keyset_cursor-encode_keyset_cursor_example =
    decode_keyset_cursor-encode_keyset_cursor write_units (read_units 0) (codes "a|b") (codes "c")
      units-IsBase64 refl (λ e. cc) refl
