-- ===== src/Pagination/Cursor.antt =====
-- A cursor is read back.
use hushvault.Base.{
  ℕ, ◌≡◌, ◌≢◌, refl, ap, ◌∙◌, Bool, true, false, ◌||◌, Option, none, some, [], ◌∷◌, ◌++◌, map, Text,
  ◌==◌, any, all, ltb, arith,
}
use hushvault.Pagination.{
  to_url_char, of_url_char, cons_stripped, strip_padding, cut_at, cut_last, to_cursor,
  encode_keyset_cursor, decoded_cursor, decode_keyset_cursor,
}

-- Whether a code unit is one that the URL form of base 64 uses in place of another.
abbrev pub is_url_char : ℕ → Bool
is_url_char c = c == b'-' || c == b'_'

of_url_char-to_url_char : (c : ℕ) → is_url_char c ≡ false → of_url_char (to_url_char c) ≡ c
of_url_char-to_url_char c h = ground (arith, h)

-- A unit that is mapped and stripped, or not, comes back.
map-cons_stripped :
    (c : ℕ) (s : Text)
    → is_url_char c ≡ false
    → map of_url_char (cons_stripped (to_url_char c) s) ≡ cons_stripped c (map of_url_char s)
unfolding cons_stripped
map-cons_stripped c [] h = ground (arith, h)
map-cons_stripped c (d ∷ s) h =
    ap (λ e. e ∷ of_url_char d ∷ map of_url_char s) (of_url_char-to_url_char c h)

strip-map :
    (s : Text)
    → any is_url_char s ≡ false
    → map of_url_char (strip_padding (map to_url_char s)) ≡ strip_padding s
unfolding strip_padding
strip-map [] h = refl
strip-map (c ∷ s) h =
    let ih = strip-map s (ground (arith, h)) in
    map-cons_stripped c (strip_padding (map to_url_char s)) (ground (arith, h))
    ∙ ap (cons_stripped c) ih

cut_last-none : (s : Text) → any (λ c. c == b'|') s ≡ false → cut_last s ≡ none
unfolding cut_last
cut_last-none [] h = refl
cut_last-none (c ∷ s) h =
    let ih = cut_last-none s (ground (arith, h)) in
    let other : (c == b'|') ≡ false = ground (arith, h) in
    ap (cut_at c s) ih ∙ (unfold cut_at in rw other refl)

cut_last-append :
    (front back : Text)
    → any (λ c. c == b'|') back ≡ false
    → cut_last (front ++ (b'|' ∷ back)) ≡ some (front, back)
unfolding cut_last
cut_last-append [] back h = ap (cut_at b'|' back) (cut_last-none back h) ∙ (unfold cut_at in refl)
cut_last-append (c ∷ front) back h =
    let ih = cut_last-append front back h in
    ap (cut_at c (front ++ (b'|' ∷ back))) ih ∙ (unfold cut_at in refl)

-- Whether a text is one that the platform's codec takes, which throws at other code units.
abbrev pub is_latin1 : Text → Bool
is_latin1 s = all (λ c. ltb c 256) s

-- The platform's codec: what it writes has neither `-` nor `_`, and is read back without its padding.
abbrev pub IsBase64 : (btoa : Text → Text) → (atob : Text → Option Text) → Type 0
IsBase64 btoa atob =
    (s : Text)
    → is_latin1 s ≡ true
    → (any is_url_char (btoa s) ≡ false) × (atob (strip_padding (btoa s)) ≡ some s)

-- A cursor that is written for a time that is not empty and an id without a separator, both of units
-- below 256, is read back as that time and that id.
pub decode_keyset_cursor-encode_keyset_cursor :
    (btoa : Text → Text) (atob : Text → Option Text) (created_at id : Text)
    → IsBase64 btoa atob
    → is_latin1 (created_at ++ (b'|' ∷ id)) ≡ true
    → created_at ≢ []
    → any (λ c. c == b'|') id ≡ false
    → decode_keyset_cursor btoa atob (encode_keyset_cursor btoa atob created_at id)
      ≡ some (created_at, id)
unfolding decode_keyset_cursor encode_keyset_cursor decoded_cursor to_cursor
decode_keyset_cursor-encode_keyset_cursor btoa atob [] id codec l h k = absurd (h refl)
decode_keyset_cursor-encode_keyset_cursor btoa atob (c ∷ created_at) id codec l h k =
    let pair = (c ∷ created_at) ++ (b'|' ∷ id) in
    let (plain, back) = codec pair l in
    ap (λ t. decoded_cursor btoa atob (atob t)) (strip-map (btoa pair) plain)
    ∙ (ap (decoded_cursor btoa atob) back ∙ ap to_cursor (cut_last-append (c ∷ created_at) id k))
