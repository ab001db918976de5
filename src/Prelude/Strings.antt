-- ===== src/Prelude/Strings.antt =====
-- Go's `strings` and `bytes` over texts that are lists of bytes, as far as the program uses them.
use Prim.Native.Char.{code}
use Prim.Native.String.{String}
use Prim.Native.Nat.{ℕ, zero, suc}
use mathlib.Core.Path.{◌≡◌, refl, sym, ap, ◌∙◌}
use mathlib.Core.Bool.{Bool, true, false, ◌&&◌, ◌||◌}
use mathlib.Core.List.{[], ◌∷◌, ◌++◌, reverse, reverse-append, reverse-reverse}
use native.Mathlib.Omega.{arith}
use qoder_cpa.Prelude.Tests.{leb, nat_beq, Text, if◌then◌else◌}
use qoder_cpa.Prelude.Lists.{length, drop}

-- The bytes of an ASCII literal.
abbrev pub codes : String → Text
codes String.[] = []
codes (String.◌∷◌ c s) = code c ∷ codes s

unfoldable pub is_ascii_space : ℕ → Bool
is_ascii_space c = (leb 9 c && leb c 13) || nat_beq c 32

-- U+0085 and U+00A0 in UTF-8.
unfoldable pub is_space2 : ℕ → ℕ → Bool
is_space2 a b = nat_beq a 0xc2 && (nat_beq b 0x85 || nat_beq b 0xa0)

-- U+1680, U+2000 to U+200A, U+2028, U+2029, U+202F, U+205F and U+3000 in UTF-8.
unfoldable pub is_space3 : ℕ → ℕ → ℕ → Bool
is_space3 a b c =
    (nat_beq a 0xe1 && nat_beq b 0x9a && nat_beq c 0x80)
    || (nat_beq a 0xe2
        && nat_beq b 0x80
        && ((leb 0x80 c && leb c 0x8a) || nat_beq c 0xa8 || nat_beq c 0xa9 || nat_beq c 0xaf))
    || (nat_beq a 0xe2 && nat_beq b 0x81 && nat_beq c 0x9f)
    || (nat_beq a 0xe3 && nat_beq b 0x80 && nat_beq c 0x80)

-- How many bytes the white space at the start of a text takes, 0 if there is none.
unfoldable pub space_width : Text → ℕ
unfolding is_ascii_space is_space2 is_space3
space_width [] = 0
space_width (a ∷ []) = if is_ascii_space a then 1 else 0
space_width (a ∷ b ∷ []) = if is_ascii_space a then 1 else if is_space2 a b then 2 else 0
space_width (a ∷ b ∷ c ∷ s) =
    if is_ascii_space a then 1 else if is_space2 a b then 2 else if is_space3 a b c then 3 else 0

-- The same at the end of a text, which is given from its last byte on.
unfoldable pub space_width_rev : Text → ℕ
unfolding is_ascii_space is_space2 is_space3
space_width_rev [] = 0
space_width_rev (a ∷ []) = if is_ascii_space a then 1 else 0
space_width_rev (b ∷ a ∷ []) = if is_ascii_space b then 1 else if is_space2 a b then 2 else 0
space_width_rev (c ∷ b ∷ a ∷ s) =
    if is_ascii_space c then 1 else if is_space2 b c then 2 else if is_space3 a b c then 3 else 0

-- Drops what `width` calls white space; the first argument counts the bytes of it still to drop.
unfoldable pub trim_from : (Text → ℕ) → ℕ → Text → Text
trim_from width n [] = []
trim_from width (suc n) (c ∷ s) = trim_from width n s
trim_from width zero (c ∷ s) = elim (width (c ∷ s)) [ zero ↦ c ∷ s | suc n ↦ trim_from width n s ]

-- strings.TrimSpace.
unfoldable pub trim_space : Text → Text
unfolding trim_from space_width space_width_rev
trim_space s = reverse (trim_from space_width_rev 0 (reverse (trim_from space_width 0 s)))

-- bytes.TrimLeft(s, " \t\r\n").
unfoldable pub trim_left_blank : Text → Text
trim_left_blank [] = []
trim_left_blank (c ∷ s) =
    if nat_beq c 32 || nat_beq c 9 || nat_beq c 13 || nat_beq c 10 then trim_left_blank s else c ∷ s

-- strings.HasPrefix(s, prefix).
abbrev pub has_prefix : Text → Text → Bool
has_prefix s [] = true
has_prefix [] (p ∷ prefix) = false
has_prefix (c ∷ s) (p ∷ prefix) = nat_beq c p && has_prefix s prefix

-- strings.TrimPrefix(s, prefix).
abbrev pub trim_prefix : Text → Text → Text
trim_prefix s prefix = if has_prefix s prefix then drop (length prefix) s else s

-- strings.Contains(s, sub).
unfoldable pub contains : Text → Text → Bool
contains [] sub = has_prefix [] sub
contains (c ∷ s) sub = has_prefix (c ∷ s) sub || contains s sub

-- What starts with the byte of `{` is not trimmed on the left, and what ends with `}` is not on the
-- right.
trim_from-brace : (s : Text) → trim_from space_width 0 (b'{' ∷ s) ≡ b'{' ∷ s
unfolding trim_from space_width is_ascii_space is_space2 is_space3
trim_from-brace [] = refl
trim_from-brace (b ∷ []) = refl
trim_from-brace (b ∷ c ∷ s) = refl

trim_from_rev-brace : (s : Text) → trim_from space_width_rev 0 (b'}' ∷ s) ≡ b'}' ∷ s
unfolding trim_from space_width_rev is_ascii_space is_space2 is_space3
trim_from_rev-brace [] = refl
trim_from_rev-brace (b ∷ []) = ground arith
trim_from_rev-brace (b ∷ a ∷ s) = ground arith

trim_from-blank : (s : Text) → trim_from space_width 0 (32 ∷ s) ≡ trim_from space_width 0 s
unfolding trim_from space_width is_ascii_space
trim_from-blank [] = refl
trim_from-blank (b ∷ []) = refl
trim_from-blank (b ∷ c ∷ s) = refl

trim_from_rev-newline :
    (s : Text) → trim_from space_width_rev 0 (10 ∷ s) ≡ trim_from space_width_rev 0 s
unfolding trim_from space_width_rev is_ascii_space
trim_from_rev-newline [] = refl
trim_from_rev-newline (b ∷ []) = refl
trim_from_rev-newline (b ∷ c ∷ s) = refl

trim_end-brace :
    (s : Text) → reverse (trim_from space_width_rev 0 (reverse (s ++ b'}' ∷ []))) ≡ s ++ b'}' ∷ []
trim_end-brace s =
    ap (λ (r : Text). reverse (trim_from space_width_rev 0 r)) (reverse-append s (b'}' ∷ []))
    ∙ ap reverse (trim_from_rev-brace (reverse s))
    ∙ ap reverse (sym (reverse-append s (b'}' ∷ [])))
    ∙ reverse-reverse (s ++ b'}' ∷ [])

pub trim_space-object :
    (s : Text) → trim_space (32 ∷ b'{' ∷ (s ++ b'}' ∷ [])) ≡ b'{' ∷ (s ++ b'}' ∷ [])
unfolding trim_space trim_from space_width is_ascii_space is_space2 is_space3
trim_space-object s =
    ap (λ (r : Text). reverse (trim_from space_width_rev 0 (reverse r)))
      (trim_from-blank (b'{' ∷ (s ++ b'}' ∷ [])))
    ∙ ap (λ (r : Text). reverse (trim_from space_width_rev 0 (reverse r)))
        (trim_from-brace (s ++ b'}' ∷ []))
    ∙ trim_end-brace (b'{' ∷ s)

-- A frame loses its line ends.
pub trim_space-frame :
    (s : Text)
    → trim_space (codes "data: {" ++ (s ++ b'}' ∷ 10 ∷ 10 ∷ []))
      ≡ codes "data: {" ++ (s ++ b'}' ∷ [])
unfolding trim_space trim_from space_width space_width_rev is_ascii_space is_space2 is_space3
trim_space-frame s =
    ap (λ (r : Text). reverse (trim_from space_width_rev 0 r))
      (reverse-append (codes "data: {" ++ s) (b'}' ∷ 10 ∷ 10 ∷ []))
    ∙ ap reverse (trim_from_rev-newline (10 ∷ b'}' ∷ reverse (codes "data: {" ++ s)))
    ∙ ap reverse (trim_from_rev-newline (b'}' ∷ reverse (codes "data: {" ++ s)))
    ∙ ap reverse (trim_from_rev-brace (reverse (codes "data: {" ++ s)))
    ∙ ap reverse (sym (reverse-append (codes "data: {" ++ s) (b'}' ∷ [])))
    ∙ reverse-reverse ((codes "data: {" ++ s) ++ b'}' ∷ [])

trimmed : trim_space (codes "\t data: x \r\n") ≡ codes "data: x"
unfolding trim_space
trimmed = refl

trimmed_wide : trim_space (0xe3 ∷ 0x80 ∷ 0x80 ∷ 65 ∷ 0xc2 ∷ 0xa0 ∷ []) ≡ 65 ∷ []
unfolding trim_space
trimmed_wide = refl
