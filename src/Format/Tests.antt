-- ===== src/Format/Tests.antt =====
-- Formatted output at concrete formats.
use ibcs_us.Prelude.{ℕ, ◌-◌, ◌^◌, ◌≡◌, refl, false, some, none, List, [], ◌∷◌, length, arith}
use ibcs_us.Prelude.Text.{codes}
use ibcs_us.Options.Flags.{digits}
use ibcs_us.Format.{
  Arg, int, long_long, string, ibcs_vfmt, ibcs_vwritef, fmt_loop, read_directive, read_width,
  read_longs, convert, convert_char, number, to_base, digit, decimal, padding_bytes, up_to_percent,
}
use ibcs_us.Format.Expand.{expand, expand_text, expand_directive}
use ibcs_us.Format.Numbers.{digits-number_hex}
use ibcs_us.Format.Write.{ibcs_vfmt-expand, ibcs_vwritef-expand}

abbrev cmap : List ℕ
cmap = codes "a %-4s|%03d %lx"

abbrev values : List Arg
values = string (codes "bc") ∷ int (2 ^ 32 - 7) ∷ int 0x1f ∷ []

abbrev shown : List ℕ
shown = codes "a bc  |0-7 1f"

whole : expand (length cmap) cmap values ≡ some shown
unfolding expand expand_text expand_directive read_directive read_width read_longs convert
    convert_char number to_base digit decimal padding_bytes up_to_percent
whole = refl

ibcs_vfmt-expand_example :
    ibcs_vfmt false 6 cmap values ≡ some (record { out = some (codes "a bc "); count = 6 })
ibcs_vfmt-expand_example =
    ibcs_vfmt-expand 6 cmap values shown (omega arith) (omega arith) (omega arith) whole

ibcs_vwritef-expand_example : ibcs_vwritef cmap values ≡ some (some shown, 13)
ibcs_vwritef-expand_example =
    ibcs_vwritef-expand cmap values shown (omega arith) (omega arith) (omega arith) whole

digits-number_hex_example : digits 16 0 (number 16 (b'a' - 10) 0xbeef) ≡ (0xbeef, [])
digits-number_hex_example = digits-number_hex 0xbeef (omega arith)

-- The char of a `%c` is written, and then the `c` again.
char_twice : expand 5 (codes "<%c>") (int b'k' ∷ []) ≡ some (codes "<kc>")
unfolding expand expand_text expand_directive read_directive read_width read_longs convert
    convert_char number to_base digit decimal padding_bytes up_to_percent
char_twice = refl

-- Nothing to write, and 2 ^ 32 - 1 bytes of it.
empty_write : ibcs_vwritef [] [] ≡ some (none, 2 ^ 32 - 1)
unfolding ibcs_vwritef ibcs_vfmt fmt_loop
empty_write = refl

-- A 64-bit number in octal has 22 digits, two more than the buffer.
long_octal :
    (length (number 8 0 (2 ^ 64 - 1)) ≡ 22)
    × (expand 4 (codes "%llo") (long_long (2 ^ 64 - 1) ∷ []) ≡ none)
    × (expand 4 (codes "%llo") (long_long 8 ∷ []) ≡ some (codes "10"))
unfolding expand expand_text expand_directive read_directive read_width read_longs convert
    convert_char number to_base digit decimal padding_bytes up_to_percent
long_octal = (refl, refl, refl)

-- A width that an `int` does not hold.
wide : expand 13 (codes "%2147483648d!") (int 1 ∷ []) ≡ none
unfolding expand expand_text expand_directive read_directive read_width read_longs convert
    convert_char number to_base digit decimal padding_bytes up_to_percent
wide = refl
