-- ===== src/Options/Flags/Tests.antt =====
-- Flags at concrete arguments.
use ibcs_us.Prelude.{◌≡◌, refl, some, none, map}
use ibcs_us.Prelude.Text.{codes}
use ibcs_us.Options.Flags.{
  add_flags, lookup_flag, trace_flags_table, personality_flag_table, word_value, is_rejected,
  flag_named, simple_strtoul, digits, digit_value, from_end,
}
use ibcs_us.Options.Flags.Minus.{plus, lookup_flag-map-plus}

names_and_numbers :
    (lookup_flag 99 trace_flags_table (codes "abi_trace_api+abi_trace_socksys") ≡ some (some 0x21))
    × (lookup_flag 99 trace_flags_table (codes "0x3+8") ≡ some (some 0xb))
    × (lookup_flag 99 trace_flags_table (codes "~fffffff0") ≡ some (some 0xf))
    × (lookup_flag 99 trace_flags_table (codes "abi_trace") ≡ some none)
unfolding lookup_flag add_flags word_value is_rejected flag_named simple_strtoul digits digit_value
    from_end
names_and_numbers = (refl, refl, refl, refl)

lookup_flag-map-plus_example :
    lookup_flag 99 trace_flags_table (map plus (codes "3-1"))
    ≡ lookup_flag 99 trace_flags_table (codes "3-1")
lookup_flag-map-plus_example = lookup_flag-map-plus 99 trace_flags_table (codes "3-1")

-- The names of personalities; the one whose value is 0 is rejected.
personalities :
    (lookup_flag 99 personality_flag_table (codes "per_svr4+short_inode") ≡ some (some 0x5100001))
    × (lookup_flag 99 personality_flag_table (codes "per_linux") ≡ some none)
unfolding lookup_flag add_flags word_value is_rejected flag_named simple_strtoul digits digit_value
    from_end
personalities = (refl, refl)
