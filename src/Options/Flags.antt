-- ===== src/Options/Flags.antt =====
-- `lookup_flag` of ibcs/main.c and `simple_strtoul` of ibcs/linux26-compat.c: sets of flags by name or
-- number. An `unsigned long` has 32 bits.
mod Minus
mod Tests
use ibcs_us.Prelude.{
  ℕ, zero, suc, ◌+◌, ◌-◌, ◌*◌, ◌%◌, ◌^◌, Bool, true, false, ◌&&◌, ◌||◌, Option, none, some, List,
  [], ◌∷◌, ◌==◌, ◌!=◌, leb, if◌then◌else◌, length, take, drop, bit_or, bit_xor,
}
use ibcs_us.Prelude.Text.{codes}
use ibcs_us.Filemap.Normalise.{byte}
use ibcs_us.Options.{same_bytes}

-- The value of a digit, whatever the base.
unfoldable pub digit_value : ℕ → Option ℕ
digit_value c =
    let digit = bit_or c 0x20 in
    if leb b'0' digit && leb digit b'9'
    then some (digit - b'0')
    else if leb b'a' digit && leb digit b'f'
    then some (digit - b'a' + 10)
    else none

-- The loop of `simple_strtoul`: the number, and what stands behind it.
unfoldable pub digits : ℕ → ℕ → List ℕ → ℕ × List ℕ
digits base result [] = (result, [])
digits base result (c ∷ cp) = elim (digit_value c) [
  | none ↦ (result, c ∷ cp)
  | some d ↦ digits base ((result * base + d) % 2 ^ 32) cp
]

pub simple_strtoul : List ℕ → ℕ → ℕ × List ℕ
simple_strtoul cp base =
    let b = if base == 0 then 10 else base in
    if byte cp 0 == b'0' && bit_or (byte cp 1) 0x20 == b'x'
    then digits 16 0 (drop 2 cp)
    else if byte cp 0 == b'0' && bit_or (byte cp 1) 0x20 == b'o'
    then digits 8 0 (drop 2 cp)
    else digits b 0 cp

-- `struct flag_lookup`
pub record Flag : Type 0 where
  pub flag_name : List ℕ
  pub flag_value : ℕ

abbrev pub is_separator : ℕ → Bool
is_separator c = c == b'+' || c == b'-'

-- From `end` on: the first separator, or nothing.
pub from_end : List ℕ → List ℕ
from_end [] = []
from_end (c ∷ arg) = if is_separator c then c ∷ arg else from_end arg

-- The search of the table: 0 if there is no such name.
pub flag_named : List Flag → List ℕ → ℕ
flag_named [] word = 0
flag_named (e ∷ table) word =
    let others = flag_named table word in
    if same_bytes e.flag_name word then e.flag_value else others

-- The value of one word, without its `~`: 0 if it is neither a number nor a name.
pub word_value : List Flag → List ℕ → ℕ
word_value table arg =
    let end = from_end arg in
    let (val, s) = simple_strtoul arg 16 in
    if length s != length end then flag_named table (take (length arg - length end) arg) else val

-- Whether the word is rejected: it is neither a number nor a name that has a value other than 0.
pub is_rejected : List Flag → List ℕ → Bool
is_rejected table arg =
    let end = from_end arg in
    length (simple_strtoul arg 16).1 != length end
    && flag_named table (take (length arg - length end) arg) == 0

-- The loop of `lookup_flag`; `none` is that the fuel ran out.
pub add_flags : ℕ → List Flag → List ℕ → ℕ → Option ℕ
add_flags f table [] result = some result
add_flags zero table (c ∷ arg) result = none
add_flags (suc f) table (c ∷ arg) result =
    let not = if c == b'~' then 0xffffffff else 0 in
    let word = if c == b'~' then arg else c ∷ arg in
    let rest =
      add_flags f table (drop 1 (from_end word))
        (bit_or result (bit_xor (word_value table word) not)) in
    if is_rejected table word then some 0 else rest

-- The flags of an argument; `none` inside is that `usage` has ended the process.
pub lookup_flag : ℕ → List Flag → List ℕ → Option (Option ℕ)
lookup_flag f table arg = elim (add_flags f table arg 0) [
  | none ↦ none
  | some result ↦ some (if result == 0 then none else some result)
]

abbrev flag : List ℕ → ℕ → Flag
flag name value = record { flag_name = name; flag_value = value }

abbrev pub trace_flags_table : List Flag
trace_flags_table =
    flag (codes "abi_trace_api") 0x1
    ∷ flag (codes "abi_trace_ioctl") 0x2
    ∷ flag (codes "abi_trace_ioctl_f") 0x4
    ∷ flag (codes "abi_trace_signal") 0x8
    ∷ flag (codes "abi_trace_signal_f") 0x10
    ∷ flag (codes "abi_trace_socksys") 0x20
    ∷ flag (codes "abi_trace_streams") 0x40
    ∷ flag (codes "abi_trace_unimpl") 0x80
    ∷ []

abbrev pub personality_flag_table : List Flag
personality_flag_table =
    flag (codes "abi_y2k_bug") 0x20000
    ∷ flag (codes "addr_no_randomize") 0x40000
    ∷ flag (codes "fdpic_funcptrs") 0x80000
    ∷ flag (codes "mmap_page_zero") 0x100000
    ∷ flag (codes "addr_compat_layout") 0x200000
    ∷ flag (codes "read_implies_exec") 0x400000
    ∷ flag (codes "addr_limit_32bit") 0x800000
    ∷ flag (codes "short_inode") 0x1000000
    ∷ flag (codes "whole_seconds") 0x2000000
    ∷ flag (codes "sticky_timeouts") 0x4000000
    ∷ flag (codes "addr_limit_3gb") 0x8000000
    ∷ flag (codes "per_linux") 0x0
    ∷ flag (codes "per_linux_32bit") 0x800000
    ∷ flag (codes "per_linux_fdpic") 0x80000
    ∷ flag (codes "per_svr4") 0x4100001
    ∷ flag (codes "per_svr3") 0x5000002
    ∷ flag (codes "per_scosvr3") 0x7000003
    ∷ flag (codes "per_osr5") 0x6000003
    ∷ flag (codes "per_wysev386") 0x5000004
    ∷ flag (codes "per_iscr4") 0x4000005
    ∷ flag (codes "per_bsd") 0x6
    ∷ flag (codes "per_sunos") 0x4000006
    ∷ flag (codes "per_xenix") 0x5000007
    ∷ flag (codes "per_linux32") 0x8
    ∷ flag (codes "per_linux32_3gb") 0x8000008
    ∷ flag (codes "per_irix32") 0x4000009
    ∷ flag (codes "per_irixn32") 0x400000a
    ∷ flag (codes "per_irix64") 0x400000b
    ∷ flag (codes "per_riscos") 0xc
    ∷ flag (codes "per_solaris") 0x400000d
    ∷ flag (codes "per_uw7") 0x410000e
    ∷ flag (codes "per_osf4") 0xf
    ∷ flag (codes "per_hpux") 0x10
    ∷ []
