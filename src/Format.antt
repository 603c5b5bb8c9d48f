-- ===== src/Format.antt =====
-- ibcs/ibcs-lib.c: the formatted output, ibcs_vfmt and ibcs_vwritef. The format and the strings among the
-- arguments are the lists of their bytes, and `va_list` is the list of the arguments that are left. The
-- answer `none` stands for what C leaves undefined: an argument that is not there or is of another kind,
-- the reading past the end of the format, a number of more bytes than `buf` has, and a width or the length of a
-- string that is more than an `int` holds.
pub mod Numbers
pub mod Field
pub mod Expand
pub mod Fuel
pub mod Write
mod Tests
use ibcs_us.Prelude.{
  ℕ, zero, suc, ◌+◌, ◌-◌, ◌*◌, ◌/◌, ◌%◌, ◌^◌, Bool, true, false, ◌&&◌, ◌||◌, Option, none, some,
  List, [], ◌∷◌, ◌++◌, ◌==◌, ◌!=◌, ltb, leb, if◌then◌else◌, length, take, drop,
}
use ibcs_us.Prelude.Take.{fitted}
use ibcs_us.CString.{◌>>=◌}
use ibcs_us.Filemap.Normalise.{byte}

-- What `va_arg` is asked for: an `unsigned` or an `int`, an `unsigned long long`, a `const char*`.
pub data Arg : Type 0 where
  int : ℕ → Arg
  long_long : ℕ → Arg
  string : List ℕ → Arg

-- The digits of a number, with `*--bb = ...` in front of what is there. The number itself is fuel. Whether they
-- fit in `buf` is tested where the number is converted.
pub digit : ℕ → ℕ → ℕ
digit a h = if ltb h 10 then b'0' + h else a + h

pub to_base : ℕ → ℕ → ℕ → ℕ → List ℕ → List ℕ
unfolding digit
to_base zero base a n bb = bb
to_base (suc f) base a n bb =
    let bb' = digit a (n % base) ∷ bb in
    let rest = to_base f base a (n / base) bb' in if n / base != 0 then rest else bb'

pub number : ℕ → ℕ → ℕ → List ℕ
number base a n = to_base (suc n) base a n []

-- The case of 'd' and 'u'.
pub decimal : Bool → ℕ → List ℕ
decimal is_signed n =
    if is_signed && leb (2 ^ 31) n then b'-' ∷ number 10 0 (2 ^ 32 - n) else number 10 0 n

abbrev pub is_digit : ℕ → Bool
is_digit c = leb b'0' c && leb c b'9'

-- The loops that read a width. Whether an `int` holds it is tested in the conversion.
pub read_width : ℕ → List ℕ → ℕ × List ℕ
read_width width [] = (width, [])
read_width width (c ∷ f) =
    if is_digit c then read_width (width * 10 + (c - b'0')) f else (width, c ∷ f)

-- "Process the 'l's": how many there are, two at most.
pub read_longs : ℕ → List ℕ → ℕ × List ℕ
read_longs zero f = (0, f)
read_longs (suc n) [] = (0, [])
read_longs (suc n) (c ∷ f) =
    let (longs, rest) = read_longs n f in if c == b'l' then (longs + 1, rest) else (0, c ∷ f)

-- What stands between a `%` and the format char; `rest` begins with that.
pub record Directive : Type 0 where
  pub left_justify : Bool
  pub pad_char : ℕ
  pub min_width : ℕ
  pub max_width : ℕ
  pub longs : ℕ
  pub rest : List ℕ

pub read_directive : List ℕ → Directive
unfolding read_width read_longs
read_directive f =
    let left = byte f 0 == b'-' in
    let f1 = if left then drop 1 f else f in
    let (min, f2) = read_width 0 f1 in
    let dot = byte f2 0 == b'.' in
    let (max, f3) = read_width 0 (drop 1 f2) in
    let f4 = if dot then f3 else f2 in
    let (l, f5) = read_longs 2 f4 in
    record {
      left_justify = left;
      pad_char = if byte f1 0 == b'0' then b'0' else b' ';
      min_width = min;
      max_width = if dot then max else 999999999;
      longs = l;
      rest = f5;
    }

-- What is to be written for a directive: the bytes, the arguments that are left, the format behind it.
pub record Converted : Type 0 where
  pub bytes : List ℕ
  pub args : List Arg
  pub fmt : List ℕ

-- `sizeof(buf)`
abbrev pub buf_size : ℕ
buf_size = 20

-- The bytes of a number, which are written to `buf` from its end on: undefined if they are more than it has.
abbrev pub in_buf : List ℕ → List ℕ → List Arg → Option Converted
in_buf bytes fmt args =
    if leb (length bytes) buf_size
    then some (record { bytes = bytes; args = args; fmt = fmt })
    else none

abbrev pub convert_int : (ℕ → List ℕ) → List ℕ → List Arg → Option Converted
convert_int print fmt (int n ∷ args) = in_buf (print (n % 2 ^ 32)) fmt args
convert_int print fmt args = none

abbrev pub convert_long : (ℕ → List ℕ) → List ℕ → List Arg → Option Converted
convert_long print fmt (long_long n ∷ args) = in_buf (print (n % 2 ^ 64)) fmt args
convert_long print fmt args = none

abbrev pub convert_string : List ℕ → List Arg → Option Converted
convert_string fmt (string s ∷ args) =
    if ltb (length s) (2 ^ 31) then some (record { bytes = s; args = args; fmt = fmt }) else none
convert_string fmt args = none

-- The `switch`, at the format char `c`: `f_start` begins with the `%`, and `f` is behind the char.
pub convert_char : ℕ → Directive → List ℕ → List ℕ → List Arg → Option Converted
unfolding number decimal
convert_char c d f f_start args =
    let wide = d.longs == 2 in
    let a = if c == b'x' then b'a' - 10 else b'A' - 10 in
    if c == b'c' && d.longs == 0
    then convert_int (λ n. (n % 256) ∷ []) (c ∷ f) args
    else if c == b'd' && d.longs != 2
    then convert_int (decimal true) f args
    else if c == b'u' && d.longs != 2
    then convert_int (decimal false) f args
    else if c == b'o' && wide
    then convert_long (number 8 0) f args
    else if c == b'o'
    then convert_int (number 8 0) f args
    else if c == b's' && d.longs == 0
    then convert_string f args
    else if (c == b'x' || c == b'X') && wide
    then convert_long (number 16 a) f args
    else if c == b'x' || c == b'X' || (c == b'p' && d.longs == 0)
    then convert_int (number 16 a) f args
    else some (record { bytes = take (length f_start - length f) f_start; args = args; fmt = f })

-- An `int` holds a width, and `width * 10 + c` before the '0' is taken from it, which is greatest for the whole of it.
abbrev pub is_int_width : ℕ → Bool
is_int_width width = ltb (width + b'0') (2 ^ 31)

-- The case of '\0', and past it if an 'l' stands before it; else that of the format char.
pub convert : Directive → List ℕ → List Arg → Option Converted
unfolding convert_char
convert d f_start args =
    let converted : Option Converted = elim d.rest [
      | [] ↦ if d.longs == 0 then some (record { bytes = f_start; args = args; fmt = [] }) else none
      | c ∷ f ↦ convert_char c d f f_start args
    ] in
    if is_int_width d.min_width && is_int_width d.max_width then converted else none

-- `memset(out, pad_char, padding)`
pub padding_bytes : ℕ → ℕ → List ℕ
padding_bytes zero c = []
padding_bytes (suc n) c = c ∷ padding_bytes n c

-- "Copy the formatted result to the output, padding as appropriate."
pub put_field : Directive → List ℕ → ℕ → List ℕ
unfolding padding_bytes
put_field d b size =
    let formatted_size = fitted (length b) d.max_width in
    let padding = d.min_width - formatted_size in
    if d.left_justify
    then (let n = fitted formatted_size size in
        take n b ++ padding_bytes (fitted padding (size - n)) d.pad_char)
    else (let p = fitted padding size in
        padding_bytes p d.pad_char ++ take (fitted formatted_size (size - p)) b)

-- Up to the next `%`, and from there on.
pub up_to_percent : List ℕ → List ℕ × List ℕ
up_to_percent [] = ([], [])
up_to_percent (c ∷ fmt) =
    let (text, f) = up_to_percent fmt in if c == b'%' then ([], c ∷ fmt) else (c ∷ text, f)

-- What was written, in front of what is written then, with the size that is left.
abbrev pub written : List ℕ → Option (List ℕ × ℕ) → Option (List ℕ × ℕ)
written out none = none
written out (some (rest, size)) = some (out ++ rest, size)

-- A round of the loop from the `%` on; `rest` is the rounds that follow.
pub put_directive :
    (ℕ → List ℕ → List Arg → Option (List ℕ × ℕ)) → ℕ → List ℕ → List Arg → Option (List ℕ × ℕ)
unfolding read_directive convert put_field
put_directive rest size f_start args = do
  let d = read_directive (drop 1 f_start)
  c ← convert d f_start args
  let out = put_field d c.bytes size
  written out (rest (size - length out) c.fmt c.args)

-- A round of the loop, for the text up to the next `%` and what follows it.
pub put_text :
    (ℕ → List ℕ → List Arg → Option (List ℕ × ℕ))
    → ℕ
    → List ℕ
    → List ℕ
    → List Arg
    → Option (List ℕ × ℕ)
unfolding put_directive
put_text rest size text f_start args =
    let out = take (fitted (length text) size) text in
    let size' = size - length out in
    let more = put_directive rest size' f_start args in
    if size == 0
    then some ([], size)
    else written out (if size' == 0 || length f_start == 0 then some ([], size') else more)

-- The loop, with the length of the format as fuel: the bytes written, and the size that is left.
pub fmt_loop : ℕ → ℕ → List ℕ → List Arg → Option (List ℕ × ℕ)
unfolding up_to_percent put_text
fmt_loop f size [] args = some ([], size)
fmt_loop zero size (c ∷ fmt) args = if size == 0 then some ([], size) else none
fmt_loop (suc f) size (c ∷ fmt) args =
    let (text, f_start) = up_to_percent (c ∷ fmt) in put_text (fmt_loop f) size text f_start args

-- What a call has done: the bytes before the NUL, if there was anything written, and the value returned.
pub record Formatted : Type 0 where
  pub out : Option (List ℕ)
  pub count : ℕ

-- `is_null` is that `out` is the null pointer.
pub ibcs_vfmt : Bool → ℕ → List ℕ → List Arg → Option Formatted
unfolding fmt_loop
ibcs_vfmt is_null size fmt args =
    let osize = if is_null && size == 0 then 0x7fffffff else size in
    if leb osize 1 then some (record { out = none; count = 0 }) else (do
      (bytes, left) ← fmt_loop (length fmt) (osize - 1) fmt args
      some (record { out = if is_null then none else some bytes; count = osize - left }))

-- What `ibcs_vwritef` gives to `write`: the buffer, and the length.
pub ibcs_vwritef : List ℕ → List Arg → Option (Option (List ℕ) × ℕ)
unfolding ibcs_vfmt
ibcs_vwritef fmt args = do
  sized ← ibcs_vfmt true 0 fmt args
  printed ← ibcs_vfmt false sized.count fmt args
  some (printed.out, (printed.count + 2 ^ 32 - 1) % 2 ^ 32)
