-- ===== src/X286/Memory.antt =====
-- x286/emu_memory.c: int_brkctl, emu_brk, and emu_stkgro. The words of the program's stack or its registers
-- that these read are arguments.
pub mod Limits
use ibcs_us.Prelude.{
  ℕ, ◌+◌, ◌-◌, ◌*◌, ◌/◌, ◌%◌, ◌^◌, ◌==◌, ◌!=◌, ◌&&◌, ◌||◌, Bool, true, false, not, leb, ltb,
  if◌then◌else◌,
}
use ibcs_us.Compat.Brk.{minus}
use ibcs_us.Compat.{einval, enomem}
use ibcs_us.X286.{Segment, Machine, is_less}

abbrev pub plus : ℕ → ℕ → ℕ
plus a b = (a + b) % 2 ^ 32

-- BR_ARGSEG, BR_NEWSEG, BR_IMPSEG, and the others.
pub data Command : Type 0 where
  br_argseg : Command
  br_newseg : Command
  br_impseg : Command
  br_other : Command

abbrev pub is_argseg : Command → Bool
is_argseg br_argseg = true
is_argseg br_newseg = false
is_argseg br_impseg = false
is_argseg br_other = false

abbrev pub is_newseg : Command → Bool
is_newseg br_argseg = false
is_newseg br_newseg = true
is_newseg br_impseg = false
is_newseg br_other = false

abbrev pub is_impseg : Command → Bool
is_impseg br_argseg = false
is_impseg br_newseg = false
is_impseg br_impseg = true
is_impseg br_other = false

-- What a call does: -1, or the registers ebx and eax.
pub data Reply : Type 0 where
  refused : Reply
  registers : ℕ → ℕ → Reply

abbrev pub is_negative : ℕ → Bool
is_negative x = leb (2 ^ 31) x

abbrev pub with_segment : Machine → ℕ → Segment → Machine
with_segment m seg s = record {
  ldt = λ i. if i == seg then s else m.ldt i;
  last_desc = m.last_desc;
  base_desc = m.base_desc;
  xerrno = m.xerrno;
}

abbrev pub with_last : Machine → ℕ → Machine
with_last m last = record {
  ldt = m.ldt;
  last_desc = last;
  base_desc = m.base_desc;
  xerrno = m.xerrno;
}

abbrev pub with_errno : Machine → ℕ → Machine
with_errno m e = record {
  ldt = m.ldt;
  last_desc = m.last_desc;
  base_desc = m.base_desc;
  xerrno = e;
}

abbrev pub with_limit : Segment → ℕ → Segment
with_limit s limit = record {
  base = s.base;
  limit = limit;
  type = s.type;
  dpl = s.dpl;
  rlimit = s.rlimit;
}

-- "ldt[seg].limit += incr"
unfoldable pub resize : Machine → ℕ → ℕ → Machine
resize m seg incr = with_segment m seg (with_limit (m.ldt seg) (plus (m.ldt seg).limit incr))

abbrev pub selector : ℕ → ℕ
selector seg = seg * 8 + 7

-- The segment behind the last one, empty; `address` is what malloc gives, 0 for NULL.
unfoldable pub new_segment : ℕ → Machine → ℕ → Reply × Machine
unfolding resize
new_segment address m incr =
    let seg = m.last_desc + 1 in
    let s : Segment = record {
      base = address;
      limit = 2 ^ 32 - 1;
      type = 0x12;
      dpl = 0x03;
      rlimit = 0xffff;
    } in
    let empty : Segment = record {
      base = 0;
      limit = (m.ldt seg).limit;
      type = (m.ldt seg).type;
      dpl = (m.ldt seg).dpl;
      rlimit = (m.ldt seg).rlimit;
    } in
    if ltb 255 seg
    then (refused, with_errno m enomem)
    else if address == 0
    then (refused, with_segment m seg empty)
    else (registers (selector seg) 0, resize (with_segment (with_last m seg) seg s) seg incr)

-- A segment that there is, which grows.
abbrev pub grow_segment : Machine → ℕ → ℕ → Reply × Machine
grow_segment m seg incr =
    let limit = (m.ldt seg).limit in
    (
      if limit == 0xffff
          then registers (selector (seg + 1)) 0
          else registers (selector seg) (plus limit 1),
      resize m seg incr,
    )

abbrev pub shrink_segment : Machine → ℕ → ℕ → Reply × Machine
shrink_segment m seg incr =
    (registers (selector seg) (plus (plus (m.ldt seg).limit incr) 1), resize m seg incr)

-- The early returns for the arguments.
abbrev pub is_bad : Machine → Command → ℕ → ℕ → Bool
is_bad m cmd incr seg =
    is_argseg cmd && (ltb seg m.base_desc || ltb m.last_desc seg)
    || (is_less 0x10000 incr
        || is_newseg cmd && is_negative incr
        || is_argseg cmd && is_negative incr && is_less (plus (m.ldt seg).limit 1) (minus 0 incr))

abbrev pub is_over : Machine → ℕ → ℕ → Bool
is_over m seg incr = is_less (m.ldt seg).rlimit (plus (m.ldt seg).limit incr)

-- The branch for an increment that is not negative.
unfoldable pub increase : Bool → ℕ → Machine → Command → ℕ → ℕ → Reply × Machine
unfolding new_segment
increase ldata address m cmd incr seg =
    if is_argseg cmd && ltb (m.ldt seg).rlimit (plus (m.ldt seg).limit incr)
    then (refused, m)
    else if is_newseg cmd || is_impseg cmd && is_over m seg incr
    then (if not ldata && m.last_desc == m.base_desc && is_impseg cmd
        then (refused, m)
        else new_segment address m incr)
    else grow_segment m seg incr

unfoldable pub int_brkctl : Bool → ℕ → Machine → Command → ℕ → ℕ → Reply × Machine
unfolding increase
int_brkctl ldata address m cmd incr seg =
    let m' = with_errno m einval in
    let seg' = if is_impseg cmd then m.last_desc else seg in
    if is_bad m cmd incr seg
    then (refused, m')
    else if is_negative incr
    then shrink_segment m' seg' incr
    else increase ldata address m' cmd incr seg'

-- `required` is what the program asks for: a word of its stack, or of ebx for the small model. The result is
-- whether it is granted.
unfoldable pub emu_stkgro : ℕ → ℕ → Machine → ℕ → Bool × Machine
emu_stkgro init_stk xe_stksize m required =
    let s = m.ldt m.base_desc in
    let s' : Segment = record {
      base = s.base;
      limit = s.limit;
      type = s.type;
      dpl = s.dpl;
      rlimit = (required + (2 ^ 16 - 1)) % 2 ^ 16;
    } in
    if not (is_less s.limit required) || leb init_stk required
    then (false, with_errno m enomem)
    else if leb required (minus init_stk xe_stksize)
    then (true, with_segment m m.base_desc s')
    else (true, m)

-- The offset and the selector that emu_brk reads; its result is whether it succeeds.
unfoldable pub emu_brk : Bool → ℕ → Machine → ℕ → ℕ → Bool × Machine
unfolding int_brkctl
emu_brk ldata address m ofset sel =
    let seg = sel / 8 in
    let (reply, m') =
      int_brkctl ldata address m br_argseg (minus (minus ofset (m.ldt seg).limit) 1) seg in
    if ltb 255 seg
    then (false, with_errno m einval)
    else (elim reply [ refused ↦ false | registers ebx eax ↦ true ], m')
