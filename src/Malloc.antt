-- ===== src/Malloc.antt =====
-- ibcs/ibcs-lib.c: ibcs_malloc and ibcs_free. An address is in bytes, and memory has a word at every address of a
-- header, a multiple of 4: the address of the next header, and 1 more if the block is busy. What `brk`
-- answers is a parameter: `brk_now` to 0, `brk_to` to an address. The loops take fuel. The semaphore
-- is left out: a call is one step.
pub mod Chain
pub mod Coalesce
pub mod Taken
pub mod Search
pub mod Extend
pub mod Correct
pub mod Reuse
pub mod Gap
mod Tests
use ibcs_us.Prelude.{
  ℕ, zero, suc, ◌+◌, ◌-◌, ◌*◌, ◌/◌, ◌%◌, ◌^◌, ◌==◌, ◌!=◌, Bool, true, false, Option, none, some,
  leb, ltb, if◌then◌else◌,
}
use ibcs_us.Compat.Brk.{is_err, minus}

abbrev pub clear_busy : ℕ → ℕ
clear_busy w = w - w % 2

abbrev pub set_busy : ℕ → ℕ
set_busy w = w - w % 2 + 1

abbrev pub is_busy : ℕ → Bool
is_busy w = w % 2 != 0

abbrev pub write : (ℕ → ℕ) → ℕ → ℕ → ℕ → ℕ
write word p v q = if q == p then v else word q

-- The headers, and the pointers ibcs_malloc_first, ibcs_malloc_last and ibcs_malloc_p.
pub record Arena : Type 0 where
  pub word : ℕ → ℕ
  pub first : ℕ
  pub last : ℕ
  pub rover : ℕ

abbrev pub with_word : Arena → (ℕ → ℕ) → Arena
with_word m word = record { word = word; first = m.first; last = m.last; rover = m.rover }

-- "Coalesce free blocks."
pub coalesce : ℕ → (ℕ → ℕ) → ℕ → Option (ℕ → ℕ)
coalesce zero word p = none
coalesce (suc f) word p =
    let more = coalesce f (write word p (word (word p))) p in
    if is_busy (word (word p)) then some word else more

-- `n - p` of two headers, as a `size_t`
abbrev pub apart : ℕ → ℕ → ℕ
apart p n = if leb p n then (n - p) / 4 else 2 ^ 32 - (p - n) / 4

-- "If it's too big split it."
abbrev pub split : (ℕ → ℕ) → ℕ → ℕ → ℕ → ℕ
split word p wanted =
    if ltb wanted (apart p (word p))
    then write (write word (p + 4 * wanted) (word p)) p (p + 4 * wanted)
    else word

-- The block becomes busy, and the search goes on behind it next time.
pub take_block : Arena → (ℕ → ℕ) → ℕ → ℕ → Arena
take_block m word p wanted =
    let word' = split word p wanted in
    record {
      word = write word' p (set_busy (word' p));
      first = m.first;
      last = m.last;
      rover = word' p;
    }

-- What the search gives: the block's header, or that there is none.
pub data Found : Type 0 where
  block : ℕ → Arena → Found
  no_block : Arena → Found

-- The round at a free block, with its memory once coalesced; `more` is the rounds that follow.
pub try_block : (Arena → Option Found) → Arena → ℕ → ℕ → Option (ℕ → ℕ) → Option Found
unfolding take_block
try_block more m p wanted none = none
try_block more m p wanted (some word) =
    let rest = more (with_word m word) in
    if leb wanted (apart p (word p)) then some (block p (take_block m word p wanted)) else rest

-- To the next header, unless that is where the search began.
abbrev pub go_on : (Arena → ℕ → Option Found) → ℕ → Arena → Option Found
go_on more p m =
    let rest = more m (clear_busy (m.word p)) in
    if clear_busy (m.word p) == m.rover then some (no_block m) else rest

-- With fuel for the merging, `g`, and for the rounds.
pub search : ℕ → ℕ → Arena → ℕ → ℕ → Option Found
unfolding coalesce try_block
search g zero m wanted p = none
search g (suc f) m wanted p =
    let next = go_on (λ m' p'. search g f m' wanted p') p in
    let at_busy = next m in
    let at_free = try_block next m p wanted (coalesce g m.word p) in
    if is_busy (m.word p) then at_busy else at_free

-- How a call ends: with an error message and the end of the process, or with a header.
pub data Outcome : Type 0 where
  fatal : Outcome
  allocated : ℕ → Arena → Outcome

-- "Add this block to the circular linked list of blocks."
pub add_block : Arena → ℕ → ℕ → Arena
add_block m p n = record {
  word = write (write (write m.word m.last (set_busy n)) p (set_busy n)) n (set_busy m.first);
  first = m.first;
  last = n;
  rover = m.rover;
}

-- "We didn't find a block. Allocate a new one."
pub extend : ℕ → (ℕ → ℕ) → Arena → ℕ → Outcome
unfolding add_block
extend brk_now brk_to m wanted =
    let p = if m.last + 4 == brk_now then m.last else brk_now in
    let end = brk_to (p + 4 * (wanted + 1)) in
    let n = minus end 4 in
    if is_err brk_now
    then fatal
    else if is_err end
    then fatal
    else if ltb (apart p n) wanted
    then fatal
    else allocated p (add_block m p n)

-- The number of headers for a size in bytes, with that in front of the block.
abbrev pub headers : ℕ → ℕ
headers wanted = (wanted + 3) % 2 ^ 32 / 4 + 1

pub after_search : ℕ → (ℕ → ℕ) → ℕ → Option Found → Option Outcome
unfolding extend
after_search brk_now brk_to wanted none = none
after_search brk_now brk_to wanted (some (block p m)) = some (allocated p m)
after_search brk_now brk_to wanted (some (no_block m)) = some (extend brk_now brk_to m wanted)

-- The header of the block; the pointer returned is 4 more.
pub ibcs_malloc : ℕ → ℕ → (ℕ → ℕ) → Arena → ℕ → Option Outcome
unfolding search after_search
ibcs_malloc f brk_now brk_to m wanted =
    let searched =
      after_search brk_now brk_to (headers wanted) (search f f m (headers wanted) m.rover) in
    if m.rover == 0
    then some (
        extend brk_now brk_to
          (record { word = m.word; first = brk_now; last = brk_now; rover = brk_now })
          (headers wanted))
    else searched

-- By the block's header.
pub ibcs_free : Arena → ℕ → Arena
ibcs_free m p = record {
  word = write m.word p (clear_busy (m.word p));
  first = m.first;
  last = m.last;
  rover = p;
}
