-- ===== src/X286/Memory/Limits.antt =====
-- The limits of the segments: no segment grows past its bound.
use ibcs_us.Prelude.{
  ℕ, ◌+◌, ◌-◌, ◌%◌, ◌^◌, ◌≤◌, ◌<◌, ◌≡◌, ◌≢◌, ◌⊎◌, inl, inr, ◌==◌, ◌&&◌, Bool, true, false, not, ltb,
  Bool-cases, arith,
}
use ibcs_us.Compat.Brk.{minus}
use ibcs_us.Compat.{einval}
use ibcs_us.X286.{Segment, Machine, is_less}
use ibcs_us.X286.Memory.{
  Command, br_argseg, br_newseg, is_negative, with_segment, with_last, with_errno, with_limit, plus,
  resize, new_segment, is_bad, increase, int_brkctl,
}

-- The size of a segment is that of its bound at most; a bound is below 2 ^ 16.
pub record Fits (s : Segment) : Type 0 where
  pub word : s.limit < 2 ^ 32
  pub bound : s.rlimit < 2 ^ 16
  pub size : (s.limit + 1) % 2 ^ 32 ≤ s.rlimit + 1

-- The segments of the program's data fit.
abbrev pub AllFit : Machine → Type 0
AllFit m = (i : ℕ) → m.base_desc ≤ i → i ≤ m.last_desc → Fits (m.ldt i)

resize-AllFit :
    (m : Machine) (seg incr : ℕ)
    → AllFit m
    → Fits (with_limit (m.ldt seg) (plus (m.ldt seg).limit incr))
    → AllFit (resize m seg incr)
unfolding resize
resize-AllFit m seg incr all new i low high = elim (Bool-cases (i == seg)) [
  | inl this ↦ rw this new
  | inr other ↦ rw other (all i low high)
]

new_segment-AllFit :
    (address : ℕ) (m : Machine) (incr : ℕ)
    → AllFit m
    → incr ≤ 2 ^ 16
    → AllFit (new_segment address m incr).1
unfolding new_segment
new_segment-AllFit address m incr all small =
    let seg = m.last_desc + 1 in
    elim (Bool-cases (ltb 255 seg)) [
      | inl full ↦ rw full all
      | inr room ↦ elim (Bool-cases (address == 0)) [
        | inl no_memory ↦
            rw (room, no_memory)
              (λ i low high.
                let other : (i == seg) ≡ false = ground arith in rw other (all i low high))
        | inr memory ↦
            let s : Segment = record {
              base = address;
              limit = 2 ^ 32 - 1;
              type = 0x12;
              dpl = 0x03;
              rlimit = 0xffff;
            } in
            let m1 = with_segment (with_last m seg) seg s in
            let same : (seg == seg) ≡ true = ground arith in
            let start : Fits s = record {
              word = omega arith;
              bound = omega arith;
              size = omega arith;
            } in
            let all1 : AllFit m1 = λ i low high. elim (Bool-cases (i == seg)) [
              | inl this ↦ rw this start
              | inr other ↦ rw other (all i low (ground arith))
            ] in
            let new : Fits (with_limit (m1.ldt seg) (plus (m1.ldt seg).limit incr)) =
              (rw same (record { word = omega arith; bound = omega arith; size = omega arith })) in
            rw (room, memory) (resize-AllFit m1 seg incr all1 new)
      ]
    ]

increase_argseg :
    (ldata : Bool) (address : ℕ) (m : Machine) (incr seg : ℕ)
    → AllFit m
    → Fits (m.ldt seg)
    → AllFit (increase ldata address m br_argseg incr seg).1
unfolding increase
increase_argseg ldata address m incr seg all f =
    let fb = f.bound in
    elim (Bool-cases (ltb (m.ldt seg).rlimit (plus (m.ldt seg).limit incr))) [
      | inl over ↦ rw over all
      | inr within ↦
          let le : plus (m.ldt seg).limit incr ≤ (m.ldt seg).rlimit = ground arith in
          let new : Fits (with_limit (m.ldt seg) (plus (m.ldt seg).limit incr)) = record {
            word = omega arith;
            bound = fb;
            size = omega (arith, le, fb);
          } in
          rw within (resize-AllFit m seg incr all new)
    ]

increase_newseg :
    (ldata : Bool) (address : ℕ) (m : Machine) (incr seg : ℕ)
    → AllFit m
    → incr ≤ 2 ^ 16
    → AllFit (increase ldata address m br_newseg incr seg).1
unfolding increase
increase_newseg ldata address m incr seg all small =
    elim (Bool-cases (not ldata && m.last_desc == m.base_desc && false)) [
      | inl never ↦ rw never all
      | inr always ↦ rw always (new_segment-AllFit address m incr all small)
    ]

-- With the commands for a given and for a new segment, int_brkctl keeps every segment within its bound,
-- for an increment other than the least number.
pub int_brkctl-AllFit :
    (ldata : Bool) (address : ℕ) (m : Machine) (cmd : Command) (incr seg : ℕ)
    → AllFit m
    → incr < 2 ^ 32
    → incr ≢ 2 ^ 31
    → (cmd ≡ br_argseg) ⊎ (cmd ≡ br_newseg)
    → AllFit (int_brkctl ldata address m cmd incr seg).1
unfolding int_brkctl
int_brkctl-AllFit ldata address m cmd incr seg all word least (inl e) =
    let m' = with_errno m einval in
    elim (Bool-cases (is_bad m br_argseg incr seg)) [
      | inl bad ↦ rw (e, bad) all
      | inr good ↦
          let low : m.base_desc ≤ seg = ground arith in
          let high : seg ≤ m.last_desc = ground arith in
          let f = all seg low high in
          let fw = f.word in
          let fb = f.bound in
          let fs = f.size in
          elim (Bool-cases (is_negative incr)) [
            | inl negative ↦
                let l0 : is_less (plus (m.ldt seg).limit 1) (minus 0 incr) ≡ false = ground arith in
                let less : 2 ^ 32 - incr ≤ ((m.ldt seg).limit + 1) % 2 ^ 32 = ground (arith, l0) in
                let new : Fits (with_limit (m.ldt seg) (plus (m.ldt seg).limit incr)) = record {
                  word = omega arith;
                  bound = fb;
                  size = omega (arith, fw, fs, less);
                } in
                rw (e, good, negative) (resize-AllFit m' seg incr all new)
            | inr positive ↦
                rw (e, good, positive) (increase_argseg ldata address m' incr seg all f)
          ]
    ]
int_brkctl-AllFit ldata address m cmd incr seg all word least (inr e) =
    let m' = with_errno m einval in
    elim (Bool-cases (is_bad m br_newseg incr seg)) [
      | inl bad ↦ rw (e, bad) all
      | inr good ↦
          let positive : is_negative incr ≡ false = ground arith in
          let small : is_less 0x10000 incr ≡ false = ground arith in
          rw (e, good, positive) (increase_newseg ldata address m' incr seg all (ground arith))
    ]
