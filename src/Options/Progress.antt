-- ===== src/Options/Progress.antt =====
-- Repeated calls of `getoption` of ibcs/main.c come to an end of the command line.
use ibcs_us.Prelude.{
  ℕ, zero, suc, ◌+◌, ◌-◌, ◌≤◌, ◌<◌, ◌≡◌, ◌≢◌, refl, false, ◌&&◌, ◌||◌, Option, none, some, List, [],
  ◌∷◌, ◌==◌, ◌!=◌, length, drop, take, get_or, arith, Bool-cases, inl, inr, ◌⊎◌,
}
use ibcs_us.Filemap.Normalise.{byte}
use ibcs_us.Options.{
  Cursor, Found, done, found, usage_exit, getoption, getoption_at, advance, match_option,
  short_option, long_option, next_argument, name_length, same_bytes, read_options, after_option,
  read_on, OptionsRead,
}

-- The bytes of some strings, the NULs counted.
abbrev pub total : List (List ℕ) → ℕ
total [] = 0
total (a ∷ argv) = length a + 1 + total argv

-- What is left to read.
abbrev pub left : Cursor → ℕ
left c = total c.argv - c.optindex

-- `optindex` stands inside the string that is being read.
abbrev pub IsInside : Cursor → Type 0
IsInside c = c.optindex ≤ length (get_or c.argv 0 [])

after_option-none :
    (o : List ℕ) (arg : Option (List ℕ)) (r : Option OptionsRead)
    → after_option o arg r ≡ none
    → r ≡ none
after_option-none o arg none e = refl
after_option-none o arg (some r) e = cc

-- Less is left than `n`.
abbrev pub LessLeft : ℕ → Found → Type 0
LessLeft n (done c) = Unit {0}
LessLeft n (found o arg c) = (left c < n) × IsInside c
LessLeft n usage_exit = Unit {0}

next_argument_left :
    (o : List ℕ) (rest : List (List ℕ)) (n : ℕ) → total rest < n → LessLeft n (next_argument o rest)
next_argument_left o [] n h = tt
next_argument_left o (a ∷ rest) n h = (omega arith, omega arith)

short_argument_left :
    (o v : List ℕ) (rest : List (List ℕ)) (n : ℕ)
    → total rest < n
    → LessLeft n (elim v [
      | [] ↦ next_argument o rest
      | c ∷ v ↦ found o (some (c ∷ v)) (record { argv = rest; optindex = 0 })
    ])
short_argument_left o [] rest n h = next_argument_left o rest n h
short_argument_left o (c ∷ v) rest n h = (omega arith, omega arith)

short_option_left :
    (o av : List ℕ) (rest : List (List ℕ)) (optindex n : ℕ)
    → optindex ≤ length av
    → total (av ∷ rest) - optindex < n
    → LessLeft n (short_option o av rest optindex)
unfolding short_option
short_option_left o av rest optindex n inside h = elim (Bool-cases (byte o 2 != b'=')) [
  | inl flag ↦ rw flag (h, inside)
  | inr argument ↦ rw argument (short_argument_left o (drop (optindex + 1) av) rest n (omega arith))
]

long_option_left :
    (o av : List ℕ) (rest : List (List ℕ)) (n : ℕ)
    → total rest < n
    → LessLeft n (long_option o av rest)
unfolding long_option
long_option_left o av rest n h = elim (Bool-cases (byte av (name_length o) == b'=')) [
  | inl equals ↦ elim (Bool-cases (byte o (name_length o) == 0)) [
    | inl none_wanted ↦ rw (equals, none_wanted) tt
    | inr wanted ↦ rw (equals, wanted) (omega arith, omega arith)
  ]
  | inr bare ↦ elim (Bool-cases (byte o (name_length o) == 0)) [
    | inl none_wanted ↦ rw (bare, none_wanted) (omega arith, omega arith)
    | inr wanted ↦ rw (bare, wanted) (next_argument_left o rest n h)
  ]
]

match_option_left :
    (options : List (List ℕ)) (av : List ℕ) (rest : List (List ℕ)) (optindex n : ℕ)
    → optindex ≤ length av
    → total rest < n
    → (optindex ≡ 0) ⊎ (total (av ∷ rest) - optindex < n)
    → LessLeft n (match_option options av rest optindex)
unfolding match_option
match_option_left [] av rest optindex n inside h h' = tt
match_option_left (o ∷ options) av rest optindex n inside h h' =
    let ih = match_option_left options av rest optindex n inside h h' in
    elim (Bool-cases (byte o 1 != b'-')) [
      | inl short ↦ elim (Bool-cases (optindex != 0 && byte av optindex == byte o 1)) [
        | inl it ↦ rw (short, it) (short_option_left o av rest optindex n inside (ground arith))
        | inr other ↦ rw (short, other) ih
      ]
      | inr long ↦
          elim (Bool-cases (
            optindex == 0
            && (byte av (name_length o) == 0 || byte av (name_length o) == b'=')
            && same_bytes (take (name_length o) av) (take (name_length o) o))) [
              | inl it ↦ rw (long, it) (long_option_left o av rest n h)
              | inr other ↦ rw (long, other) ih
            ]
    ]

byte_inside : (av : List ℕ) (i : ℕ) → byte av i ≢ 0 → i < length av
byte_inside [] i ne = absurd (ne refl)
byte_inside (c ∷ av) zero ne = omega arith
byte_inside (c ∷ av) (suc i) ne = omega (arith, byte_inside av i ne)

getoption_start_left :
    (options argv : List (List ℕ)) (n : ℕ)
    → total argv ≤ n
    → LessLeft n (getoption_at options argv 0)
unfolding getoption_at
getoption_start_left options [] n h = tt
getoption_start_left options (av ∷ rest) n h =
    elim (Bool-cases
      (byte av 0 != b'-' || byte av 1 == 0 || (byte av 1 == b'-' && byte av 2 == 0))) [
        | inl end ↦ rw end tt
        | inr option ↦
            let inside : 1 < length av = byte_inside av 1 (ground arith) in
            elim (Bool-cases (byte av 1 != b'-')) [
              | inl short ↦
                  rw (option, short)
                    (match_option_left options av rest 1 n (omega arith) (omega arith)
                      (inr (omega arith)))
              | inr long ↦
                  rw (option, long)
                    (match_option_left options av rest 0 n (omega arith) (omega arith) (inl refl))
            ]
      ]

advance_left :
    (options argv : List (List ℕ)) (optindex : ℕ)
    → optindex ≤ length (get_or argv 0 [])
    → LessLeft
        (total argv - optindex)
        (getoption_at options (advance argv optindex).argv (advance argv optindex).optindex)
unfolding advance getoption_at
advance_left options [] zero inside = tt
advance_left options [] (suc i) inside = absurd (omega arith)
advance_left options (av ∷ rest) zero inside =
    getoption_start_left options (av ∷ rest) _ (omega arith)
advance_left options (av ∷ rest) (suc i) inside =
    let started : (suc i == 0) ≡ false = ground arith in
    elim (Bool-cases (byte av (suc i + 1) == 0)) [
      | inl end ↦ rw (started, end) (getoption_start_left options rest _ (omega arith))
      | inr more ↦
          let in_av : suc i + 1 < length av = byte_inside av (suc i + 1) (ground arith) in
          let moved : (suc i + 1 == 0) ≡ false = ground arith in
          rw (started, more, moved)
            (match_option_left options av rest (suc i + 1) _ (omega arith) (omega arith)
              (inr (omega arith)))
    ]

-- Each option that `getoption` finds leaves less of the command line to read, and the place where it
-- left off is inside the string that is being read.
pub getoption-left :
    (options : List (List ℕ)) (c : Cursor) → IsInside c → LessLeft (left c) (getoption options c)
unfolding getoption
getoption-left options c inside = advance_left options c.argv c.optindex inside

options_after :
    (read : Cursor → Option OptionsRead) (n : ℕ) (r : Found)
    → LessLeft n r
    → ((at : Cursor) → IsInside at → left at < n → read at ≢ none)
    → read_on read r ≢ none
options_after read n (done at) less ends e = cc
options_after read n (found o arg at) (less, in_at) ends e =
    ends at in_at less (after_option-none o arg (read at) e)
options_after read n usage_exit less ends e = cc

-- The loop of `parse_cmdline_options` ends, with the bytes of the command line and one more as fuel.
pub read_options_total :
    (f : ℕ) (options : List (List ℕ)) (c : Cursor)
    → IsInside c
    → left c < f
    → read_options f options c ≢ none
read_options_total zero options c inside lt h = absurd (omega arith)
read_options_total (suc f) options c inside lt h =
    options_after (read_options f options) (left c) (getoption options c)
      (getoption-left options c inside)
      (λ at in_at less. read_options_total f options at in_at (omega arith))
      (unfold read_options in h)
