-- ===== src/Compat/Chrdev.antt =====
-- The character devices that are emulated. A slot of `chrdev_list` that was never used, or was cleared, is all
-- zeros; its name is NULL, which is `none`, and `strcmp` of it is not defined: the answer `none` or `undefined`.
-- A driver is its address. The loops run from the last slot to the first.
pub mod Slots
use ibcs_us.Prelude.{
  ℕ, zero, suc, ◌+◌, ◌==◌, ◌&&◌, ◌||◌, Bool, true, false, Option, none, some, List, [], ◌∷◌, take,
  drop, length, if◌then◌else◌,
}
use ibcs_us.Prelude.Text.{codes}
use ibcs_us.Options.{same_bytes}
use ibcs_us.Compat.{Outcome, success, failure, eexist, enomem}

pub record Slot : Type 0 where
  pub chrdev_major : ℕ
  pub chrdev_name : Option (List ℕ)
  pub chrdev_fops : ℕ

abbrev pub no_slot : Slot
no_slot = record { chrdev_major = 0; chrdev_name = none; chrdev_fops = 0 }

-- What the loop of register_chrdev has found: a clash, or the slot that is free.
pub data Scan : Type 0 where
  undefined : Scan
  exists : Scan
  free : Option ℕ → Scan

abbrev pub scan_name : Option (List ℕ) → List ℕ → Scan → Scan
scan_name none name found = undefined
scan_name (some n) name found = if same_bytes n name then exists else found

-- A slot, after those behind it.
abbrev pub scan_slot : ℕ → Slot → ℕ → List ℕ → Scan → Scan
scan_slot i x major name undefined = undefined
scan_slot i x major name exists = exists
scan_slot i x major name (free f) =
    if x.chrdev_major == 0
    then free (some i)
    else if x.chrdev_major == major
    then exists
    else scan_name x.chrdev_name name (free f)

pub scan : ℕ → List Slot → ℕ → List ℕ → Scan
scan i [] major name = free none
scan i (x ∷ xs) major name = scan_slot i x major name (scan (suc i) xs major name)

abbrev pub set_slot : List Slot → ℕ → Slot → List Slot
set_slot [] i y = []
set_slot (x ∷ xs) zero y = y ∷ xs
set_slot (x ∷ xs) (suc i) y = x ∷ set_slot xs i y

-- The slot is filled, if one is free.
pub fill : List Slot → Slot → Scan → Option (Outcome × List Slot)
fill chrdev_list x undefined = none
fill chrdev_list x exists = some (failure eexist, chrdev_list)
fill chrdev_list x (free none) = some (failure enomem, chrdev_list)
fill chrdev_list x (free (some i)) = some (success, set_slot chrdev_list i x)

pub register_chrdev : List Slot → ℕ → List ℕ → ℕ → Option (Outcome × List Slot)
unfolding scan fill
register_chrdev chrdev_list major name fops =
    fill chrdev_list (record { chrdev_major = major; chrdev_name = some name; chrdev_fops = fops })
      (scan 0 chrdev_list major name)

-- `chrdev_major == major || !strcmp(chrdev_name, name)`
abbrev pub is_device : Slot → ℕ → List ℕ → Option Bool
is_device x major name =
    if x.chrdev_major == major
    then some true
    else elim x.chrdev_name [ none ↦ none | some n ↦ some (same_bytes n name) ]

abbrev pub clear_slot : Slot → Option Bool → Option (List Slot) → Option (List Slot)
clear_slot x matches none = none
clear_slot x none (some rest) = none
clear_slot x (some matches) (some rest) = some ((if matches then no_slot else x) ∷ rest)

unfoldable pub unregister_chrdev : List Slot → ℕ → List ℕ → Option (List Slot)
unregister_chrdev [] major name = some []
unregister_chrdev (x ∷ xs) major name =
    clear_slot x (is_device x major name) (unregister_chrdev xs major name)

-- The loop of find_chrdev: the device and the slot that the first driver which takes the path gives.
-- `opens` is the drivers' `linux26_chrdev_open`, which answers `none` for an error.
unfoldable pub ask_drivers :
    (ℕ → List ℕ → ℕ → ℕ → Option ℕ) → ℕ → List Slot → List ℕ → ℕ → ℕ → Option (ℕ × ℕ)
ask_drivers opens i [] path mode flags = none
ask_drivers opens i (x ∷ xs) path mode flags =
    let more = ask_drivers opens (suc i) xs path mode flags in
    if x.chrdev_fops == 0
    then more
    else elim (opens x.chrdev_fops path mode flags) [ none ↦ more | some rdev ↦ some (rdev, i) ]

-- `none` is -ENOENT.
unfoldable pub find_chrdev :
    (ℕ → List ℕ → ℕ → ℕ → Option ℕ) → List Slot → List ℕ → ℕ → ℕ → Option (ℕ × ℕ)
unfolding ask_drivers
find_chrdev opens chrdev_list path mode flags =
    if same_bytes (codes "/dev/") (take 5 path)
    then ask_drivers opens 0 chrdev_list (drop 5 path) mode flags
    else none
