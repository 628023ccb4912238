-- ===== src/ProcDriver.antt =====
-- teacher_solutions/03_drivers/exercice10/skeleton.c: a module with two files in procfs.
pub mod Values
mod Tests
use csel_workspace.Prelude.{
  ℕ, zero, suc, ◌+◌, ◌-◌, Bool, true, false, not, ◌&&◌, Option, none, some, List, [], ◌∷◌, ◌++◌,
  ◌==◌, ltb, leb, take, drop, length, if◌then◌else◌,
}
use csel_workspace.Prelude.Int.{ℤ, pos, negsuc, minus, ◌-ℤ◌}
use csel_workspace.Prelude.Errno.{efault, eio}
use csel_workspace.Prelude.Decimal.{print_int}
use csel_workspace.Prelude.Text.{codes}
use csel_workspace.Prelude.Machine.{to_int, to_size, simple_strtol}

-- `struct skeleton_config`; the texts are without their NUL.
pub record Config : Type 0 where
  pub id : ℤ
  pub ref : ℤ
  pub name : List ℕ
  pub descr : List ℕ

-- `config` and `val` as the module is loaded.
abbrev pub config : Config
config = record {
  id = pos 11;
  ref = pos 33;
  name = codes "config structure";
  descr = codes "procfs test driver";
}

abbrev pub initial_val : ℤ
initial_val = pos 55

-- The text that `snprintf` prints into `temp` is shorter than `temp`. What follows it in the two
-- reads: the result, the bytes that reach the caller, and the new offset; `none` is a read behind the
-- text. `fails` is whether `copy_to_user` fails.
unfoldable pub read_temp : List ℕ → ℕ → ℕ → Bool → Option (ℤ × List ℕ × ℕ)
read_temp temp count off fails =
    let remaining = to_size (pos (length temp) -ℤ pos off) in
    let n = if ltb remaining count then remaining else count in
    if ltb (length temp) n
    then none
    else if fails && not (n == 0)
    then some (minus efault, [], off + n)
    else some (pos n, take n temp, off + n)

abbrev pub config_text : Config → List ℕ
config_text c =
    codes "id="
    ++ (print_int c.id
        ++ (codes "\nref="
            ++ (print_int c.ref
                ++ (codes "\nname=" ++ (c.name ++ (codes "\ndescr=" ++ (c.descr ++ codes "\n")))))))

unfoldable pub skeleton_read_config : Config → ℕ → ℕ → Bool → Option (ℤ × List ℕ × ℕ)
unfolding read_temp
skeleton_read_config c count off fails = read_temp (config_text c) count off fails

unfoldable pub skeleton_read_val : ℤ → ℕ → ℕ → Bool → Option (ℤ × List ℕ × ℕ)
unfolding read_temp
skeleton_read_val val count off fails = read_temp (print_int val ++ codes "\n") count off fails

-- `skeleton_write_val` of `buf`: the new `val` and the result. `stack` is what `temp` and the memory
-- behind it hold before; the number is read from what the copy leaves of it, which has no NUL of its
-- own.
unfoldable pub skeleton_write_val : ℤ → List ℕ → List ℕ → Bool → ℤ × ℤ
skeleton_write_val val stack buf fails =
    if ltb 20 (length buf)
    then (val, minus eio)
    else if fails && not (length buf == 0)
    then (val, minus efault)
    else (to_int (simple_strtol (buf ++ drop (length buf) stack)), pos (length buf))

-- The entries of procfs.
pub data Entry : Type 0 where
  mymodule config_file val_file : Entry

-- `skeleton_init`, given whether `proc_mkdir` and the two `proc_create` succeed: the result, and the
-- entries made. Without a directory the files are made in the root of procfs.
unfoldable pub skeleton_init : Bool → Bool → Bool → ℤ × List Entry
skeleton_init dir_ok config_ok val_ok = (
  if dir_ok then pos 0 else minus efault,
  (if dir_ok then mymodule ∷ [] else [])
      ++ ((if config_ok then config_file ∷ [] else []) ++ (if val_ok then val_file ∷ [] else [])),
)

-- `skeleton_exit`: the entries removed.
abbrev pub skeleton_exit : List Entry
skeleton_exit = val_file ∷ config_file ∷ mymodule ∷ []
