-- ===== src/ButtonDriver.antt =====
-- src/03_drivers/exercise07/driver/skeleton.c: a driver that counts the interrupts of three buttons.
pub mod Setup
pub mod Conserved
pub mod Wakeup
mod Tests
use csel_workspace.Prelude.{
  ℕ, ◌+◌, ◌-◌, ◌%◌, ◌^◌, Bool, true, false, Option, none, some, List, [], ◌∷◌, ◌++◌, length, take,
  ltb, ◌==◌, if◌then◌else◌,
}
use csel_workspace.Prelude.Int.{==ℤ, ℤ, pos, negsuc, minus}
use csel_workspace.Prelude.Errno.{eagain, efault, erestartsys}
use csel_workspace.Prelude.Decimal.{print_int}
use csel_workspace.Prelude.Text.{snprintf}

abbrev pub pollin : ℕ
pollin = 1

abbrev pub pollrdnorm : ℕ
pollrdnorm = 64

-- `atomic_inc` of the 32 bits of an `atomic_t`, and their value as an `int`.
unfoldable pub atomic_inc : ℕ → ℕ
atomic_inc c = (c + 1) % 2 ^ 32

unfoldable pub atomic_read : ℕ → ℤ
atomic_read c = if ltb c (2 ^ 31) then pos c else minus (2 ^ 32 - c)

-- `skeleton_poll`: the two bits of the mask are distinct, so that their `|` is their sum.
unfoldable pub skeleton_poll : ℕ → ℕ
skeleton_poll c = if c == 0 then 0 else pollin + pollrdnorm

-- What a part of `skeleton_read` comes to: the value returned and the bytes that reach the caller's
-- buffer, or the wait for an interrupt.
pub data Read : Type 0 where
  returns : ℤ → List ℕ → Read
  waits : Read

unfoldable pub count_text : ℕ → List ℕ
count_text c = print_int (atomic_read c) ++ (10 ∷ [])

-- The end of `skeleton_read`. The size that the caller asks for is not an argument: the code does
-- not look at it. `fails` is whether `copy_to_user` leaves bytes uncopied.
unfoldable pub copy_count : ℕ → Bool → Read
copy_count c true = returns (minus efault) []
copy_count c false =
    let len = length (count_text c) in returns (pos len) (take len (snprintf 16 (count_text c)))

-- `skeleton_read` up to the wait, with the counter that its `atomic_xchg` leaves.
unfoldable pub read_begin : Bool → Bool → ℕ → ℕ × Read
read_begin nonblock fails c =
    if c == 0
    then (0, if nonblock then returns (minus eagain) [] else waits)
    else (0, copy_count c fails)

-- The rest, after the wait: interrupted by a signal, or with the counter found by the second
-- `atomic_xchg`, which another reader may have emptied again.
unfoldable pub read_signal : Read
read_signal = returns (minus erestartsys) []

unfoldable pub read_end : Bool → ℕ → ℕ × Read
read_end fails c = (0, copy_count c fails)

-- `nb_of_interrupts_show` and `nb_of_interrupts_store`, given what `kstrtoint` makes of the text.
unfoldable pub nb_of_interrupts_show : ℕ → List ℕ
nb_of_interrupts_show c = count_text c

abbrev pub parsed_zero : Option ℤ → Bool
parsed_zero none = false
parsed_zero (some val) = ==ℤ val (pos 0)

unfoldable pub nb_of_interrupts_store : Option ℤ → ℕ → ℕ → ℕ × ℕ
nb_of_interrupts_store val count c = (if parsed_zero val then 0 else c, count)

-- What happens to the counter, one atomic access at a time.
pub data Event : Type 0 where
  interrupt : Event
  begins : Bool → Bool → Event
  ends : Bool → Event
  signal : Event
  store : Option ℤ → ℕ → Event

unfoldable pub step : Event → ℕ → ℕ × List Read
step interrupt c = (atomic_inc c, [])
step (begins nonblock fails) c = let (c', r) = read_begin nonblock fails c in (c', r ∷ [])
step (ends fails) c = let (c', r) = read_end fails c in (c', r ∷ [])
step signal c = (c, read_signal ∷ [])
step (store val count) c = ((nb_of_interrupts_store val count c).0, [])

unfoldable pub run : List Event → ℕ → ℕ × List Read
run [] c = (c, [])
run (e ∷ es) c = let (c', reads) = step e c in let (last, more) = run es c' in (last, reads ++ more)
