-- ===== src/BetterLed/Startup.antt =====
-- `main` and `open_led` of better_led.c, up to the start of the two threads.
use csel_workspace.Prelude.{
  ℕ, suc, ◌+◌, ◌≡◌, Bool, true, false, not, List, [], ◌∷◌, ◌++◌, if◌then◌else◌, arith, ◌⊎◌,
}
use csel_workspace.Prelude.Int.{ℤ}
use csel_workspace.Prelude.Decimal.{print_nat}
use csel_workspace.Prelude.Text.{codes}

abbrev pub led : ℕ
led = 10

abbrev pub buttons_gpios : List ℕ
buttons_gpios = 0 ∷ 2 ∷ 3 ∷ []

-- The files below /sys/class/gpio.
pub data GpioFile : Type 0 where
  unexport export : GpioFile
  direction edge value : ℕ → GpioFile

pub data Call : Type 0 where
  opened : GpioFile → ℤ → Call
  wrote : ℤ → List ℕ → Call
  closed : ℤ → Call
  led_on : ℤ → Call
  epoll_add : ℤ → ℕ → Call
  threads_started : Call

-- What the system answers: the descriptor that each `open` returns, whether `epoll_create1`,
-- the registration of a descriptor and `pthread_mutex_init` succeed.
pub record Env : Type 0 where
  pub opens : GpioFile → ℤ
  pub epoll_created : Bool
  pub epoll_added : ℤ → Bool
  pub mutex_made : Bool

-- `f = open(file); write(f, text); close(f);` with no look at the result.
unfoldable pub write_file : Env → GpioFile → List ℕ → List Call
write_file env file text = let f = env.opens file in opened file f ∷ wrote f text ∷ closed f ∷ []

-- `open_led`, and the descriptor that it returns.
unfoldable pub open_led : Env → ℤ × List Call
open_led env = (
  env.opens (value led),
  write_file env unexport (print_nat led)
      ++ (write_file env export (print_nat led)
          ++ (write_file env (direction led) (codes "out")
              ++ (opened (value led) (env.opens (value led)) ∷ []))),
)

-- One round of the loop over the buttons, up to the registration.
unfoldable pub init_button : Env → ℕ → List Call
init_button env gpio =
    write_file env unexport (print_nat gpio)
    ++ (write_file env export (print_nat gpio)
        ++ (write_file env (direction gpio) (codes "in")
            ++ (write_file env (edge gpio) (codes "rising")
                ++ (opened (value gpio) (env.opens (value gpio)) ∷ []))))

-- The loop from index `i` on, and whether every registration succeeded.
unfoldable pub init_buttons : Env → ℕ → List ℕ → Bool × List Call
init_buttons env i [] = (true, [])
init_buttons env i (gpio ∷ gpios) =
    let fd = env.opens (value gpio) in
    let (done, calls) = init_buttons env (i + 1) gpios in
    if env.epoll_added fd
    then (done, init_button env gpio ++ (epoll_add fd i ∷ calls))
    else (false, init_button env gpio)

-- `main`; the threads run until one of them fails, and `main` returns 0 after them.
unfoldable pub main : Env → ℕ × List Call
main env =
    let (led_fd, first) = open_led env in
    let (done, calls) = init_buttons env 0 buttons_gpios in
    if not env.epoll_created
    then (1, first ++ (led_on led_fd ∷ []))
    else if not done
    then (1, first ++ (led_on led_fd ∷ calls))
    else if not env.mutex_made
    then (1, first ++ (led_on led_fd ∷ calls))
    else (0, first ++ (led_on led_fd ∷ (calls ++ (threads_started ∷ []))))

-- The registrations of a list of calls, and the starts of the threads.
unfoldable pub registered : List Call → List (ℤ × ℕ)
registered [] = []
registered (epoll_add fd i ∷ calls) = (fd, i) ∷ registered calls
registered (_ ∷ calls) = registered calls

unfoldable pub starts : List Call → ℕ
starts [] = 0
starts (threads_started ∷ calls) = suc (starts calls)
starts (_ ∷ calls) = starts calls

-- Whatever the system answers: `main` returns 0 after it has started the threads once, with the
-- value files of the pins 0, 2 and 3 registered for the buttons 0, 1 and 2 in this order; or it
-- returns 1 and has started no thread.
pub main-starts :
    (env : Env)
    → let (ret, calls) = main env in
      ((ret ≡ 0)
        × (starts calls ≡ 1)
        × (registered calls
            ≡ (env.opens (value 0), 0) ∷ (env.opens (value 2), 1) ∷ (env.opens (value 3), 2) ∷ []))
      ⊎ ((ret ≡ 1) × (starts calls ≡ 0))
unfolding main open_led init_buttons init_button write_file registered starts
main-starts env = ground arith
