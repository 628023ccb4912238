-- ===== src/FanDaemon/Gpios/Balance.antt =====
-- Which descriptors `gpios_init` leaves open.
use csel_workspace.Prelude.{ℕ, ◌+◌, List, [], ◌∷◌, ◌++◌, ◌≡◌, ◌&&◌, if◌then◌else◌, arith, refl, map}
use csel_workspace.Prelude.Int.{ℤ, ==ℤ}
use csel_workspace.FanDaemon.Gpios.{
  GpioFile, unexport, export, direction, edge, value, Access, opened, wrote, closed, drained, is_fd,
  write_file, configure, configure_all, gpios_init, gpios_init_accesses, button_gpios,
  power_led_gpio,
}

-- Whether a descriptor is `q` and valid, as a number.
abbrev is_q : ℤ → ℤ → ℕ
is_q q fd = if is_fd fd && ==ℤ fd q then 1 else 0

-- How often some accesses open and close the descriptor `q`, and how often some descriptors are `q`.
pub opens : ℤ → List Access → ℕ
opens q [] = 0
opens q (opened file fd ∷ xs) = is_q q fd + opens q xs
opens q (_ ∷ xs) = opens q xs

pub closes : ℤ → List Access → ℕ
closes q [] = 0
closes q (closed fd ∷ xs) = is_q q fd + closes q xs
closes q (_ ∷ xs) = closes q xs

pub count_fds : ℤ → List ℤ → ℕ
count_fds q [] = 0
count_fds q (fd ∷ fds) = is_q q fd + count_fds q fds

module _ (q : ℤ) where
  opens-append : (xs ys : List Access) → opens q (xs ++ ys) ≡ opens q xs + opens q ys
  unfolding opens
  opens-append [] ys = omega arith
  opens-append (opened file fd ∷ xs) ys = omega (arith, opens-append xs ys)
  opens-append (wrote fd t ∷ xs) ys = opens-append xs ys
  opens-append (closed fd ∷ xs) ys = opens-append xs ys
  opens-append (drained fd ∷ xs) ys = opens-append xs ys

  closes-append : (xs ys : List Access) → closes q (xs ++ ys) ≡ closes q xs + closes q ys
  unfolding closes
  closes-append [] ys = omega arith
  closes-append (opened file fd ∷ xs) ys = closes-append xs ys
  closes-append (wrote fd t ∷ xs) ys = closes-append xs ys
  closes-append (closed fd ∷ xs) ys = omega (arith, closes-append xs ys)
  closes-append (drained fd ∷ xs) ys = closes-append xs ys

  wrote_all :
      (fd : ℤ) (texts : List (List ℕ))
      → (opens q (map (wrote fd) texts) ≡ 0) × (closes q (map (wrote fd) texts) ≡ 0)
  unfolding opens closes
  wrote_all fd [] = (refl, refl)
  wrote_all fd (t ∷ ts) = wrote_all fd ts

  write_file_balance :
      (file : GpioFile) (fd : ℤ) (texts : List (List ℕ))
      → opens q (write_file file fd texts) ≡ closes q (write_file file fd texts)
  unfolding write_file opens closes
  write_file_balance file fd texts = ground (
    arith,
    wrote_all fd texts,
    opens-append (map (wrote fd) texts) (closed fd ∷ []),
    closes-append (map (wrote fd) texts) (closed fd ∷ []),
  )

  -- An access list that closes `q` as often as it opens it, but for `n` times.
  record Leaves (xs : List Access) (n : ℕ) : Type 0 where
    balance : opens q xs ≡ closes q xs + n

  Leaves-append :
      {xs ys : List Access} {m n : ℕ} → Leaves xs m → Leaves ys n → Leaves (xs ++ ys) (m + n)
  Leaves-append {xs} {ys} a b = record {
    balance = omega (arith, opens-append xs ys, closes-append xs ys, a.balance, b.balance);
  }

  Leaves-write_file :
      (file : GpioFile) (fd : ℤ) (texts : List (List ℕ)) → Leaves (write_file file fd texts) 0
  Leaves-write_file file fd texts = record {
    balance = omega (arith, write_file_balance file fd texts);
  }

  Leaves-opened : (file : GpioFile) (fd : ℤ) → Leaves (opened file fd ∷ []) (is_q q fd)
  unfolding opens closes
  Leaves-opened file fd = record { balance = omega arith }

module _ (q : ℤ) (os_open : GpioFile → ℤ) where
  Leaves-configure : (g : ℕ) → Leaves q (configure os_open g) (0 + (0 + is_q q (os_open (value g))))
  unfolding configure
  Leaves-configure g =
      Leaves-append q (Leaves-write_file q (direction g) _ _)
        (Leaves-append q (Leaves-write_file q (edge g) _ _) (Leaves-opened q (value g) _))

  Leaves-configure_all :
      (gs : List ℕ)
      → Leaves q (configure_all os_open gs) (count_fds q (map (λ g. os_open (value g)) gs))
  unfolding configure_all count_fds
  Leaves-configure_all [] = record { balance = unfold opens closes in refl }
  Leaves-configure_all (g ∷ gs) = record {
    balance =
        omega (arith, (Leaves-append q (Leaves-configure g) (Leaves-configure_all gs)).balance);
  }

  Leaves-drained : (gs : List ℕ) → Leaves q (map (λ g. drained (os_open (value g))) gs) 0
  unfolding opens closes
  Leaves-drained [] = record { balance = refl }
  Leaves-drained (g ∷ gs) = record { balance = (Leaves-drained gs).balance }

-- Whatever the opens return, the descriptors that are still open after `gpios_init` are the ones
-- that it returns: any valid descriptor was opened as often as it was closed and stands in the result
-- together.
pub gpios_init_balance :
    (os_open : GpioFile → ℤ) (q : ℤ)
    → let g = gpios_init os_open in
      let xs = gpios_init_accesses os_open in
      opens q xs ≡ closes q xs + count_fds q (g.led_fd ∷ g.button_fds)
unfolding gpios_init gpios_init_accesses count_fds
gpios_init_balance os_open q = omega (arith, whole.balance)
  where
    whole : Leaves q (gpios_init_accesses os_open) (
        0
        + (0
            + (0
                + (is_q q (os_open (value power_led_gpio))
                    + (count_fds q (map (λ g. os_open (value g)) button_gpios) + 0)))))
    whole = Leaves-append q (Leaves-write_file q unexport _ _) (
        Leaves-append q (Leaves-write_file q export _ _) (
          Leaves-append q (Leaves-write_file q (direction power_led_gpio) _ _) (
            Leaves-append q (Leaves-opened q (value power_led_gpio) _) (
              Leaves-append q (Leaves-configure_all q os_open button_gpios)
                (Leaves-drained q os_open button_gpios)))))
