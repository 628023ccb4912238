-- ===== src/Lib.antt =====
-- A development beside the C code of the repository csel-workspace: Linux drivers, a daemon and
-- small programs for an embedded board. Definitions are translated from the C sources; each
-- names its source lines in the manifest.
--
-- src/07_miniproj is the main program. A kernel driver blinks a fan at a frequency that follows
-- the CPU temperature or is set by hand; a daemon reads and writes its sysfs files, and serves
-- three buttons, a LED, an OLED screen and the clients of a UNIX socket; a command line program
-- is such a client.
-- - FanDriver: src/07_miniproj/fan_driver/skeleton.c. FanDriver has the state and the handlers,
--   Frequency the table and the timer's period, Probe the probe, Sysfs the texts of the
--   attributes, System the states that the driver can come to, Safety, Stopped and Store what
--   holds of them.
-- - FanDaemon: src/07_miniproj/daemon. Calls has the system calls and
--   src/07_miniproj/common/fan_socket.h, Fan fan.c, Gpios gpios.c, Oled and Font ssd1306.c,
--   Screen screen.c, Socket socket.c, Events and Daemonize main.c. FanLaws, SocketLaws,
--   Buttons, Pool and Stale have what holds of them; FanLaws and Screen.Lines join the daemon
--   to the driver.
-- - FanCtl: src/07_miniproj/application/main.c. FanCtl has the program, given what connect and
--   recv answer; Laws joins it to the daemon and the driver, EndToEnd follows a frequency
--   through all three.
--
-- src/03_drivers holds the drivers of the exercises.
-- - CharDriver: src/03_drivers/exercise02_to_03/skeleton.c. CharDriver has open, read and
--   write, Init the initialisation and the exit as lists of acquisitions and releases. Transfer
--   has what holds of reading and writing; Tally, Ledger, Stage and Settled count the
--   acquisitions and releases, and Unload has what comes of it.
-- - ButtonDriver: src/03_drivers/exercise07/driver/skeleton.c. ButtonDriver has the counter
--   with its readers and writers as a sequence of atomic accesses, Setup the initialisation and
--   the exit, Wakeup the interrupt handler against a reader that waits. Conserved has what the
--   readers get.
-- - ConfigDriver: src/03_drivers/exercise05/skeleton.c. ConfigDriver has read and write of the
--   allocated buffer, Attributes the two sysfs attributes with the formats of sscanf that they
--   use, Setup the initialisation and the exit; Text has what a read brings after a write,
--   Attributes.RoundTrip what holds of the attributes, Setup.Balance what is held and released.
-- - ChipId: src/03_drivers/exercise01/main.c, which reads registers through /dev/mem; Words has
--   what it reads.
--
-- src/04_file_systems holds programs that blink a LED.
-- - BetterLed: src/04_file_systems/better_led/better_led.c. BetterLed has the two threads as a
--   sequence of their critical sections, Startup main and open_led; Periods has what holds of
--   the period and the timer.
-- - SillyLed: src/04_file_systems/silly_led/silly_led_control.c. SillyLed has main, the period
--   and the busy loop, Duty what holds of the phases. SysfsPin has open_led, which two of the
--   programs of src/06_optimization have too.
--
-- src/02_modules holds kernel modules.
-- - KernelModules: Elements is src/02_modules/exercice04/skeleton.c, the list allocated at load
--   time; Interrupts is src/02_modules/exercice08/skeleton.c, the three shared interrupts;
--   Registers is src/02_modules/exercice05/skeleton.c, which decodes registers; Threads is
--   src/02_modules/exercice07/skeleton.c, whose two threads take steps in any order, with Stop
--   and Notified for what holds of them.
--
-- src/01_environment holds the first programs.
-- - Environment.MemLeaks: src/01_environment/memory_leaks/mem_leaks.c, a list on a heap that is
--   a function of the address. Chain has the lemmas on linked cells, Queue the view of the list
--   as a queue, Run what main does to it. The walks along the list take fuel; the number of
--   elements is enough.
-- - Environment.Fibonacci: src/01_environment/fibonacci/fibonacci.c and
--   src/01_environment/tracing/fibonacci.c; Agree has the functions against the definition of
--   the numbers, Printed what the programs print.
-- - Environment.Daemon: src/01_environment/daemon/daemon.c and
--   src/01_environment/process/process.c. The process is a record, the answers of the system
--   are another; Descriptors and Started have what becomes of it.
-- - Environment.SystemCall: src/01_environment/system_calls/syscall.c; Degrees has what it
--   prints.
--
-- src/05_multiprocessing_and_schedulers and src/06_optimization hold exercises.
-- - Multiprocessing.Messages: src/05_multiprocessing_and_schedulers/exercise_1/main.c. The
--   child's messages are the bytes of a stream, and what read answers is any way to cut it;
--   Conversation has what holds of both processes, Signals the handler.
-- - Optimization: Toggle is src/06_optimization/gpio/gpio.c and
--   src/06_optimization/mmio/mmio.c, Array is src/06_optimization/ex01/main.c and
--   src/06_optimization/ex02/main.c, where qsort is an argument, Clock is
--   src/06_optimization/clock/clock.c, and Clock.Elapsed has the differences of its readings.
--
-- teacher_solutions holds material of the course. PlatformDriver is the last stage of its
-- drivers, teacher_solutions/03_drivers/sample06.3/skeleton.c: PlatformDriver has reading and
-- writing, where a write outside the buffer is `none`, and Probe the devices of the children;
-- Append, Overflow and Probe.Leak have what holds of them. PollDriver is
-- teacher_solutions/03_drivers/exercice07/drv/skeleton.c, where the two accesses of a poll are
-- two steps and Race has what comes of it. ProcDriver is
-- teacher_solutions/03_drivers/exercice10/skeleton.c with its two files in procfs; Values has
-- what holds of them.
--
-- How the models stand to the code. Numbers of C are natural numbers or the integers of
-- Prelude.Int, with int, long and size_t in Prelude.Machine; a wrap-around of an unsigned type
-- is written out. A function that changes static data returns the new state. What the kernel,
-- libc or the hardware answers is an argument; what the code asks of them is a list of calls in
-- the result. Division by zero is `none`. Loops are structural or count the rounds left, which
-- the length of the array bounds. Printing of decimals recurs on the number itself, which is
-- enough fuel because each round divides by ten. The timer callback and the store functions of
-- the fan driver run to completion; where threads or interrupts meet, the model has their
-- critical sections or atomic accesses one at a time, and the locks themselves are left out.
--
-- Not modelled: most log and error messages, the sleeping and waiting of the kernel, device tree
-- and Makefiles, the Rust clients, the programs that only crash, load the processor or are there
-- to be profiled, and the rest of teacher_solutions, which has copies, variants and earlier
-- stages of these programs and the work of a third party.
pub mod Prelude
pub mod FanDriver
pub mod FanDaemon
pub mod CharDriver
pub mod ButtonDriver
pub mod FanCtl
pub mod ConfigDriver
pub mod BetterLed
pub mod SillyLed
pub mod KernelModules
pub mod Multiprocessing
pub mod ChipId
pub mod PlatformDriver
pub mod PollDriver
pub mod ProcDriver
pub mod Optimization
pub mod SysfsPin
pub mod Environment
