-- ===== src/Traps/Handler.antt =====
-- What the handler of traps does on each number of scause.
use novos.Prelude.{
  ℕ, ◌+◌, ◌^◌, ◌<◌, ◌≡◌, ◌≢◌, refl, sym, ap, ◌∙◌, ◌||◌, ◌==◌, if◌then◌else◌, Option, none, some,
  Run, ok, panic, arith,
}
use novos.Riscv.Trap.{
  Trap, from_cause, supervisor_software_interrupt, supervisor_timer_interrupt,
  supervisor_external_interrupt, user_software_interrupt, machine_software_interrupt,
  user_timer_interrupt, machine_timer_interrupt, user_external_interrupt,
  machine_external_interrupt, instruction_address_misaligned, instruction_access_fault,
  illegal_instruction, breakpoint, load_address_misaligned, load_access_fault,
  store_address_misaligned, store_access_fault, user_mode_environment_call,
  supervisor_mode_environment_call, machine_mode_environment_call, instruction_page_fault,
  load_page_fault, store_page_fault, reserved,
}
use novos.Riscv.Causes.{cause_of, from_cause-cause_of}
use novos.Traps.{Handled, returns, spins, handle, trap_handler}

-- The numbers of the supervisor's interrupts.
abbrev pub software : ℕ
software = 2 ^ 63 + 1

abbrev pub timer : ℕ
timer = 2 ^ 63 + 5

abbrev pub external : ℕ
external = 2 ^ 63 + 9

-- The handler by the numbers.
abbrev pub by_number : ℕ → ℕ → Run Handled
by_number scause sepc =
    if scause == external || scause == timer
    then ok (returns sepc)
    else if scause == software
    then ok spins
    else panic

-- A trap that is none of the three does not have their numbers.
by_number-other :
    (scause sepc : ℕ) (found : Option Trap)
    → from_cause scause ≡ found
    → found ≢ some supervisor_external_interrupt
    → found ≢ some supervisor_timer_interrupt
    → found ≢ some supervisor_software_interrupt
    → by_number scause sepc ≡ panic
unfolding from_cause
by_number-other scause sepc found e no_external no_timer no_software =
    let x : scause ≢ external = λ same. no_external (sym e ∙ ap from_cause same) in
    let t : scause ≢ timer = λ same. no_timer (sym e ∙ ap from_cause same) in
    let s : scause ≢ software = λ same. no_software (sym e ∙ ap from_cause same) in
    ground (arith, x, t, s)

numbered :
    (scause : ℕ) (t : Trap)
    → scause < 2 ^ 64
    → t ≢ reserved
    → from_cause scause ≡ some t
    → scause ≡ cause_of t
numbered scause t h ne e = (from_cause-cause_of t ne).1 scause h e

handle-by_number :
    (scause sepc : ℕ) (found : Option Trap)
    → scause < 2 ^ 64
    → from_cause scause ≡ found
    → handle sepc found ≡ by_number scause sepc
handle-by_number scause sepc none h e =
    sym (by_number-other scause sepc _ e (λ k. cc) (λ k. cc) (λ k. cc))
handle-by_number scause sepc (some supervisor_external_interrupt) h e =
    sym (ap (λ n. by_number n sepc) (numbered scause supervisor_external_interrupt h (λ k. cc) e))
handle-by_number scause sepc (some supervisor_timer_interrupt) h e =
    sym (ap (λ n. by_number n sepc) (numbered scause supervisor_timer_interrupt h (λ k. cc) e))
handle-by_number scause sepc (some supervisor_software_interrupt) h e =
    sym (ap (λ n. by_number n sepc) (numbered scause supervisor_software_interrupt h (λ k. cc) e))
handle-by_number scause sepc (some user_software_interrupt) h e =
    sym (by_number-other scause sepc _ e (λ k. cc) (λ k. cc) (λ k. cc))
handle-by_number scause sepc (some machine_software_interrupt) h e =
    sym (by_number-other scause sepc _ e (λ k. cc) (λ k. cc) (λ k. cc))
handle-by_number scause sepc (some user_timer_interrupt) h e =
    sym (by_number-other scause sepc _ e (λ k. cc) (λ k. cc) (λ k. cc))
handle-by_number scause sepc (some machine_timer_interrupt) h e =
    sym (by_number-other scause sepc _ e (λ k. cc) (λ k. cc) (λ k. cc))
handle-by_number scause sepc (some user_external_interrupt) h e =
    sym (by_number-other scause sepc _ e (λ k. cc) (λ k. cc) (λ k. cc))
handle-by_number scause sepc (some machine_external_interrupt) h e =
    sym (by_number-other scause sepc _ e (λ k. cc) (λ k. cc) (λ k. cc))
handle-by_number scause sepc (some instruction_address_misaligned) h e =
    sym (by_number-other scause sepc _ e (λ k. cc) (λ k. cc) (λ k. cc))
handle-by_number scause sepc (some instruction_access_fault) h e =
    sym (by_number-other scause sepc _ e (λ k. cc) (λ k. cc) (λ k. cc))
handle-by_number scause sepc (some illegal_instruction) h e =
    sym (by_number-other scause sepc _ e (λ k. cc) (λ k. cc) (λ k. cc))
handle-by_number scause sepc (some breakpoint) h e =
    sym (by_number-other scause sepc _ e (λ k. cc) (λ k. cc) (λ k. cc))
handle-by_number scause sepc (some load_address_misaligned) h e =
    sym (by_number-other scause sepc _ e (λ k. cc) (λ k. cc) (λ k. cc))
handle-by_number scause sepc (some load_access_fault) h e =
    sym (by_number-other scause sepc _ e (λ k. cc) (λ k. cc) (λ k. cc))
handle-by_number scause sepc (some store_address_misaligned) h e =
    sym (by_number-other scause sepc _ e (λ k. cc) (λ k. cc) (λ k. cc))
handle-by_number scause sepc (some store_access_fault) h e =
    sym (by_number-other scause sepc _ e (λ k. cc) (λ k. cc) (λ k. cc))
handle-by_number scause sepc (some user_mode_environment_call) h e =
    sym (by_number-other scause sepc _ e (λ k. cc) (λ k. cc) (λ k. cc))
handle-by_number scause sepc (some supervisor_mode_environment_call) h e =
    sym (by_number-other scause sepc _ e (λ k. cc) (λ k. cc) (λ k. cc))
handle-by_number scause sepc (some machine_mode_environment_call) h e =
    sym (by_number-other scause sepc _ e (λ k. cc) (λ k. cc) (λ k. cc))
handle-by_number scause sepc (some instruction_page_fault) h e =
    sym (by_number-other scause sepc _ e (λ k. cc) (λ k. cc) (λ k. cc))
handle-by_number scause sepc (some load_page_fault) h e =
    sym (by_number-other scause sepc _ e (λ k. cc) (λ k. cc) (λ k. cc))
handle-by_number scause sepc (some store_page_fault) h e =
    sym (by_number-other scause sepc _ e (λ k. cc) (λ k. cc) (λ k. cc))
handle-by_number scause sepc (some reserved) h e =
    sym (by_number-other scause sepc _ e (λ k. cc) (λ k. cc) (λ k. cc))

-- On a 64-bit cause the handler returns the `sepc` that it was given exactly for the supervisor's external and timer
-- interrupts, keeps the hart spinning exactly for the software interrupt, and panics for every other number.
pub trap_handler-by_number :
    (scause stval sepc : ℕ)
    → scause < 2 ^ 64
    → trap_handler scause stval sepc ≡ by_number scause sepc
unfolding trap_handler
trap_handler-by_number scause stval sepc h = handle-by_number scause sepc (from_cause scause) h refl
