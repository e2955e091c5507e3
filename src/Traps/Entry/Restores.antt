-- ===== src/Traps/Entry/Restores.antt =====
-- The entry of the trap handler, from the interrupted code and back.
use novos.Prelude.{ℕ, ◌+◌, ◌^◌, ◌<◌, ◌≤◌, ◌≡◌, sym, ap, ◌∙◌, arith}
use novos.Traps.Entry.{
  Machine, sp, a0, scause, stval, sepc, run_all, call_handler, before_call, trap_entry,
}
use novos.Traps.Entry.Frame.{HasFrame, frame_word}
use novos.Traps.Entry.Loads.{restores}
use novos.Traps.Entry.Saves.{IsReady, frame_base, saves}

-- What the C calling convention and the handler, which has no use for the frame, keep.
abbrev pub Keeps : (Machine → Machine) → Type 0
Keeps handler =
    (m : Machine)
    → ((handler m).regs sp ≡ m.regs sp)
      × ((i : ℕ)
          → 0 < i
          → i ≤ 64
          → (handler m).mem (frame_word (m.regs sp) i) ≡ m.mem (frame_word (m.regs sp) i))

-- When the context of the hart is ready, the entry calls the handler with the address of a frame in which every
-- register stands at its field of `TrapFrame`, and with scause, stval and sepc; if the handler keeps the stack
-- pointer and the frame, all registers but x0 are back at the end, and sepc is what the handler returned.
pub trap_entry-restores :
    (handler : Machine → Machine) (m : Machine)
    → IsReady m
    → Keeps handler
    → let at_call = run_all handler before_call m in
      let m' = run_all handler trap_entry m in
      (((i : ℕ) → 0 < i → i ≤ 64 → at_call.mem (frame_word (at_call.regs a0) i) ≡ m.regs i)
        × (at_call.regs 11 ≡ m.regs scause)
        × (at_call.regs 12 ≡ m.regs stval)
        × (at_call.regs 13 ≡ m.regs sepc))
      × (((i : ℕ) → 0 < i → i ≤ 64 → m'.regs i ≡ m.regs i)
          × (m'.regs sepc ≡ (handler at_call).regs a0))
unfolding trap_entry
trap_entry-restores handler m ready keeps =
    let base = frame_base m in
    let at_call = run_all handler before_call m in
    let (frame, (at_frame, cause, value, pc)) = saves handler m ready in
    let fits : base + 512 ≤ 2 ^ 64 = omega (arith, ready.room, ready.end) in
    let returned = run_all handler call_handler at_call in
    let kept : HasFrame m.regs base returned = (
      (keeps at_call).0 ∙ frame.0,
      λ i some_reg small.
          ap (λ b. returned.mem (frame_word b i)) (sym frame.0)
          ∙ ((keeps at_call).1 i some_reg small
              ∙ (ap (λ b. at_call.mem (frame_word b i)) frame.0 ∙ frame.1 i some_reg small)),
    ) in
    let (next, back) = restores handler m.regs base fits returned kept in
    (
      (
        λ i some_reg small.
            ap (λ b. at_call.mem (frame_word b i)) at_frame ∙ frame.1 i some_reg small,
        cause,
        value,
        pc,
      ),
      (back, next),
    )
