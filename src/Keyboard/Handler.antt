-- ===== src/Keyboard/Handler.antt =====
-- Kernel/drivers/keyBoardDriver.c, `keyboard_interrupt_handler`.
use so_tp.Base.{
  ℕ, ◌≡◌, ◌≤◌, refl, inl, inr, true, false, ◌&&◌, ◌||◌, arith, ◌==◌, ◌!=◌, ltb, if◌then◌else◌,
  Bool-cases,
}
use so_tp.Semaphore.{Outcome, returns, parks}
use so_tp.Pipe.{PipeTable}
use so_tp.Lifecycle.{scheduler_kill_by_pid}
use so_tp.Lifecycle.Foreground.{scheduler_get_foreground_pid}
use so_tp.Keyboard.{
  Keyboard, update_flags, record_key, sc_to_ascii, push_character, keyboard_clear_buffer, is_silent,
}

-- A character is stored, and signalled.
unfoldable pub store_character : Keyboard → PipeTable → ℕ → Keyboard × PipeTable
store_character k t c = let (k', s) = push_character k t.sems c in (k', record t { sems = s })

-- Ctrl-C: the process in the foreground is killed, and the buffer cleared.
unfoldable pub interrupt_foreground : ℕ → Keyboard → PipeTable → Outcome (Keyboard × PipeTable)
interrupt_foreground now k t =
    let fg_pid = scheduler_get_foreground_pid t.sems.sched in
    if fg_pid == 0 then returns (k, t) true else elim (scheduler_kill_by_pid now t fg_pid) [
      | returns t' b ↦
          let (k', s) = keyboard_clear_buffer k t'.sems in returns (k', record t' { sems = s }) true
      | parks t' ↦ parks (k, t')
    ]

-- The handler behind the reading of the scan code, for the character `c` of the key.
unfoldable pub take_character : ℕ → Keyboard → PipeTable → ℕ → Outcome (Keyboard × PipeTable)
take_character now k t c =
    if k.active_ctrl && (c == 99 || c == 67)
    then interrupt_foreground now k t
    else if k.active_ctrl && (c == 100 || c == 68)
    then returns (store_character k t 4) true
    else if c != 0
    then returns (store_character k t c) true
    else returns (k, t) true

unfoldable pub keyboard_interrupt_handler :
    ℕ → Keyboard → PipeTable → ℕ → Outcome (Keyboard × PipeTable)
keyboard_interrupt_handler now k t scancode =
    let k' = record_key (update_flags k scancode) scancode in
    take_character now k' t (sc_to_ascii k' scancode)

ascii_released : (k : Keyboard) (scancode : ℕ) → 128 ≤ scancode → sc_to_ascii k scancode ≡ 0
unfolding sc_to_ascii
ascii_released k scancode h = elim (Bool-cases (is_silent scancode)) [
  | inl e ↦ rw e refl
  | inr e ↦ rw (e, beyond scancode h) refl
]
  where
    beyond : (n : ℕ) → 128 ≤ n → ltb n 0x54 ≡ false
    beyond n h = ground arith

none_taken :
    (now : ℕ) (k : Keyboard) (t : PipeTable) → take_character now k t 0 ≡ returns (k, t) true
unfolding take_character
none_taken now k t = elim (Bool-cases k.active_ctrl) [ inl e ↦ rw e refl | inr e ↦ rw e refl ]

-- The release of a key changes the modifiers and the state of the key alone: it stores no character,
-- signals no process and kills none.
pub handler_released :
    (now : ℕ) (k : Keyboard) (t : PipeTable) (scancode : ℕ)
    → 128 ≤ scancode
    → keyboard_interrupt_handler now k t scancode
      ≡ returns (record_key (update_flags k scancode) scancode, t) true
unfolding keyboard_interrupt_handler
handler_released now k t scancode h =
    rw (ascii_released (record_key (update_flags k scancode) scancode) scancode h)
      (none_taken now (record_key (update_flags k scancode) scancode) t)
