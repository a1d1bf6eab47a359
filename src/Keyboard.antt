-- ===== src/Keyboard.antt =====
-- Kernel/drivers/keyBoardDriver.c: the circular buffer, the modifier keys and the translation of scan
-- codes. Characters are their codes, all below 128.
pub mod Ring
pub mod Keys
pub mod Handler
use so_tp.Base.{
  ℕ, ◌+◌, ◌-◌, ◌%◌, Bool, true, false, ◌&&◌, ◌||◌, not, List, [], ◌∷◌, ◌==◌, ◌!=◌, ltb, leb,
  if◌then◌else◌, update, get_or, pos,
}
use so_tp.Semaphore.{SemaphoreTable, sem_alloc, sem_set_by_id, sem_signal_by_id}

-- `TCircleBuffer`; `buffer` has the indices 0 to 255.
pub record CircleBuffer : Type 0 where
  pub buffer : ℕ → ℕ
  pub read_index : ℕ
  pub write_index : ℕ
  pub size : ℕ

-- The file-level variables. A byte of `key_states` is 0 or 1.
pub record Keyboard : Type 0 where
  pub active_shift : Bool
  pub active_caps_lock : Bool
  pub active_ctrl : Bool
  pub key_states : ℕ → ℕ
  pub buffer : CircleBuffer
  pub kbd_sem_id : ℕ

abbrev pub buffer_size : ℕ
buffer_size = 256

unfoldable pub buffer_full : CircleBuffer → Bool
buffer_full b = b.size == buffer_size

unfoldable pub buffer_empty : CircleBuffer → Bool
buffer_empty b = b.size == 0

-- The buffer behind the write of a character.
unfoldable pub put_char : CircleBuffer → ℕ → CircleBuffer
put_char b c = record {
  buffer = update b.buffer b.write_index c;
  read_index = b.read_index;
  write_index = (b.write_index + 1) % buffer_size;
  size = b.size + 1;
}

unfoldable pub buffer_push : CircleBuffer → ℕ → CircleBuffer × Bool
buffer_push b c = if buffer_full b then (b, false) else (put_char b c, true)

-- The buffer without its oldest character.
unfoldable pub drop_char : CircleBuffer → CircleBuffer
drop_char b = record {
  buffer = b.buffer;
  read_index = (b.read_index + 1) % buffer_size;
  write_index = b.write_index;
  size = b.size - 1;
}

unfoldable pub buffer_pop : CircleBuffer → CircleBuffer × ℕ
buffer_pop b = if buffer_empty b then (b, 0) else (drop_char b, b.buffer b.read_index)

unfoldable pub keyboard_read_getchar : Keyboard → Keyboard × ℕ
keyboard_read_getchar k = let (b, c) = buffer_pop k.buffer in (record k { buffer = b }, c)

unfoldable pub buffer_clear : CircleBuffer → CircleBuffer
buffer_clear b = record { buffer = b.buffer; read_index = 0; write_index = 0; size = 0 }

unfoldable pub keyboard_init : Keyboard → SemaphoreTable → Keyboard × SemaphoreTable
keyboard_init k t =
    let (t', id) = sem_alloc t 0 in
    if k.kbd_sem_id == 0 then (record k { kbd_sem_id = id }, t') else (k, t)

unfoldable pub keyboard_clear_buffer : Keyboard → SemaphoreTable → Keyboard × SemaphoreTable
keyboard_clear_buffer k t = (
  record k { buffer = buffer_clear k.buffer },
  if k.kbd_sem_id != 0 then (sem_set_by_id t k.kbd_sem_id (pos 0)).0 else t,
)

-- `buffer_push(c)` in the interrupt handler, with the signal that follows a character stored.
unfoldable pub push_character : Keyboard → SemaphoreTable → ℕ → Keyboard × SemaphoreTable
push_character k t c =
    let (b, stored) = buffer_push k.buffer c in
    (
      record k { buffer = b },
      if stored && k.kbd_sem_id != 0 then (sem_signal_by_id t k.kbd_sem_id).0 else t,
    )

abbrev pub release_offset : ℕ
release_offset = 0x80

abbrev pub shift_l : ℕ
shift_l = 0x2A

abbrev pub shift_r : ℕ
shift_r = 0x36

abbrev pub ctrl_l : ℕ
ctrl_l = 0x1D

abbrev pub ctrl_l_release : ℕ
ctrl_l_release = 0x9D

abbrev pub caps_lock : ℕ
caps_lock = 0x3A

abbrev pub key_count : ℕ
key_count = 0x54

unfoldable pub update_flags : Keyboard → ℕ → Keyboard
update_flags k scancode =
    if scancode == ctrl_l
    then record k { active_ctrl = true }
    else if scancode == ctrl_l_release
    then record k { active_ctrl = false }
    else if scancode == shift_l || scancode == shift_r
    then record k { active_shift = true }
    else if scancode == shift_l + release_offset || scancode == shift_r + release_offset
    then record k { active_shift = false }
    else if scancode == caps_lock
    then record k { active_caps_lock = not k.active_caps_lock }
    else k

-- `scancode & RELEASE_OFFSET` of a byte, and the write of `key_states`.
unfoldable pub record_key : Keyboard → ℕ → Keyboard
record_key k scancode =
    if leb release_offset scancode
    then record k { key_states = update k.key_states (scancode - release_offset) 0 }
    else record k { key_states = update k.key_states scancode 1 }

unfoldable pub is_key_pressed : Keyboard → ℕ → ℕ
is_key_pressed k scancode = k.key_states scancode

-- The two columns of `scancode_table`; the rows from 58 on are 0.
abbrev pub plain_keys : List ℕ
plain_keys =
    0 ∷ 27 ∷ 49 ∷ 50 ∷ 51 ∷ 52 ∷ 53 ∷ 54 ∷ 55 ∷ 56 ∷ 57 ∷ 48 ∷ 45 ∷ 61 ∷ 8 ∷ 9 ∷ 113 ∷ 119 ∷ 101
    ∷ 114 ∷ 116 ∷ 121 ∷ 117 ∷ 105 ∷ 111 ∷ 112 ∷ 91 ∷ 93 ∷ 10 ∷ 0 ∷ 97 ∷ 115 ∷ 100 ∷ 102 ∷ 103 ∷ 104
    ∷ 106 ∷ 107 ∷ 108 ∷ 59 ∷ 39 ∷ 124 ∷ 0 ∷ 92 ∷ 122 ∷ 120 ∷ 99 ∷ 118 ∷ 98 ∷ 110 ∷ 109 ∷ 44 ∷ 46
    ∷ 47 ∷ 0 ∷ 0 ∷ 0 ∷ 32 ∷ []

abbrev pub shifted_keys : List ℕ
shifted_keys =
    0 ∷ 27 ∷ 33 ∷ 64 ∷ 35 ∷ 36 ∷ 37 ∷ 94 ∷ 38 ∷ 42 ∷ 40 ∷ 41 ∷ 95 ∷ 43 ∷ 8 ∷ 9 ∷ 81 ∷ 87 ∷ 69 ∷ 82
    ∷ 84 ∷ 89 ∷ 85 ∷ 73 ∷ 79 ∷ 80 ∷ 123 ∷ 125 ∷ 10 ∷ 0 ∷ 65 ∷ 83 ∷ 68 ∷ 70 ∷ 71 ∷ 72 ∷ 74 ∷ 75 ∷ 76
    ∷ 58 ∷ 34 ∷ 124 ∷ 0 ∷ 92 ∷ 90 ∷ 88 ∷ 67 ∷ 86 ∷ 66 ∷ 78 ∷ 77 ∷ 60 ∷ 62 ∷ 63 ∷ 0 ∷ 0 ∷ 0 ∷ 32 ∷ []

unfoldable pub table_entry : Bool → ℕ → ℕ
table_entry shift scancode =
    if shift then get_or shifted_keys scancode 0 else get_or plain_keys scancode 0

-- `if (activeCapsLock && c >= 'a' && c <= 'z') c -= 32;`
unfoldable pub capitalise : Bool → ℕ → ℕ
capitalise caps c = if caps && leb 97 c && leb c 122 then c - 32 else c

-- The scan codes of the cases that answer 0: 1, the arrows, ESC and SC_DELETE.
unfoldable pub is_silent : ℕ → Bool
is_silent scancode =
    scancode == 1
    || scancode == 0x48
    || scancode == 0x50
    || scancode == 0x4B
    || scancode == 0x4D
    || scancode == 0x1B
    || scancode == 0x53

unfoldable pub sc_to_ascii : Keyboard → ℕ → ℕ
sc_to_ascii k scancode =
    if is_silent scancode
    then 0
    else if ltb scancode key_count
    then capitalise k.active_caps_lock (table_entry k.active_shift scancode)
    else 0
