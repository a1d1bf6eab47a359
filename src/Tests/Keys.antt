-- ===== src/Tests/Keys.antt =====
-- A keyboard with two characters stored over the end of its buffer, and Caps Lock on.
use so_tp.Base.{◌≡◌, ◌⊎◌, refl, true, false, [], ◌∷◌, arith, length, ◌==◌, if◌then◌else◌}
use so_tp.Keyboard.{
  CircleBuffer, Keyboard, buffer_push, buffer_pop, sc_to_ascii, is_silent, table_entry, capitalise,
}
use so_tp.Keyboard.Ring.{IsRing, characters, buffer_push-IsRing, buffer_pop-IsRing}

abbrev two_characters : CircleBuffer
two_characters = record {
  buffer = λ i. if i == 255 then 104 else 105;
  read_index = 255;
  write_index = 1;
  size = 2;
}

two_characters-IsRing : IsRing two_characters
two_characters-IsRing = omega arith

abbrev pub caps_on : Keyboard
caps_on = record {
  active_shift = false;
  active_caps_lock = true;
  active_ctrl = false;
  key_states = λ i. 0;
  buffer = two_characters;
  kbd_sem_id = 1;
}

-- The key A.
key_a : sc_to_ascii caps_on 30 ≡ 65
unfolding sc_to_ascii is_silent table_entry capitalise
key_a = refl

buffer_push-IsRing_example :
    let (b', stored) = buffer_push two_characters 33 in
    IsRing b'
    × (((stored ≡ true) × (characters b' ≡ 104 ∷ 105 ∷ 33 ∷ []))
        ⊎ ((stored ≡ false) × (b' ≡ two_characters) × (length (characters two_characters) ≡ 256)))
buffer_push-IsRing_example = buffer_push-IsRing two_characters 33 two_characters-IsRing

buffer_pop-IsRing_example :
    let (b', c) = buffer_pop two_characters in
    IsRing b'
    × ((104 ∷ 105 ∷ [] ≡ c ∷ characters b')
        ⊎ ((c ≡ 0) × (b' ≡ two_characters) × (characters two_characters ≡ [])))
buffer_pop-IsRing_example = buffer_pop-IsRing two_characters two_characters-IsRing
