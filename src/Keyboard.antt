-- ===== src/Keyboard.antt =====
-- The keyboard driver, src/Drivers/keyboard.c and include/Drivers/keyboard.h. The ring buffer is a list of 64 keys; `inb` is the
-- stream of bytes that the controller delivers.
use mini_user_os.Prelude.{
  ℕ, ◌+◌, ◌*◌, ◌-◌, ◌/◌, ◌%◌, Bool, true, false, not, ◌||◌, ◌&&◌, ◌==◌, leb, ltb, if◌then◌else◌,
  Option, none, some, List, [], ◌∷◌, length, get_or, set, replicate, bit_and,
}
pub mod Ring
pub mod Events
mod Tests

abbrev pub keyboard_buffer_size : ℕ
keyboard_buffer_size = 64

pub record KeyboardKey : Type 0 where
  pub scancode : ℕ
  pub ascii : ℕ
  pub pressed : Bool
  pub shift_held : Bool
  pub ctrl_held : Bool
  pub alt_held : Bool
  pub capslock_on : Bool

pub record KeyboardState : Type 0 where
  pub left_shift : Bool
  pub right_shift : Bool
  pub left_ctrl : Bool
  pub right_ctrl : Bool
  pub left_alt : Bool
  pub right_alt : Bool
  pub capslock : Bool
  pub numlock : Bool
  pub scrolllock : Bool

-- The driver's static variables, with the number of interrupts acknowledged.
pub record Driver : Type 0 where
  pub key_buffer : List KeyboardKey
  pub buffer_head : ℕ
  pub buffer_tail : ℕ
  pub keyboard_state : KeyboardState
  pub eois : ℕ

-- What a static array of keys holds at the start.
abbrev pub zero_key : KeyboardKey
zero_key = record {
  scancode = 0;
  ascii = 0;
  pressed = false;
  shift_held = false;
  ctrl_held = false;
  alt_held = false;
  capslock_on = false;
}

abbrev pub zero_state : KeyboardState
zero_state = record {
  left_shift = false;
  right_shift = false;
  left_ctrl = false;
  right_ctrl = false;
  left_alt = false;
  right_alt = false;
  capslock = false;
  numlock = false;
  scrolllock = false;
}

abbrev pub start : Driver
start = record {
  key_buffer = replicate keyboard_buffer_size zero_key;
  buffer_head = 0;
  buffer_tail = 0;
  keyboard_state = zero_state;
  eois = 0;
}

-- The codes of the characters, as the tables list them.
abbrev pub scancode_to_ascii : List ℕ
scancode_to_ascii =
    0 ∷ 0 ∷ 49 ∷ 50 ∷ 51 ∷ 52 ∷ 53 ∷ 54 ∷ 55 ∷ 56 ∷ 57 ∷ 48 ∷ 45 ∷ 61 ∷ 0 ∷ 9 ∷ 113 ∷ 119 ∷ 101
    ∷ 114 ∷ 116 ∷ 121 ∷ 117 ∷ 105 ∷ 111 ∷ 112 ∷ 91 ∷ 93 ∷ 10 ∷ 0 ∷ 97 ∷ 115 ∷ 100 ∷ 102 ∷ 103 ∷ 104
    ∷ 106 ∷ 107 ∷ 108 ∷ 59 ∷ 39 ∷ 96 ∷ 0 ∷ 92 ∷ 122 ∷ 120 ∷ 99 ∷ 118 ∷ 98 ∷ 110 ∷ 109 ∷ 44 ∷ 46 ∷ 47
    ∷ 0 ∷ 42 ∷ 0 ∷ 32 ∷ 0 ∷ 0 ∷ 0 ∷ 0 ∷ 0 ∷ 0 ∷ 0 ∷ 0 ∷ 0 ∷ 0 ∷ 0 ∷ 0 ∷ 0 ∷ 55 ∷ 56 ∷ 57 ∷ 45 ∷ 52
    ∷ 53 ∷ 54 ∷ 43 ∷ 49 ∷ 50 ∷ 51 ∷ 48 ∷ 46 ∷ 0 ∷ 0 ∷ 0 ∷ 0 ∷ 0 ∷ 0 ∷ 0 ∷ 0 ∷ 0 ∷ 0 ∷ 0 ∷ 0 ∷ 0 ∷ 0
    ∷ 0 ∷ 0 ∷ 0 ∷ 0 ∷ 0 ∷ 0 ∷ 0 ∷ 0 ∷ 0 ∷ 0 ∷ 0 ∷ 0 ∷ 0 ∷ 0 ∷ 0 ∷ 0 ∷ 0 ∷ 0 ∷ 0 ∷ 0 ∷ 0 ∷ 0 ∷ 0 ∷ 0
    ∷ 0 ∷ 0 ∷ 0 ∷ 0 ∷ 0 ∷ 0 ∷ []

abbrev pub scancode_to_ascii_shift : List ℕ
scancode_to_ascii_shift =
    0 ∷ 0 ∷ 33 ∷ 64 ∷ 35 ∷ 36 ∷ 37 ∷ 94 ∷ 38 ∷ 42 ∷ 40 ∷ 41 ∷ 95 ∷ 43 ∷ 0 ∷ 9 ∷ 81 ∷ 87 ∷ 69 ∷ 82
    ∷ 84 ∷ 89 ∷ 85 ∷ 73 ∷ 79 ∷ 80 ∷ 123 ∷ 125 ∷ 10 ∷ 0 ∷ 65 ∷ 83 ∷ 68 ∷ 70 ∷ 71 ∷ 72 ∷ 74 ∷ 75 ∷ 76
    ∷ 58 ∷ 34 ∷ 126 ∷ 0 ∷ 124 ∷ 90 ∷ 88 ∷ 67 ∷ 86 ∷ 66 ∷ 78 ∷ 77 ∷ 60 ∷ 62 ∷ 63 ∷ 0 ∷ 42 ∷ 0 ∷ 32
    ∷ 0 ∷ 0 ∷ 0 ∷ 0 ∷ 0 ∷ 0 ∷ 0 ∷ 0 ∷ 0 ∷ 0 ∷ 0 ∷ 0 ∷ 0 ∷ 55 ∷ 56 ∷ 57 ∷ 45 ∷ 52 ∷ 53 ∷ 54 ∷ 43 ∷ 49
    ∷ 50 ∷ 51 ∷ 48 ∷ 46 ∷ 0 ∷ 0 ∷ 0 ∷ 0 ∷ 0 ∷ 0 ∷ 0 ∷ 0 ∷ 0 ∷ 0 ∷ 0 ∷ 0 ∷ 0 ∷ 0 ∷ 0 ∷ 0 ∷ 0 ∷ 0 ∷ 0
    ∷ 0 ∷ 0 ∷ 0 ∷ 0 ∷ 0 ∷ 0 ∷ 0 ∷ 0 ∷ 0 ∷ 0 ∷ 0 ∷ 0 ∷ 0 ∷ 0 ∷ 0 ∷ 0 ∷ 0 ∷ 0 ∷ 0 ∷ 0 ∷ 0 ∷ 0 ∷ 0 ∷ 0
    ∷ 0 ∷ []

unfoldable pub is_letter : ℕ → Bool
is_letter c = (leb 97 c && leb c 122) || (leb 65 c && leb c 90)

unfoldable pub to_upper : ℕ → ℕ
to_upper c = if leb 97 c && leb c 122 then c - 97 + 65 else c

unfoldable pub to_lower : ℕ → ℕ
to_lower c = if leb 65 c && leb c 90 then c - 65 + 97 else c

unfoldable pub buffer_push : KeyboardKey → Driver → Driver
buffer_push key d =
    let next_head = (d.buffer_head + 1) % keyboard_buffer_size in
    if not (next_head == d.buffer_tail)
    then record d { key_buffer = set d.key_buffer d.buffer_head key; buffer_head = next_head }
    else d

unfoldable pub buffer_pop : Driver → Option KeyboardKey × Driver
buffer_pop d = if d.buffer_head == d.buffer_tail then (none, d) else (
  some (get_or d.key_buffer d.buffer_tail zero_key),
  record d { buffer_tail = (d.buffer_tail + 1) % keyboard_buffer_size },
)

unfoldable pub update_modifiers : ℕ → Bool → KeyboardState → KeyboardState
update_modifiers scancode pressed k =
    if scancode == 0x2A
    then record k { left_shift = pressed }
    else if scancode == 0x36
    then record k { right_shift = pressed }
    else if scancode == 0x1D
    then record k { left_ctrl = pressed }
    else if scancode == 0x38
    then record k { left_alt = pressed }
    else if scancode == 0x3A
    then (if pressed then record k { capslock = not k.capslock } else k)
    else if scancode == 0x45
    then (if pressed then record k { numlock = not k.numlock } else k)
    else if scancode == 0x46
    then (if pressed then record k { scrolllock = not k.scrolllock } else k)
    else k

unfoldable pub is_shift_pressed : KeyboardState → Bool
is_shift_pressed k = k.left_shift || k.right_shift

unfoldable pub is_ctrl_pressed : KeyboardState → Bool
is_ctrl_pressed k = k.left_ctrl || k.right_ctrl

unfoldable pub is_alt_pressed : KeyboardState → Bool
is_alt_pressed k = k.left_alt || k.right_alt

unfoldable pub get_ascii : ℕ → KeyboardState → ℕ
get_ascii scancode k =
    let shift = is_shift_pressed k in
    let c =
      if shift
      then get_or scancode_to_ascii_shift scancode 0
      else get_or scancode_to_ascii scancode 0 in
    if leb 128 scancode
    then 0
    else if k.capslock && is_letter c
    then (if shift then to_lower c else to_upper c)
    else c

-- `while (inb(0x64) & 0x01) inb(0x60);`: the controller's answers to `inb(0x64)` are read from a list;
-- what is left of it is returned.
unfoldable pub drain : List ℕ → List ℕ
drain [] = []
drain (status ∷ rest) = let more = drain rest in if bit_and status 0x01 == 0 then rest else more

-- The state is reset and the controller's bytes are dropped.
unfoldable pub keyboard_driver_init : List ℕ → Driver → List ℕ × Driver
keyboard_driver_init statuses d =
    (drain statuses, record d { buffer_head = 0; buffer_tail = 0; keyboard_state = zero_state })

-- The key that the byte `scancode` of the port 0x60 stands for.
unfoldable pub key_of : ℕ → KeyboardState → KeyboardKey
key_of byte k =
    let pressed = bit_and byte 0x80 == 0 in
    let key_scancode = bit_and byte 0x7F in
    record {
      scancode = key_scancode;
      ascii = if pressed then get_ascii key_scancode k else 0;
      pressed = pressed;
      shift_held = is_shift_pressed k;
      ctrl_held = is_ctrl_pressed k;
      alt_held = is_alt_pressed k;
      capslock_on = k.capslock;
    }

unfoldable pub keyboard_driver_handler : ℕ → Driver → Driver
keyboard_driver_handler byte d =
    let pressed = bit_and byte 0x80 == 0 in
    let k = update_modifiers (bit_and byte 0x7F) pressed d.keyboard_state in
    let d' = record d { keyboard_state = k } in
    let d2 = if pressed then buffer_push (key_of byte k) d' else d' in
    record d2 { eois = d2.eois + 1 }

unfoldable pub try_get_key : Driver → Option KeyboardKey × Driver
try_get_key d = buffer_pop d

unfoldable pub keyboard_has_key : Driver → Bool
keyboard_has_key d = not (d.buffer_head == d.buffer_tail)

unfoldable pub keyboard_clear_buffer : Driver → Driver
keyboard_clear_buffer d = record d { buffer_head = 0; buffer_tail = 0 }
