-- ===== src/Keyboard/Ring.antt =====
-- The keyboard's ring buffer (src/Drivers/keyboard.c) is a queue of at most 63 keys.
use mini_user_os.Prelude.{
  ℕ, zero, suc, ◌+◌, ◌-◌, ◌%◌, ◌<◌, ◌≡◌, ◌≢◌, refl, sym, ap, ◌∙◌, ◌==◌, ltb, if◌then◌else◌, Option,
  none, some, List, [], ◌∷◌, ◌++◌, arith, length, get_or, set, length-set, get_or-set_self,
  get_or-set_ne, Bool-cases, ==_iff, ◌⊎◌, inl, inr,
}
use mathlib.Core.Path.{ap₂, subst}
use mathlib.Core.Bool.{false≢true}
use mini_user_os.Keyboard.{
  KeyboardKey, Driver, zero_key, keyboard_buffer_size, buffer_push, buffer_pop,
}

pub record IsRing (d : Driver) : Type 0 where
  pub full_size : length d.key_buffer ≡ keyboard_buffer_size
  pub head_in : d.buffer_head < keyboard_buffer_size
  pub tail_in : d.buffer_tail < keyboard_buffer_size

abbrev pub next : ℕ → ℕ
next i = (i + 1) % keyboard_buffer_size

-- The number of keys between the tail and the head.
abbrev pub held : Driver → ℕ
held d = (d.buffer_head + keyboard_buffer_size - d.buffer_tail) % keyboard_buffer_size

-- The `n` keys from the index `t` on, going round.
abbrev pub keys_from : List KeyboardKey → ℕ → ℕ → List KeyboardKey
keys_from buf t zero = []
keys_from buf t (suc n) = get_or buf t zero_key ∷ keys_from buf (next t) n

abbrev pub queue_of : Driver → List KeyboardKey
queue_of d = keys_from d.key_buffer d.buffer_tail (held d)

length-keys_from : (buf : List KeyboardKey) (t n : ℕ) → length (keys_from buf t n) ≡ n
length-keys_from buf t zero = refl
length-keys_from buf t (suc n) = ap suc (length-keys_from buf (next t) n)

-- The bounded queue.
abbrev pub queue_push : KeyboardKey → List KeyboardKey → List KeyboardKey
queue_push key q = if ltb (length q) 63 then q ++ (key ∷ []) else q

abbrev pub queue_pop : List KeyboardKey → Option KeyboardKey × List KeyboardKey
queue_pop [] = (none, [])
queue_pop (key ∷ q) = (some key, q)

apart : (t k : ℕ) → t < 64 → suc k < 64 → (t + suc k) % 64 ≢ t
apart t k h j e = absurd (omega (arith, e))

-- A write past the last key adds it.
keys_from-set :
    (buf : List KeyboardKey) (key : KeyboardKey) (n t i : ℕ)
    → length buf ≡ 64
    → t < 64
    → n < 64
    → i ≡ (t + n) % 64
    → keys_from (set buf i key) t (suc n) ≡ keys_from buf t n ++ (key ∷ [])
keys_from-set buf key zero t i size h k e =
    ap (λ a. a ∷ [])
      (ap (λ j. get_or (set buf j key) t zero_key) here
        ∙ get_or-set_self buf t key zero_key (omega (arith, size)))
  where
    here : i ≡ t
    here = omega (arith, e)
keys_from-set buf key (suc n) t i size h k e =
    ap₂ ◌∷◌ (get_or-set_ne buf i t key zero_key (λ g. apart t n h k (sym e ∙ g)))
      (keys_from-set buf key n (next t) i size (omega arith) (omega arith) (omega (arith, e)))

pushed : KeyboardKey → Driver → Driver
pushed key d = record d {
  key_buffer = set d.key_buffer d.buffer_head key;
  buffer_head = next d.buffer_head;
}

-- The two ways through `buffer_push`.
buffer_push-cases :
    (key : KeyboardKey) (d : Driver)
    → ((next d.buffer_head ≡ d.buffer_tail) × (buffer_push key d ≡ d))
      ⊎ (next d.buffer_head ≢ d.buffer_tail) × (buffer_push key d ≡ pushed key d)
unfolding buffer_push pushed
buffer_push-cases key d = elim (Bool-cases (next d.buffer_head == d.buffer_tail)) [
  | inl full ↦ inl (omega (arith, (==_iff _ _).0 full), rw full)
  | inr room ↦ inr (λ e. false≢true (sym room ∙ (==_iff _ _).1 e), rw room)
]

pub push-IsRing : (key : KeyboardKey) (d : Driver) → IsRing d → IsRing (buffer_push key d)
unfolding pushed
push-IsRing key d r = elim (buffer_push-cases key d) [
  | inl (full, e) ↦ subst IsRing (sym e) r
  | inr (room, e) ↦ subst IsRing (sym e) record {
    full_size = length-set d.key_buffer d.buffer_head key ∙ r.full_size;
    head_in = omega arith;
    tail_in = r.tail_in;
  }
]

length-queue_of : (d : Driver) → length (queue_of d) ≡ held d
length-queue_of d = length-keys_from d.key_buffer d.buffer_tail (held d)

queue_push-full : (key : KeyboardKey) (q : List KeyboardKey) → length q ≡ 63 → queue_push key q ≡ q
queue_push-full key q h = ground arith

queue_push-room :
    (key : KeyboardKey) (q : List KeyboardKey) → length q < 63 → queue_push key q ≡ q ++ (key ∷ [])
queue_push-room key q h = ground arith

held-push :
    (d : Driver)
    → IsRing d
    → next d.buffer_head ≢ d.buffer_tail
    → (next d.buffer_head + 64 - d.buffer_tail) % 64 ≡ suc (held d)
held-push d r room = omega (arith, r.head_in, r.tail_in, room)

held-pop :
    (d : Driver)
    → IsRing d
    → d.buffer_head ≢ d.buffer_tail
    → held d ≡ suc ((d.buffer_head + 64 - next d.buffer_tail) % 64)
held-pop d r more = omega (arith, r.head_in, r.tail_in, more)

held-empty : (d : Driver) → IsRing d → d.buffer_head ≡ d.buffer_tail → held d ≡ 0
held-empty d r empty = omega (arith, r.head_in, r.tail_in, empty)

-- `buffer_push` adds the key to the queue when it holds fewer than 63, and loses it otherwise.
pub push_refines :
    (key : KeyboardKey) (d : Driver)
    → IsRing d
    → queue_of (buffer_push key d) ≡ queue_push key (queue_of d)
unfolding pushed
push_refines key d r = elim (buffer_push-cases key d) [
  | inl (full, e) ↦
      ap queue_of e
      ∙ sym (
          queue_push-full key (queue_of d)
            (length-queue_of d ∙ omega (arith, full, r.head_in, r.tail_in)))
  | inr (room, e) ↦
      let more = held-push d r room in
      ap queue_of e
      ∙ ap (keys_from (set d.key_buffer d.buffer_head key) d.buffer_tail) more
      ∙ keys_from-set d.key_buffer key (held d) d.buffer_tail d.buffer_head r.full_size r.tail_in
          (omega (arith, r.head_in, r.tail_in)) (omega (arith, r.head_in, r.tail_in))
      ∙ sym (
          queue_push-room key (queue_of d)
            (omega (arith, length-queue_of d, more, r.head_in, r.tail_in, room)))
]

buffer_pop-cases :
    (d : Driver)
    → ((d.buffer_head ≡ d.buffer_tail) × (buffer_pop d ≡ (none, d)))
      ⊎ (d.buffer_head ≢ d.buffer_tail)
        × (buffer_pop d ≡ (
          some (get_or d.key_buffer d.buffer_tail zero_key),
          record d { buffer_tail = next d.buffer_tail },
        ))
unfolding buffer_pop
buffer_pop-cases d = elim (Bool-cases (d.buffer_head == d.buffer_tail)) [
  | inl empty ↦ inl (omega (arith, (==_iff _ _).0 empty), rw empty)
  | inr more ↦ inr (λ e. false≢true (sym more ∙ (==_iff _ _).1 e), rw more)
]

pub pop-IsRing : (d : Driver) → IsRing d → IsRing (buffer_pop d).1
pop-IsRing d r = elim (buffer_pop-cases d) [
  | inl (empty, e) ↦ subst (λ x. IsRing x.1) (sym e) r
  | inr (more, e) ↦
      subst (λ x. IsRing x.1) (sym e)
        record { full_size = r.full_size; head_in = r.head_in; tail_in = omega arith }
]

-- `buffer_pop` returns the queue's first key and leaves the rest, or nothing from an empty queue.
pub pop_refines :
    (d : Driver) → IsRing d → ((buffer_pop d).0, queue_of (buffer_pop d).1) ≡ queue_pop (queue_of d)
pop_refines d r = elim (buffer_pop-cases d) [
  | inl (empty, e) ↦
      let n = held-empty d r empty in
      ap (λ x. (x.0, queue_of x.1)) e
      ∙ ap (λ k. (none, keys_from d.key_buffer d.buffer_tail k)) n
      ∙ sym (ap (λ k. queue_pop (keys_from d.key_buffer d.buffer_tail k)) n)
  | inr (more, e) ↦
      ap (λ x. (x.0, queue_of x.1)) e
      ∙ sym (ap (λ k. queue_pop (keys_from d.key_buffer d.buffer_tail k)) (held-pop d r more))
]
