-- ===== src/Console/Cursor.antt =====
-- The console's cursor (src/Initialize/baseConsole.c) stays on the screen.
use mini_user_os.Prelude.{
  ℕ, ◌+◌, ◌-◌, ◌<◌, ◌≤◌, ◌≡◌, inl, inr, refl, Bool, true, false, ◌||◌, ◌==◌, leb, ltb,
  if◌then◌else◌, List, [], ◌∷◌, arith, Bool-cases,
}
use mini_user_os.Console.{
  Screen, Console, word32, add32, con_tab, get_cols, get_rows, newline, wrap, draw_at, put_tab,
  put_back, put_default, put_any, console_putchar, console_print, put_all,
}

-- The cursor is at a character of the screen.
abbrev pub OnScreen : Screen → Console → Type 0
OnScreen g k = (k.con_x < get_cols g) × (k.con_y < get_rows g)

-- The screen has room for a character, and its size fits in 32 bits.
abbrev pub HasRoom : Screen → Type 0
HasRoom g =
    (0 < get_cols g) × (get_cols g + con_tab ≤ word32) × (0 < get_rows g) × (get_rows g < word32)

module _ (g : Screen) (room : HasRoom g) where
  newline-OnScreen :
      (k : Console) → k.con_y < get_rows g → k.avalible_output ≡ true → OnScreen g (newline g k)
  unfolding newline
  newline-OnScreen k y on = rw on (elim (Bool-cases (leb (get_rows g) (add32 k.con_y 1))) [
    | inl last ↦ rw last (room.0, omega (arith, room.2, room.3))
    | inr more ↦ rw more (room.0, ground (arith, more))
  ])

  wrap-OnScreen :
      (k : Console) → k.con_y < get_rows g → k.avalible_output ≡ true → OnScreen g (wrap g k)
  unfolding wrap
  wrap-OnScreen k y on = elim (Bool-cases (leb (get_cols g) k.con_x)) [
    | inl full ↦ rw full (newline-OnScreen k y on)
    | inr within ↦ rw within (ground (arith, within), y)
  ]

  either_way :
      (b : Bool) (x y : Console)
      → (b ≡ true → OnScreen g x)
      → (b ≡ false → OnScreen g y)
      → OnScreen g (if b then x else y)
  either_way true x y f h = f refl
  either_way false x y f h = h refl

  put_default-OnScreen :
      (c : ℕ) (k : Console)
      → OnScreen g k
      → k.avalible_output ≡ true
      → OnScreen g (put_default g c k)
  unfolding put_default draw_at
  put_default-OnScreen c k at on =
      either_way (ltb c 32 || leb 128 c) k
        (wrap g (record (draw_at g c k) { con_x = add32 k.con_x 1 })) (λ e. at)
        (λ e. wrap-OnScreen _ at.1 on)

  put_back-OnScreen : (k : Console) → OnScreen g k → OnScreen g (put_back g k)
  unfolding put_back draw_at
  put_back-OnScreen k at =
      either_way (k.con_x == 0) k (draw_at g 32 (record k { con_x = k.con_x - 1 })) (λ e. at)
        (λ e. (omega (arith, at.0), at.1))

  put_tab-OnScreen :
      (k : Console) → OnScreen g k → k.avalible_output ≡ true → OnScreen g (put_tab g k)
  unfolding put_tab
  put_tab-OnScreen k at on = wrap-OnScreen _ at.1 on

  put_any-OnScreen :
      (c : ℕ) (k : Console) → OnScreen g k → k.avalible_output ≡ true → OnScreen g (put_any g c k)
  unfolding put_any
  put_any-OnScreen c k at on = elim (Bool-cases (c == 10)) [
    | inl e ↦ rw e (newline-OnScreen k at.1 on)
    | inr n ↦ rw n (elim (Bool-cases (c == 13)) [
      | inl e ↦ rw e (room.0, at.1)
      | inr n2 ↦ rw n2 (elim (Bool-cases (c == 9)) [
        | inl e ↦ rw e (put_tab-OnScreen k at on)
        | inr n3 ↦ rw n3 (elim (Bool-cases (c == 8)) [
          | inl e ↦ rw e (put_back-OnScreen k at)
          | inr n4 ↦ rw n4 (put_default-OnScreen c k at on)
        ])
      ])
    ])
  ]

  -- A character moves the cursor to a place on the screen, whatever it is.
  console_putchar-OnScreen :
      (c : ℕ) (k : Console) → OnScreen g k → OnScreen g (console_putchar g c k)
  unfolding console_putchar
  console_putchar-OnScreen c k at =
      either_way k.avalible_output (put_any g c k) k (λ on. put_any-OnScreen c k at on) (λ off. at)

  put_all-OnScreen : (str : List ℕ) (k : Console) → OnScreen g k → OnScreen g (put_all g str k)
  unfolding put_all
  put_all-OnScreen [] k at = at
  put_all-OnScreen (c ∷ cs) k at =
      put_all-OnScreen cs (console_putchar g c k) (console_putchar-OnScreen c k at)

  -- On a screen with room for a character, of at most 2 ^ 32 - 4 columns and fewer than 2 ^ 32 rows, and
  -- with the cursor on it, printing any string leaves the cursor on the screen.
  pub console_print-OnScreen :
      (str : List ℕ) (k : Console) → OnScreen g k → OnScreen g (console_print g str k)
  unfolding console_print
  console_print-OnScreen str k at =
      either_way k.avalible_output (put_all g str k) k (λ on. put_all-OnScreen str k at) (λ off. at)
