-- ===== src/Ioapic/Entries.antt =====
-- What the code of src/Root/apic.c leaves in the redirection table of an I/O APIC.
use mini_user_os.Prelude.{
  ℕ, zero, suc, ◌+◌, ◌*◌, ◌-◌, ◌%◌, ◌^◌, ◌<◌, ◌≤◌, ◌≡◌, ◌≢◌, refl, ap, ◌∙◌, arith, bit_and, bit_or,
  dec_lt,
}
use mini_user_os.Ioapic.Fields.{
  IsIoapic, entries_in, fields, entry_low, entry_high, fields-high, fields-mask, fields-unmask,
  fields-masked, max_redir_of-entries_in,
}
use mini_user_os.Ioapic.{
  Window, ioapic_regsel, ioapic_iowin, ioapic_ver, ioapic_int_masked, irq_timer, irq_keyboard,
  ioapic_write, ioapic_read, ioapic_mask_irq, ioapic_unmask_irq, mask_from, max_redir_of,
  route_irqs, ioapic_init,
}

module _ (w : Window) (reg : w.State → ℕ → ℕ) (d : IsIoapic w reg) where
  -- The register belongs to an entry that the table has, and its number fits into 8 bits.
  abbrev Entry : ℕ → w.State → Type 0
  Entry r s = (16 ≤ r) × (r < 16 + 2 * entries_in (reg s ioapic_ver)) × (r < 256)

  ioapic_write-at : (r v : ℕ) (s : w.State) → Entry r s → reg (ioapic_write w r v s) r ≡ fields r v
  unfolding ioapic_write
  ioapic_write-at r v s e =
      ap (λ k. reg (w.store ioapic_iowin v (w.store ioapic_regsel k s)) r) (omega (arith, e))
      ∙ d.written s r v e.0 e.1

  ioapic_write-other :
      (r v : ℕ) (s : w.State) (q : ℕ) → Entry r s → q ≢ r → reg (ioapic_write w r v s) q ≡ reg s q
  unfolding ioapic_write
  ioapic_write-other r v s q e ne =
      ap (λ k. reg (w.store ioapic_iowin v (w.store ioapic_regsel k s)) q) (omega (arith, e))
      ∙ d.kept s r v q e.0 e.1 ne

  -- The number of entries stays the same.
  ioapic_write-version :
      (r v : ℕ) (s : w.State) → Entry r s → reg (ioapic_write w r v s) ioapic_ver ≡ reg s ioapic_ver
  ioapic_write-version r v s e = ioapic_write-other r v s ioapic_ver e (omega (arith, e))

  ioapic_read-version : (s : w.State) → (ioapic_read w ioapic_ver s).0 ≡ reg s ioapic_ver
  unfolding ioapic_read
  ioapic_read-version s = d.read_version s

  ioapic_read-fields : (r : ℕ) (s : w.State) → Entry r s → fields r (ioapic_read w r s).0 ≡ reg s r
  unfolding ioapic_read
  ioapic_read-fields r s e =
      ap (λ k. fields r (w.load ioapic_iowin (w.store ioapic_regsel k s)).0) (omega (arith, e))
      ∙ d.read s r e.0 e.1

  ioapic_read-same : (r q : ℕ) (s : w.State) → reg (ioapic_read w r s).1 q ≡ reg s q
  unfolding ioapic_read
  ioapic_read-same r q s = d.read_same s (r % 256) q

  Entry-read : (r q : ℕ) (s : w.State) → Entry r s → Entry r (ioapic_read w q s).1
  Entry-read r q s e = (e.0, omega (arith, e, ioapic_read-same q ioapic_ver s), e.2)

  Entry-write : (r q v : ℕ) (s : w.State) → Entry q s → Entry r s → Entry r (ioapic_write w q v s)
  Entry-write r q v s o e = (e.0, omega (arith, e, ioapic_write-version q v s o), e.2)

  -- For an interrupt below 120 that the table has, `ioapic_mask_irq` sets the mask bit of its entry and
  -- `ioapic_unmask_irq` clears it; both change no other field that can be written, of this register or of
  -- another.
  pub ioapic_mask_irq-entry :
      (irq : ℕ) (s : w.State)
      → irq < 120
      → irq < entries_in (reg s ioapic_ver)
      → let masked = ioapic_mask_irq w irq s in
        let unmasked = ioapic_unmask_irq w irq s in
        (reg masked (entry_low irq) ≡ bit_or (reg s (entry_low irq)) ioapic_int_masked)
        × (reg unmasked (entry_low irq)
            ≡ bit_and (reg s (entry_low irq)) (0xFFFF_FFFF - ioapic_int_masked))
        × ((q : ℕ) → q ≢ entry_low irq → (reg masked q ≡ reg s q) × (reg unmasked q ≡ reg s q))
  unfolding ioapic_mask_irq ioapic_unmask_irq
  ioapic_mask_irq-entry irq s h has = (
    ioapic_write-at _ _ _ behind
        ∙ fields-mask irq _
        ∙ ap (λ v. bit_or v ioapic_int_masked) (ioapic_read-fields (entry_low irq) s here),
    ioapic_write-at _ _ _ behind
        ∙ fields-unmask irq _
        ∙ ap (λ v. bit_and v (0xFFFF_FFFF - ioapic_int_masked))
            (ioapic_read-fields (entry_low irq) s here),
    λ q ne. (
      ioapic_write-other _ _ _ q behind ne ∙ ioapic_read-same (entry_low irq) q s,
      ioapic_write-other _ _ _ q behind ne ∙ ioapic_read-same (entry_low irq) q s,
    ),
  )
    where
      here : Entry (entry_low irq) s
      here = (omega arith, omega arith, omega arith)

      behind : Entry (entry_low irq) (ioapic_read w (entry_low irq) s).1
      behind = Entry-read (entry_low irq) (entry_low irq) s here

  -- The rounds that are left write the low registers of entries that the table has.
  abbrev Rounds : ℕ → ℕ → w.State → Type 0
  Rounds left i s = (i + left ≤ 120) × (i + left ≤ entries_in (reg s ioapic_ver))

  round-Entry : (left i : ℕ) (s : w.State) → Rounds (suc left) i s → Entry (entry_low i) s
  round-Entry left i s r = (omega arith, omega (arith, r), omega (arith, r))

  Rounds-next :
      (left i v : ℕ) (s : w.State)
      → Rounds (suc left) i s
      → Rounds left (i + 1) (ioapic_write w (entry_low i) v s)
  Rounds-next left i v s r = (
    omega (arith, r),
    omega (arith, r, ioapic_write-version (entry_low i) v s (round-Entry left i s r)),
  )

  mask_from-below :
      (left i : ℕ) (s : w.State) (q : ℕ)
      → Rounds left i s
      → q < entry_low i
      → reg (mask_from w left i s) q ≡ reg s q
  unfolding mask_from
  mask_from-below zero i s q r lt = refl
  mask_from-below (suc left) i s q r lt =
      mask_from-below left (i + 1) _ q (Rounds-next left i _ s r) (omega arith)
      ∙ ioapic_write-other _ _ _ q (round-Entry left i s r) (omega arith)

  mask_from-entry :
      (left i : ℕ) (s : w.State) (irq : ℕ)
      → Rounds left i s
      → i ≤ irq
      → irq < i + left
      → reg (mask_from w left i s) (entry_low irq) ≡ bit_or ioapic_int_masked (0x20 + irq)
  unfolding mask_from
  mask_from-entry zero i s irq r low high = absurd (omega arith)
  mask_from-entry (suc left) i s irq r low high = elim (dec_lt i irq) [
    | yes more ↦
        mask_from-entry left (i + 1) _ irq (Rounds-next left i _ s r) (omega arith) (omega arith)
    | no here ↦
        let same : irq ≡ i = omega arith in
        rw same (
          mask_from-below left (i + 1) _ (entry_low i) (Rounds-next left i _ s r) (omega arith)
          ∙ ioapic_write-at _ _ _ (round-Entry left i s r)
          ∙ fields-masked i (0x20 + i) (omega (arith, r)))
  ]

  first-Entry : (r : ℕ) (s : w.State) → 16 ≤ r → r < 20 → Entry r s
  first-Entry r s low high = (low, omega (arith, d.two_entries s), omega arith)

  route_irqs-other :
      (cpu_id : ℕ) (s : w.State) (q : ℕ) → 20 ≤ q → reg (route_irqs w cpu_id s) q ≡ reg s q
  unfolding route_irqs
  route_irqs-other cpu_id s q h =
      ioapic_read-same _ q _
      ∙ ioapic_read-same _ q _
      ∙ past _ _ 16 (omega arith) (omega arith)
      ∙ past _ _ 17 (omega arith) (omega arith)
      ∙ past _ _ 18 (omega arith) (omega arith)
      ∙ past _ _ 19 (omega arith) (omega arith)
    where
      past :
          (v : ℕ) (t : w.State) (r : ℕ) → 16 ≤ r → r < 20 → reg (ioapic_write w r v t) q ≡ reg t q
      past v t r low high = ioapic_write-other r _ _ q (first-Entry r _ low high) (omega arith)

  route_irqs-entries :
      (cpu_id : ℕ) (s : w.State)
      → let s' = route_irqs w cpu_id s in
        (reg s' (entry_low irq_keyboard) ≡ 33)
        × (reg s' (entry_high irq_keyboard) ≡ cpu_id * 2 ^ 24)
        × (reg s' (entry_low irq_timer) ≡ 32)
        × (reg s' (entry_high irq_timer) ≡ cpu_id * 2 ^ 24)
  unfolding route_irqs
  route_irqs-entries cpu_id s = (
    readback 18
        ∙ past _ _ 16 18 (omega arith) (omega arith) (omega arith)
        ∙ past _ _ 17 18 (omega arith) (omega arith) (omega arith)
        ∙ put_in _ _ 18 (omega arith) (omega arith),
    readback 19
        ∙ past _ _ 16 19 (omega arith) (omega arith) (omega arith)
        ∙ past _ _ 17 19 (omega arith) (omega arith) (omega arith)
        ∙ past _ _ 18 19 (omega arith) (omega arith) (omega arith)
        ∙ put_in _ _ 19 (omega arith) (omega arith)
        ∙ fields-high 1 cpu_id,
    readback 16 ∙ put_in _ _ 16 (omega arith) (omega arith),
    readback 17
        ∙ past _ _ 16 17 (omega arith) (omega arith) (omega arith)
        ∙ put_in _ _ 17 (omega arith) (omega arith)
        ∙ fields-high 0 cpu_id,
  )
    where
      readback : {t : w.State} (q : ℕ) → reg (ioapic_read w 16 (ioapic_read w 18 t).1).1 q ≡ reg t q
      readback q = ioapic_read-same _ q _ ∙ ioapic_read-same _ q _

      past :
          (v : ℕ) (t : w.State) (r q : ℕ)
          → 16 ≤ r
          → r < 20
          → q ≢ r
          → reg (ioapic_write w r v t) q ≡ reg t q
      past v t r q low high ne = ioapic_write-other r _ _ q (first-Entry r _ low high) ne

      put_in :
          (v : ℕ) (t : w.State) (r : ℕ)
          → 16 ≤ r
          → r < 20
          → reg (ioapic_write w r v t) r ≡ fields r v
      put_in v t r low high = ioapic_write-at r _ _ (first-Entry r _ low high)

  -- With at most 120 entries, `ioapic_init` masks every entry but the first two, with its own vector, and sends the
  -- keyboard's and the timer's interrupts, unmasked, to the processor `cpu_id` with the vectors 33 and 32.
  pub ioapic_init-entries :
      (cpu_id : ℕ) (s : w.State)
      → max_redir_of (reg s ioapic_ver) ≤ 120
      → let s' = ioapic_init w cpu_id s in
        ((irq : ℕ)
          → 2 ≤ irq
          → irq < max_redir_of (reg s ioapic_ver)
          → reg s' (entry_low irq) ≡ bit_or ioapic_int_masked (0x20 + irq))
        × (reg s' (entry_low irq_keyboard) ≡ 33)
        × (reg s' (entry_high irq_keyboard) ≡ cpu_id * 2 ^ 24)
        × (reg s' (entry_low irq_timer) ≡ 32)
        × (reg s' (entry_high irq_timer) ≡ cpu_id * 2 ^ 24)
  unfolding ioapic_init
  ioapic_init-entries cpu_id s few =
      let n = max_redir_of (ioapic_read w ioapic_ver s).0 in
      let same : n ≡ max_redir_of (reg s ioapic_ver) = ap max_redir_of (ioapic_read-version s) in
      let masked = mask_from w n 0 (ioapic_read w ioapic_ver s).1 in
      let rounds : Rounds n 0 (ioapic_read w ioapic_ver s).1 = (
        omega (arith, same),
        omega (
          arith,
          same,
          max_redir_of-entries_in (reg s ioapic_ver),
          ioapic_read-same ioapic_ver ioapic_ver s,
        ),
      ) in
      let entries = route_irqs-entries cpu_id masked in
      (
        λ irq low high.
            route_irqs-other cpu_id masked (entry_low irq) (omega arith)
            ∙ mask_from-entry n 0 _ irq rounds (omega arith) (omega (arith, same)),
        entries.0,
        entries.1,
        entries.2,
        entries.3,
      )
