-- ===== src/Vmm/Place.antt =====
-- The insertion of a new region into the sorted list of src/MemoryManager/vmm.c.
use mini_user_os.Prelude.{
  ℕ, zero, suc, ◌+◌, ◌%◌, ◌<◌, ◌≡◌, ◌≢◌, refl, sym, ap, ◌∙◌, true, false, ltb, List, [], ◌∷◌,
  length, arith, dec_lt,
}
use mathlib.Core.Path.{subst}
use mini_user_os.Machine.{Memory, null}
use mini_user_os.Vmm.Structs.{
  region_start, region_end, region_flags, region_next, region_prev, flags_of, low_half,
}
use mini_user_os.Vmm.Regions.{place_from}
use mini_user_os.Vmm.Cells.{Cell, Linked, Fresh, Separate, Elsewhere}
use mini_user_os.Vmm.Link.{
  link_of, linked, not_null, linked-link, linked-same, IsAt-new, Linked-new,
}
use mini_user_os.Vmm.Insert.{
  insert, Elsewhere-page, Elsewhere-link, link_of-ne_next, link_of-ne_prev, place_from-end,
  place_from-stop, place_from-pass,
}

-- What the insertion of the cell `n` at the region `r` has made of the list behind `prev`: its place is
-- that of the sorted list, and nothing but the pointers around it has changed.
pub record Inserted (m m' : Memory) (space r prev : ℕ) (n : Cell) (cs : List Cell) : Type 0 where
  pub in_order : Linked m' prev (m' (link_of space prev)) (insert n cs)
  pub same :
      (q : ℕ)
      → q ≢ region_next r
      → q ≢ region_prev r
      → q ≢ link_of space prev
      → Elsewhere q cs
      → m' q ≡ m q

-- The region that is linked in is filled in, and in a page of its own.
pub record IsNew (m : Memory) (space r : ℕ) (n : Cell) : Type 0 where
  pub here : r ≡ n.page
  pub ne_null : r ≢ null
  pub ne_space : r ≢ space
  pub space_aligned : space % 4096 ≡ 0
  pub r_aligned : r % 4096 ≡ 0
  pub start : m (region_start r) ≡ n.start
  pub end : m (region_end r) ≡ n.end
  pub flags : flags_of m r ≡ n.flags

module _ (m : Memory) (space r : ℕ) (n : Cell) (new : IsNew m space r n) where
  -- The new region is linked in before the cells.
  Inserted-here :
      (prev curr : ℕ) (cs : List Cell)
      → Linked m prev curr cs
      → prev % 4096 ≡ 0
      → curr % 4096 ≡ 0
      → prev ≢ r
      → curr ≢ r
      → Fresh space cs
      → Fresh r cs
      → Fresh prev cs
      → Separate cs
      → Linked
          (linked space r prev curr m)
          prev
          (linked space r prev curr m (link_of space prev))
          (n ∷ cs)
  Inserted-here prev curr cs l pa ca pn cn fs fr fp s =
      rw (linked-link space r prev curr m new.space_aligned new.r_aligned pa ca pn cn) (
        IsAt-new space r prev curr m new.space_aligned new.r_aligned pa ca pn cn n new.here
            new.ne_null new.ne_space new.start new.end new.flags,
        Linked-new space r prev curr m new.space_aligned new.r_aligned pa ca pn cn cs l fs fr fp s,
      )

  Inserted-stop :
      (prev curr : ℕ) (cs : List Cell)
      → Linked m prev curr cs
      → prev % 4096 ≡ 0
      → curr % 4096 ≡ 0
      → prev ≢ r
      → curr ≢ r
      → Fresh space cs
      → Fresh r cs
      → Fresh prev cs
      → Separate cs
      → insert n cs ≡ n ∷ cs
      → ((q : ℕ) → Elsewhere q cs → curr ≢ null → q ≢ region_prev curr)
      → Inserted m (linked space r prev curr m) space r prev n cs
  Inserted-stop prev curr cs l pa ca pn cn fs fr fp s first off = record {
    in_order = rw first (Inserted-here prev curr cs l pa ca pn cn fs fr fp s);
    same = λ q a b c e.
        linked-same space r prev curr m new.space_aligned new.r_aligned pa ca pn cn q a b c
          (off q e);
  }

  Inserted-pass :
      (prev curr : ℕ) (c : Cell) (cs : List Cell) (m' : Memory)
      → Linked m prev curr (c ∷ cs)
      → prev % 4096 ≡ 0
      → prev ≢ r
      → Fresh space (c ∷ cs)
      → Fresh r (c ∷ cs)
      → Fresh prev (c ∷ cs)
      → Separate (c ∷ cs)
      → m (link_of space prev) ≡ curr
      → c.start < n.start
      → Inserted m m' space r curr n cs
      → Inserted m m' space r prev n (c ∷ cs)
  Inserted-pass prev curr c cs m' l pa pn fs fr fp s at below i = record {
    in_order =
        rw (test, kept_link)
          (
            record {
              here = l.0.here;
              ne_null = l.0.ne_null;
              start =
                  kept_field (region_start curr) 0 (omega arith) (omega arith) (omega arith)
                  ∙ l.0.start;
              end =
                  kept_field (region_end curr) 8 (omega arith) (omega arith) (omega arith)
                  ∙ l.0.end;
              flags =
                  ap low_half
                    (kept_field (region_flags curr) 16 (omega arith) (omega arith) (omega arith))
                  ∙ l.0.flags;
              behind =
                  kept_field (region_prev curr) 32 (omega arith) (omega arith) (omega arith)
                  ∙ l.0.behind;
            },
            subst (λ q. Linked m' curr (m' q) (insert n cs)) next_link i.in_order,
          );
    same = λ q a b d e. i.same q a b (λ o. e.0 (o ∙ next_link ∙ ap region_next l.0.here)) e.2;
  }
    where
      next_link : link_of space curr ≡ region_next curr
      next_link = rw (not_null curr l.0.ne_null) refl

      aligned : curr % 4096 ≡ 0
      aligned = ap (λ q. q % 4096) l.0.here ∙ s.0

      apart : curr ≢ r
      apart e = fr.0 (sym l.0.here ∙ e)

      forward : prev ≢ curr
      forward e = fp.0 (sym l.0.here ∙ sym e)

      r_aligned : r % 4096 ≡ 0
      r_aligned = new.r_aligned

      test : ltb c.start n.start ≡ true
      test = ground arith

      kept_link : m' (link_of space prev) ≡ curr
      kept_link =
          i.same (link_of space prev)
            (link_of-ne_next space prev r new.space_aligned pa r_aligned pn)
            (link_of-ne_prev space prev r new.space_aligned pa r_aligned)
            (λ e.
              link_of-ne_next space prev curr new.space_aligned pa aligned forward (e ∙ next_link))
            (Elsewhere-link space prev cs new.space_aligned pa fs.1 fp.1 s.2)
          ∙ at

      kept_field : (q k : ℕ) → q ≡ curr + k → k < 4096 → k ≢ 24 → m' q ≡ m q
      kept_field q k e small ne =
          i.same q (omega arith) (omega arith) (λ o. ne (omega (arith, o, next_link)))
            (subst (λ x. Elsewhere x cs) (sym e)
              (Elsewhere-page curr k cs aligned small (subst (λ x. Fresh x cs) (sym l.0.here) s.1)
                s.2))

  pub place-Inserted :
      (fuel prev curr : ℕ) (cs : List Cell)
      → Linked m prev curr cs
      → prev % 4096 ≡ 0
      → prev ≢ r
      → Fresh space cs
      → Fresh r cs
      → Fresh prev cs
      → Separate cs
      → m (link_of space prev) ≡ curr
      → length cs < fuel
      → Inserted m
          (linked space r
            (place_from fuel prev curr n.start m).0
            (place_from fuel prev curr n.start m).1
            m)
          space
          r
          prev
          n
          cs
  place-Inserted fuel prev curr [] l pa pn fs fr fp s at h =
      rw (l, place_from-end fuel prev n.start m)
        (Inserted-stop prev null [] refl pa refl pn (λ e. new.ne_null (sym e)) fs fr fp s refl
          (λ q e ne. absurd (ne refl)))
  place-Inserted zero prev curr (c ∷ cs) l pa pn fs fr fp s at h = absurd (omega arith)
  place-Inserted (suc fuel) prev curr (c ∷ cs) l pa pn fs fr fp s at h =
      elim (dec_lt c.start n.start) [
        | yes below ↦
            rw (place_from-pass fuel prev curr n.start m l.0.ne_null (rw l.0.start below)) (
              Inserted-pass prev curr c cs _ l pa pn fs fr fp s at below (
                place-Inserted fuel curr (m (region_next curr)) cs l.1
                  (ap (λ q. q % 4096) l.0.here ∙ s.0) (λ e. fr.0 (sym l.0.here ∙ e)) fs.1 fr.1
                  (subst (λ q. Fresh q cs) (sym l.0.here) s.1) s.2
                  (rw (not_null curr l.0.ne_null) refl) (omega arith)))
        | no above ↦
            rw (place_from-stop (suc fuel) prev curr n.start m l.0.ne_null (rw l.0.start above)) (
              let test : ltb c.start n.start ≡ false = ground arith in
              Inserted-stop prev curr (c ∷ cs) l pa (ap (λ q. q % 4096) l.0.here ∙ s.0) pn
                (λ e. fr.0 (sym l.0.here ∙ e)) fs fr fp s (rw test refl)
                (λ q e ne o. e.1 (o ∙ ap region_prev l.0.here)))
      ]
