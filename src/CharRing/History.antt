-- ===== src/CharRing/History.antt =====
-- The ring against the sequence of all characters written since it was emptied.
use native.Mathlib.Decide.{dec_lt}
use ems_esp_link.Prelude.{
  ℕ, suc, ◌-◌, ◌%◌, ◌^◌, ◌≤◌, ◌<◌, ◌≡◌, ap, sym, ◌∙◌, [], ◌∷◌, ◌++◌, arith, length, tail, drop,
  drop-suc, drop-append, length-append, length-drop, append_assoc, append-nil, min,
}
use ems_esp_link.Prelude.Text.{Bytes}
use ems_esp_link.CharRing.{CharRing, write, write_str, count, contents}
use ems_esp_link.CharRing.Inv.{
  IsValid, write-IsValid, count_lt, length-contents, span-write, count-write_full, count-write_room,
  distance_lem,
}

module _ (size : ℕ) where
  -- The last `size - 1` characters of a text.
  abbrev pub recent : Bytes → Bytes
  recent h = drop (length h - (size - 1)) h

  -- The ring shows the last characters of `h`, and `pos` counts those that it has lost.
  pub record Shows (r : CharRing) (h : Bytes) : Type 0 where
    pub valid : IsValid size r
    pub shown : contents size r ≡ recent h
    pub lost : r.pos ≡ (length h - (size - 1)) % 2 ^ 32

  contents-write_room :
      (r : CharRing) (c : ℕ)
      → IsValid size r
      → suc (count size r) < size
      → contents size (write size r c) ≡ contents size r ++ (c ∷ [])
  contents-write_room r c v h =
      let (e, f, g) = count-write_room size r c v h in rw (f, e) (span-write size r c v)

  contents-write_full :
      (r : CharRing) (c : ℕ)
      → IsValid size r
      → suc (count size r) ≡ size
      → contents size (write size r c) ≡ tail (contents size r ++ (c ∷ []))
  contents-write_full r c v h =
      let (e, f, g) = count-write_full size r c v h in rw (f, e) (ap tail (span-write size r c v))

  length-snoc : (h : Bytes) (c : ℕ) → length (h ++ (c ∷ [])) ≡ suc (length h)
  length-snoc h c = omega (arith, length-append h (c ∷ []))

  recent-snoc_room :
      (h : Bytes) (c : ℕ) → suc (length h) < size → recent (h ++ (c ∷ [])) ≡ recent h ++ (c ∷ [])
  recent-snoc_room h c l =
      let e : length (h ++ (c ∷ [])) - (size - 1) ≡ 0 = omega (arith, length-snoc h c) in
      let f : length h - (size - 1) ≡ 0 = omega arith in rw (e, f)

  recent-snoc_full :
      (h : Bytes) (c : ℕ)
      → 1 < size
      → size ≤ suc (length h)
      → recent (h ++ (c ∷ [])) ≡ tail (recent h ++ (c ∷ []))
  recent-snoc_full h c room l =
      let e : length (h ++ (c ∷ [])) - (size - 1) ≡ suc (length h - (size - 1)) =
        omega (arith, length-snoc h c) in
      rw (e, drop-suc, drop-append (length h - (size - 1)) h (c ∷ []) (omega arith))

  pub count-Shows :
      (r : CharRing) (h : Bytes) → Shows r h → count size r ≡ min (length h) (size - 1)
  count-Shows r h s =
      omega
        (arith, length-contents size r, ap length s.shown, length-drop (length h - (size - 1)) h)

  pub write-Shows :
      (r : CharRing) (h : Bytes) (c : ℕ) → Shows r h → Shows (write size r c) (h ++ (c ∷ []))
  write-Shows r h c s = elim (dec_lt (suc (count size r)) size) [
    | yes p ↦ record {
      valid = write-IsValid size r c s.valid;
      shown =
          contents-write_room r c s.valid p
          ∙ ap (λ t. t ++ (c ∷ [])) s.shown
          ∙ sym (recent-snoc_room h c (omega (arith, count-Shows r h s, s.valid)));
      lost =
          omega (
            arith,
            count-write_room size r c s.valid p,
            s.lost,
            length-snoc h c,
            count-Shows r h s,
          );
    }
    | no p ↦
        let full : suc (count size r) ≡ size = omega (arith, count_lt size r s.valid) in
        record {
          valid = write-IsValid size r c s.valid;
          shown =
              contents-write_full r c s.valid full
              ∙ ap (λ t. tail (t ++ (c ∷ []))) s.shown
              ∙ sym (recent-snoc_full h c s.valid.room (omega (arith, count-Shows r h s, s.valid)));
          lost = omega (
            arith,
            count-write_full size r c s.valid full,
            s.lost,
            length-snoc h c,
            count-Shows r h s,
          );
        }
  ]

  pub write_str-Shows :
      (cs : Bytes) (r : CharRing) (h : Bytes) → Shows r h → Shows (write_str size r cs) (h ++ cs)
  unfolding write_str
  write_str-Shows [] r h s = rw append-nil s
  write_str-Shows (c ∷ cs) r h s =
      rw (append_assoc h (c ∷ []) cs) at
        (write_str-Shows cs (write size r c) (h ++ (c ∷ [])) (write-Shows r h c s))

  -- An emptied ring holds nothing.
  pub count_empty : (r : CharRing) → 1 < size → r.wr ≡ 0 → r.rd ≡ 0 → count size r ≡ 0
  unfolding count
  count_empty r room w d = ground (arith, distance_lem size r.wr r.rd)

  pub empty-Shows :
      (r : CharRing) → 1 < size → length r.buf ≡ size → r.wr ≡ 0 → r.rd ≡ 0 → r.pos ≡ 0 → Shows r []
  empty-Shows r room l w d p = record {
    valid = omega arith;
    shown = let z : 0 - (size - 1) ≡ 0 = omega arith in rw (count_empty r room w d, z);
    lost = omega arith;
  }
