-- ===== src/CgiFlash/Partition.antt =====
-- What an upload of user/cgiflash.c leaves in the flash.
use ems_esp_link.Prelude.{
  ℕ, suc, ◌+◌, ◌/◌, ◌%◌, ◌<◌, ◌≤◌, ◌≡◌, ◌≢◌, subst, ◌∙◌, inl, inr, ◌⊎◌, if_lem, [], ◌∷◌, ◌++◌, ◌==◌,
  length, arith, length-append,
}
use ems_esp_link.Prelude.Text.{Bytes}
use ems_esp_link.EspFs.Memory.{StandsAt}
use ems_esp_link.CgiFlash.{SpiFlash, sector, put_chunk}

-- What the code relies on of the flash, by a view of its bytes: erasing a sector sets its bytes to 255
-- and no other, and a write to bytes that are 255 stores what is written and changes no other.
pub record IsNor {F : Type 0} (spi : SpiFlash F) (byte : F → ℕ → ℕ) : Type 0 where
  pub erased : (s : ℕ) (f : F) (a : ℕ) → a / sector ≡ s → byte (spi.erase_sector s f) a ≡ 255
  pub erase_else :
      (s : ℕ) (f : F) (a : ℕ) → a / sector ≢ s → byte (spi.erase_sector s f) a ≡ byte f a
  pub written :
      (p : ℕ) (s : Bytes) (f : F)
      → ((a : ℕ) → p ≤ a → a < p + length s → byte f a ≡ 255)
      → StandsAt (byte (spi.write p s f)) p s
  pub write_else :
      (p : ℕ) (s : Bytes) (f : F) (a : ℕ)
      → (a < p) ⊎ (p + length s ≤ a)
      → byte (spi.write p s f) a ≡ byte f a

pub StandsAt-join :
    (m : ℕ → ℕ) (p : ℕ) (xs ys : Bytes)
    → StandsAt m p xs
    → StandsAt m (p + length xs) ys
    → StandsAt m p (xs ++ ys)
unfolding StandsAt
StandsAt-join m p [] ys s t = let e : p + 0 ≡ p = omega arith in subst (λ q. StandsAt m q ys) e t
StandsAt-join m p (x ∷ xs) ys s t =
    let e : p + suc (length xs) ≡ suc p + length xs = omega arith in
    (s.0, StandsAt-join m (suc p) xs ys s.1 (subst (λ q. StandsAt m q ys) e t))

StandsAt-same :
    (m m' : ℕ → ℕ) (p : ℕ) (s : Bytes)
    → ((a : ℕ) → p ≤ a → a < p + length s → m' a ≡ m a)
    → StandsAt m p s
    → StandsAt m' p s
unfolding StandsAt
StandsAt-same m m' p [] same t = tt
StandsAt-same m m' p (b ∷ s) same t = (
  same p (omega arith) (omega arith) ∙ t.0,
  StandsAt-same m m' (suc p) s (λ a ge lt. same a (omega arith) (omega arith)) t.1,
)

module _ {F : Type 0} (spi : SpiFlash F) (byte : F → ℕ → ℕ) (nor : IsNor spi byte) (start : F) where
  -- The bytes `s` stand at `base`, the rest of the sector behind them is erased, and what is further off
  -- is as it was in `start`.
  pub record Holds (base : ℕ) (s : Bytes) (f : F) : Type 0 where
    pub stored : StandsAt (byte f) base s
    pub blank :
        (a : ℕ)
        → (base + length s) % 4096 ≢ 0
        → base + length s ≤ a
        → a / 4096 ≡ (base + length s) / 4096
        → byte f a ≡ 255
    pub outside : (a : ℕ) → (a < base) ⊎ (base + length s + 4096 ≤ a) → byte f a ≡ byte start a

  -- Before a chunk is written, its sector is erased behind what is stored.
  record IsReady (base : ℕ) (s : Bytes) (f : F) : Type 0 where
    stored : StandsAt (byte f) base s
    blank : (a : ℕ) → base + length s ≤ a → a / 4096 ≡ (base + length s) / 4096 → byte f a ≡ 255
    outside : (a : ℕ) → (a < base) ⊎ (base + length s + 4096 ≤ a) → byte f a ≡ byte start a

  erase-IsReady :
      (base : ℕ) (s : Bytes) (f : F)
      → (base + length s) % 4096 ≡ 0
      → Holds base s f
      → IsReady base s (spi.erase_sector ((base + length s) / 4096) f)
  erase-IsReady base s f al h = record {
    stored =
        StandsAt-same (byte f) (byte (spi.erase_sector ((base + length s) / 4096) f)) base s
          (λ a ge lt. nor.erase_else ((base + length s) / 4096) f a (omega arith)) h.stored;
    blank = λ a ge e. nor.erased ((base + length s) / 4096) f a e;
    outside =
        λ a o. nor.erase_else ((base + length s) / 4096) f a (ground (arith, o)) ∙ h.outside a o;
  }

  Holds-IsReady :
      (base : ℕ) (s : Bytes) (f : F)
      → (base + length s) % 4096 ≢ 0
      → Holds base s f
      → IsReady base s f
  Holds-IsReady base s f odd h = record {
    stored = h.stored;
    blank = λ a ge e. h.blank a odd ge e;
    outside = h.outside;
  }

  write-Holds :
      (base : ℕ) (s chunk : Bytes) (f : F)
      → (base + length s) % 1024 ≡ 0
      → length chunk ≤ 1024
      → IsReady base s f
      → Holds base (s ++ chunk) (spi.write (base + length s) chunk f)
  write-Holds base s chunk f al le r =
      let n : length (s ++ chunk) ≡ length s + length chunk = length-append s chunk in
      record {
        stored =
            StandsAt-join (byte (spi.write (base + length s) chunk f)) base s chunk
              (StandsAt-same (byte f) (byte (spi.write (base + length s) chunk f)) base s
                (λ a ge lt. nor.write_else (base + length s) chunk f a (inl lt)) r.stored)
              (nor.written (base + length s) chunk f (λ a ge lt. r.blank a ge (omega arith)));
        blank = λ a odd ge e.
            nor.write_else (base + length s) chunk f a (inr (omega (arith, n, ge)))
            ∙ r.blank a (omega (arith, n, ge)) (omega (arith, n, ge, odd, e));
        outside = λ a o.
            nor.write_else (base + length s) chunk f a (ground (arith, n, o))
            ∙ r.outside a (ground (arith, n, o));
      }

  pub put_chunk-Holds :
      (base : ℕ) (s chunk : Bytes) (f : F)
      → (base + length s) % 1024 ≡ 0
      → length chunk ≤ 1024
      → Holds base s f
      → Holds base (s ++ chunk) (put_chunk spi (base + length s) chunk f)
  unfolding put_chunk
  put_chunk-Holds base s chunk f al le h =
      if_lem (λ g. Holds base (s ++ chunk) (spi.write (base + length s) chunk g))
        ((base + length s) % sector == 0) _ _
        (λ e. write-Holds base s chunk _ al le (erase-IsReady base s f (ground (arith, e)) h))
        (λ e. write-Holds base s chunk f al le (Holds-IsReady base s f (ground (arith, e)) h))
