-- ===== src/EspFs/Memory.antt =====
-- Bytes that stand in memory, and the reads of espfs/espfs.c that are aligned to words.
use ems_esp_link.Prelude.{
  ℕ, zero, suc, ◌+◌, ◌-◌, ◌%◌, ◌^◌, ◌<◌, ◌≡◌, refl, ap, subst, ◌∙◌, [], ◌∷◌, ◌++◌, length, arith,
}
use ems_esp_link.Prelude.Text.{Bytes}
use ems_esp_link.EspFs.{Memory, bytes_at, aligned_byte, word_at, byte_of, memcpy_aligned}

abbrev pub IsByteWise : Memory → Type 0
IsByteWise m = (a : ℕ) → m a < 2 ^ 8

-- The bytes stand in memory from the address on.
unfoldable pub StandsAt : Memory → ℕ → Bytes → Type 0
StandsAt m p [] = Unit
StandsAt m p (b ∷ s) = (m p ≡ b) × StandsAt m (suc p) s

pub StandsAt-append :
    (m : Memory) (p : ℕ) (xs ys : Bytes)
    → StandsAt m p (xs ++ ys)
    → StandsAt m p xs × StandsAt m (p + length xs) ys
unfolding StandsAt
StandsAt-append m p [] ys s =
    let e : p ≡ p + 0 = omega arith in (tt, subst (λ q. StandsAt m q ys) e s)
StandsAt-append m p (x ∷ xs) ys s =
    let r = StandsAt-append m (suc p) xs ys s.1 in
    let e : suc p + length xs ≡ p + suc (length xs) = omega arith in
    ((s.0, r.0), subst (λ q. StandsAt m q ys) e r.1)

pub bytes_at-StandsAt :
    (m : Memory) (p : ℕ) (s : Bytes) → StandsAt m p s → bytes_at m p (length s) ≡ s
unfolding bytes_at StandsAt
bytes_at-StandsAt m p [] t = refl
bytes_at-StandsAt m p (b ∷ s) t = cc (t.0, bytes_at-StandsAt m (suc p) s t.1)

byte_of-word_at :
    (m : Memory) (a b : ℕ) → IsByteWise m → b < 4 → byte_of (word_at m a) b ≡ m (a + b)
byte_of-word_at m a zero h lt = let e : a ≡ a + 0 = omega arith in omega (arith, h a) ∙ ap m e
byte_of-word_at m a (suc zero) h lt = omega (arith, h a, h (a + 1))
byte_of-word_at m a (suc (suc zero)) h lt = omega (arith, h a, h (a + 1), h (a + 2))
byte_of-word_at m a (suc (suc (suc zero))) h lt =
    omega (arith, h a, h (a + 1), h (a + 2), h (a + 3))
byte_of-word_at m a (suc (suc (suc (suc b)))) h lt = absurd (omega arith)

aligned_byte_lem : (m : Memory) (src : ℕ) → IsByteWise m → aligned_byte m src ≡ m src
unfolding aligned_byte
aligned_byte_lem m src h =
    let e : src - src % 4 + src % 4 ≡ src = omega arith in
    byte_of-word_at m (src - src % 4) (src % 4) h (omega arith) ∙ ap m e

-- Where every address holds a byte, copying by aligned words gives the same bytes as a plain copy, for
-- every address and length.
pub memcpy_aligned-bytes_at :
    (m : Memory) (src len : ℕ) → IsByteWise m → memcpy_aligned m src len ≡ bytes_at m src len
unfolding memcpy_aligned bytes_at
memcpy_aligned-bytes_at m src zero h = refl
memcpy_aligned-bytes_at m src (suc len) h =
    cc (aligned_byte_lem m src h, memcpy_aligned-bytes_at m (suc src) len h)
