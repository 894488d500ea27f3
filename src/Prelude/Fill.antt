-- ===== src/Prelude/Fill.antt =====
-- Buffers that are filled from the front: the list is what has been written so far.
use Prim.Native.Nat.{ℕ, zero, suc, ◌+◌, ◌≤◌, ◌<◌}
use mathlib.Core.Path.{◌≡◌, refl, ap, ◌∙◌}
use mathlib.Core.Logic.{inl, inr}
use mathlib.Core.List.{[], ◌∷◌, ◌++◌, append-nil, append_assoc}
use native.Mathlib.Omega.{arith}
use ems_esp_link.Prelude.Tests.{◌==◌, if◌then◌else◌, Bool-cases}
use ems_esp_link.Prelude.Lists.{length, take, set, length-set, length-append}
use ems_esp_link.Prelude.Text.{Bytes}

-- A write at an index up to the bytes written so far.
abbrev pub put_at : Bytes → ℕ → ℕ → Bytes
put_at buf i c = if i == length buf then buf ++ (c ∷ []) else set buf i c

-- Writes in a row.
abbrev pub fill : Bytes → ℕ → Bytes → Bytes
fill buf i [] = buf
fill buf i (c ∷ cs) = fill (put_at buf i c) (suc i) cs

take_all :
    (buf : Bytes) (c : ℕ)
    → take (suc (length buf)) (buf ++ (c ∷ [])) ≡ take (length buf) buf ++ (c ∷ [])
take_all [] c = refl
take_all (b ∷ buf) c = ap (λ r. b ∷ r) (take_all buf c)

take-set :
    (buf : Bytes) (i c : ℕ) → i < length buf → take (suc i) (set buf i c) ≡ take i buf ++ (c ∷ [])
take-set [] i c lt = absurd (omega arith)
take-set (b ∷ buf) zero c lt = refl
take-set (b ∷ buf) (suc i) c lt = ap (λ r. b ∷ r) (take-set buf i c (omega arith))

pub take-put_at :
    (buf : Bytes) (i c : ℕ)
    → i ≤ length buf
    → take (suc i) (put_at buf i c) ≡ take i buf ++ (c ∷ [])
take-put_at buf i c le = elim (Bool-cases (i == length buf)) [
  | inl e ↦ rw e (let p : i ≡ length buf = grind arith in rw p (take_all buf c))
  | inr e ↦ rw e (take-set buf i c (grind arith))
]

put_at_covers : (buf : Bytes) (i c : ℕ) → i ≤ length buf → suc i ≤ length (put_at buf i c)
put_at_covers buf i c le = ground (arith, length-append buf (c ∷ []), length-set buf i c)

pub take-fill :
    (buf : Bytes) (i : ℕ) (cs : Bytes) (m : ℕ)
    → i ≤ length buf
    → m ≡ i + length cs
    → take m (fill buf i cs) ≡ take i buf ++ cs
take-fill buf i [] m le e = let e' : m ≡ i = omega arith in rw (e', append-nil (take i buf)) refl
take-fill buf i (c ∷ cs) m le e =
    take-fill (put_at buf i c) (suc i) cs m (put_at_covers buf i c le) (omega arith)
    ∙ ap (λ r. r ++ cs) (take-put_at buf i c le)
    ∙ append_assoc (take i buf) (c ∷ []) cs

pub fill_covers :
    (buf : Bytes) (i : ℕ) (cs : Bytes) → i ≤ length buf → i + length cs ≤ length (fill buf i cs)
fill_covers buf i [] le = omega arith
fill_covers buf i (c ∷ cs) le =
    omega (arith, fill_covers (put_at buf i c) (suc i) cs (put_at_covers buf i c le))
