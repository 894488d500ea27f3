-- ===== src/CharRing/Inv.antt =====
-- The invariants that serial/console.c lists for its buffer, and what one write does.
use native.Mathlib.Nat.{mod-eq_of_lt, mod-eq-sub-mod}
use ems_esp_link.Prelude.{
  ℕ, zero, suc, ◌+◌, ◌-◌, ◌%◌, ◌≤◌, ◌<◌, ◌≡◌, ◌≢◌, refl, ap, ◌⊎◌, inl, inr, [], ◌∷◌, ◌++◌, ◌==◌,
  if◌then◌else◌, ltb, ◌^◌, Bool-cases, ==_iff, arith, get_or, set, length, length-set,
  get_or-set_self, get_or-set_ne,
}
use ems_esp_link.Prelude.Text.{Bytes}
use ems_esp_link.CharRing.{CharRing, write, count, span, contents}

-- A step round the ring, without `%`.
pub next_lem : (size i : ℕ) → i < size → (i + 1) % size ≡ (if i + 1 == size then 0 else i + 1)
next_lem size i h = elim (Bool-cases (i + 1 == size)) [
  | inl e ↦ rw e (
      omega (
        arith,
        mod-eq-sub-mod {n = i + 1} {m = size} (ground arith),
        mod-eq_of_lt {n = i + 1 - size} {m = size} (ground arith),
        (==_iff (i + 1) size).0 e,
      ))
  | inr e ↦ rw (e, mod-eq_of_lt {n = i + 1} {m = size} (ground arith))
]

-- The distance round the ring, without `%`.
pub distance_lem :
    (size wr rd : ℕ)
    → wr < size
    → rd < size
    → ((rd ≤ wr) × ((wr + size - rd) % size ≡ wr - rd))
      ⊎ ((wr < rd) × ((wr + size - rd) % size ≡ wr + size - rd))
distance_lem size wr rd hw hr = elim (Bool-cases (ltb wr rd)) [
  | inl e ↦ inr (ground arith, mod-eq_of_lt {n = wr + size - rd} {m = size} (ground arith))
  | inr e ↦ inl (
    ground arith,
    grind (
      arith,
      mod-eq-sub-mod {n = wr + size - rd} {m = size},
      mod-eq_of_lt {n = wr - rd} {m = size},
    ),
  )
]

-- `i` lies `n` steps round the ring from `h`.
abbrev pub Ahead : ℕ → ℕ → ℕ → ℕ → Type 0
Ahead size h n i = ((h + n < size) × (i ≡ h + n)) ⊎ ((size ≤ h + n) × (i + size ≡ h + n))

Ahead-next :
    (size h n i : ℕ)
    → h < size
    → suc n < size
    → Ahead size h (suc n) i
    → Ahead size ((h + 1) % size) n i
Ahead-next size h n i hh hn a = ground (arith, next_lem size h hh)

Ahead-ne : (size h n i : ℕ) → suc n < size → Ahead size h (suc n) i → i ≢ h
Ahead-ne size h n i hn a = ground arith

-- Writing just past a span extends it by that character.
span-set :
    (size : ℕ) (buf : Bytes) (c n h i : ℕ)
    → size ≤ length buf
    → h < size
    → n < size
    → Ahead size h n i
    → span size (set buf i c) h (suc n) ≡ span size buf h n ++ (c ∷ [])
span-set size buf c zero h i hs hh hn a =
    let e : i ≡ h = ground arith in rw (e, get_or-set_self buf h c 0 (omega arith))
span-set size buf c (suc n) h i hs hh hn a =
    rw (get_or-set_ne buf i h c 0 (Ahead-ne size h n i hn a)) (
      ap (◌∷◌ (get_or buf h 0)) (
        span-set size buf c n ((h + 1) % size) i hs (omega arith) (omega arith)
          (Ahead-next size h n i hh hn a)))

pub length-span : (size : ℕ) (buf : Bytes) (h n : ℕ) → length (span size buf h n) ≡ n
length-span size buf h zero = refl
length-span size buf h (suc n) = ap suc (length-span size buf ((h + 1) % size) n)

module _ (size : ℕ) where
  -- The buffer has `BUF_MAX` characters and both indices lie in it.
  pub record IsValid (r : CharRing) : Type 0 where
    pub room : 1 < size
    pub storage : length r.buf ≡ size
    pub wr_in : r.wr < size
    pub rd_in : r.rd < size

  pub write-IsValid : (r : CharRing) (c : ℕ) → IsValid r → IsValid (write size r c)
  unfolding write
  write-IsValid r c v = ground (arith, length-set r.buf r.wr c)

  pub count_lt : (r : CharRing) → IsValid r → count size r < size
  unfolding count
  count_lt r v = omega arith

  pub length-contents : (r : CharRing) → length (contents size r) ≡ count size r
  length-contents r = length-span size r.buf r.rd (count size r)

  -- The next write goes just past what is held.
  Ahead-wr : (r : CharRing) → IsValid r → Ahead size r.rd (count size r) r.wr
  unfolding count
  Ahead-wr r v = ground (arith, distance_lem size r.wr r.rd)

  pub span-write :
      (r : CharRing) (c : ℕ)
      → IsValid r
      → span size (write size r c).buf r.rd (suc (count size r)) ≡ contents size r ++ (c ∷ [])
  unfolding write
  span-write r c v =
      let e =
        span-set size r.buf c (count size r) r.rd r.wr (omega arith) v.rd_in (count_lt r v)
          (Ahead-wr r v) in
      ground (arith, e)

  -- The ring is full when `size - 1` characters are held: a write then drops the oldest one.
  pub count-write_full :
      (r : CharRing) (c : ℕ)
      → IsValid r
      → suc (count size r) ≡ size
      → let r' = write size r c in
        (r'.rd ≡ (r.rd + 1) % size)
        × (count size r' ≡ count size r)
        × (r'.pos ≡ (r.pos + 1) % 2 ^ 32)
  unfolding write count
  count-write_full r c v h = ground (
    arith,
    next_lem size r.wr v.wr_in,
    next_lem size r.rd v.rd_in,
    distance_lem size r.wr r.rd v.wr_in v.rd_in,
    distance_lem size ((r.wr + 1) % size) ((r.rd + 1) % size),
  )

  pub count-write_room :
      (r : CharRing) (c : ℕ)
      → IsValid r
      → suc (count size r) < size
      → let r' = write size r c in
        (r'.rd ≡ r.rd) × (count size r' ≡ suc (count size r)) × (r'.pos ≡ r.pos)
  unfolding write count
  count-write_room r c v h = ground (
    arith,
    next_lem size r.wr v.wr_in,
    distance_lem size r.wr r.rd v.wr_in v.rd_in,
    distance_lem size ((r.wr + 1) % size) r.rd,
  )
