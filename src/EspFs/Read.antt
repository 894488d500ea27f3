-- ===== src/EspFs/Read.antt =====
-- `espFsRead` of espfs/espfs.c, call by call.
use ems_esp_link.Prelude.{
  split_lem, ℕ, ◌+◌, ◌%◌, ◌/◌, ◌^◌, ◌<◌, ◌≤◌, ◌≡◌, sym, ap, subst, ◌∙◌, true, Option, some, [], ◌∷◌,
  ◌==◌, if◌then◌else◌, length, take, drop, arith, min, length-take, length-drop,
}
use ems_esp_link.Prelude.Text.{Bytes}
use ems_esp_link.Prelude.Words.{add32, sub32, slt}
use ems_esp_link.EspFs.{
  Memory, bytes_at, memcpy_aligned, EspFsFile, le32, espfs_read, read_len, count,
}
use ems_esp_link.EspFs.Memory.{
  IsByteWise, StandsAt, StandsAt-append, bytes_at-StandsAt, memcpy_aligned-bytes_at,
}

-- The four bytes of a number.
abbrev pub le_bytes : ℕ → Bytes
le_bytes n = n % 2 ^ 8 ∷ n / 2 ^ 8 % 2 ^ 8 ∷ n / 2 ^ 16 % 2 ^ 8 ∷ n / 2 ^ 24 % 2 ^ 8 ∷ []

-- A file of `total` bytes is open, and `rest` is what has not been read.
pub record IsReading (m : Memory) (f : EspFsFile) (total : ℕ) (rest : Bytes) : Type 0 where
  pub plain : f.decompressor ≡ 0
  pub len : StandsAt m (f.header + 8) (le_bytes total)
  pub place : f.pos_comp + length rest ≡ f.pos_start + total
  pub content : StandsAt m f.pos_comp rest
  pub left : length rest ≤ total
  pub fits : f.pos_start + total < 2 ^ 31

le32_lem : (n : ℕ) → n < 2 ^ 32 → le32 (le_bytes n) 0 ≡ n
le32_lem n lt = omega arith

-- The file behind the bytes that a read gives.
abbrev pub advanced : EspFsFile → ℕ → EspFsFile
advanced f n = record f { pos_decomp = add32 f.pos_decomp n; pos_comp = add32 f.pos_comp n }

module _ (m : Memory) (bytewise : IsByteWise m) where
  read_len_lem :
      (f : EspFsFile) (total : ℕ) (rest : Bytes) (n : ℕ)
      → n < 2 ^ 31
      → IsReading m f total rest
      → read_len m f n ≡ min n (length rest)
  read_len_lem f total rest n lt k =
      let whole : le32 (memcpy_aligned m (f.header + 8) 4) 0 ≡ total =
        ap (λ s. le32 s 0)
          (memcpy_aligned-bytes_at m (f.header + 8) 4 bytewise
            ∙ bytes_at-StandsAt m (f.header + 8) (le_bytes total) k.len)
        ∙ le32_lem total (omega (arith, k.fits)) in
      let left : sub32 total (sub32 f.pos_comp f.pos_start) ≡ length rest =
        omega (arith, k.place, k.fits, k.left) in
      ap (λ t. let r = sub32 t (sub32 f.pos_comp f.pos_start) in if slt r n then r else n) whole
      ∙ ap (λ r. if slt r n then r else n) left
      ∙ ground (arith, k.place, k.fits)

  -- What a call returns, what it copies, and where it leaves the file.
  pub espfs_read_lem :
      (f : EspFsFile) (total : ℕ) (rest : Bytes) (n : ℕ)
      → n < 2 ^ 31
      → IsReading m f total rest
      → espfs_read m (some f) n
        ≡ (min n (length rest), take n rest, some (advanced f (min n (length rest))))
  unfolding espfs_read
  espfs_read_lem f total rest n lt k =
      let q : ℕ = min n (length rest) in
      let result : ℕ → ℕ × Bytes × Option EspFsFile =
        λ j. (j, memcpy_aligned m f.pos_comp (count j), some (advanced f j)) in
      let plain : (f.decompressor == 0) ≡ true = ap (λ d. d == 0) k.plain in
      let many : count q ≡ length (take n rest) = ground (arith, lt, length-take n rest) in
      let here : StandsAt m f.pos_comp (take n rest) =
        (StandsAt-append m f.pos_comp (take n rest) (drop n rest)
          (subst (StandsAt m f.pos_comp) (split_lem n rest) k.content)).0 in
      let copied : memcpy_aligned m f.pos_comp (count q) ≡ take n rest =
        memcpy_aligned-bytes_at m f.pos_comp (count q) bytewise
        ∙ (ap (bytes_at m f.pos_comp) many ∙ bytes_at-StandsAt m f.pos_comp (take n rest) here) in
      let nothing : ℕ × Bytes × Option EspFsFile = (0, [], some f) in
      ap (λ b. if b then result (read_len m f n) else nothing) plain
      ∙ ap result (read_len_lem f total rest n lt k)
      ∙ ap (λ s. (q, s, some (advanced f q))) copied

  pub advanced-IsReading :
      (f : EspFsFile) (total : ℕ) (rest : Bytes) (n : ℕ)
      → IsReading m f total rest
      → IsReading m (advanced f (min n (length rest))) total (drop n rest)
  advanced-IsReading f total rest n k =
      let at : add32 f.pos_comp (min n (length rest)) ≡ f.pos_comp + length (take n rest) =
        omega (arith, k.place, k.fits, length-take n rest) in
      record {
        plain = k.plain;
        len = k.len;
        place = omega (arith, at, k.place, length-take n rest, length-drop n rest);
        content =
            subst (λ q. StandsAt m q (drop n rest)) (sym at)
              (StandsAt-append m f.pos_comp (take n rest) (drop n rest)
                (subst (StandsAt m f.pos_comp) (split_lem n rest) k.content)).1;
        left = omega (arith, length-drop n rest, k.left);
        fits = k.fits;
      }
