-- ===== src/CharRing.antt =====
-- The circular character buffer that serial/console.c and user/log.c each hold, over its size
-- (`BUF_MAX`). The counter `pos` is an `int` pattern; `wr` and `rd` are indices into `buf`.
pub mod Inv
pub mod History
pub mod Reader
use ems_esp_link.Prelude.{
  ℕ, zero, suc, ◌+◌, ◌-◌, ◌%◌, List, [], ◌∷◌, ◌==◌, if◌then◌else◌, get_or, set,
}
use ems_esp_link.Prelude.Text.{Bytes}
use ems_esp_link.Prelude.Words.{add32}

pub record CharRing : Type 0 where
  pub buf : Bytes
  pub wr : ℕ
  pub rd : ℕ
  pub pos : ℕ

module _ (size : ℕ) where
  -- `console_write`, `log_write`
  unfoldable pub write : CharRing → ℕ → CharRing
  write r c =
      let wr' = (r.wr + 1) % size in
      if wr' == r.rd
      then record { buf = set r.buf r.wr c; wr = wr'; rd = (r.rd + 1) % size; pos = add32 r.pos 1 }
      else record { buf = set r.buf r.wr c; wr = wr'; rd = r.rd; pos = r.pos }

  -- `console_write_str`
  unfoldable pub write_str : CharRing → Bytes → CharRing
  write_str r [] = r
  write_str r (c ∷ cs) = write_str (write r c) cs

  -- `console_len`, `log_len`: the number of characters held.
  unfoldable pub count : CharRing → ℕ
  count r = (r.wr + size - r.rd) % size

  -- The `n` characters from index `i` on, going round at `size`.
  abbrev pub span : Bytes → ℕ → ℕ → Bytes
  span buf i zero = []
  span buf i (suc n) = get_or buf i 0 ∷ span buf ((i + 1) % size) n

  -- What a reader that starts at `rd` and stops at `wr` sees.
  abbrev pub contents : CharRing → Bytes
  contents r = span r.buf r.rd (count r)
