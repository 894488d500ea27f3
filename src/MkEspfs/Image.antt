-- ===== src/MkEspfs/Image.antt =====
-- What espfs/espfs.c finds in an image of espfs/mkespfsimage/main.c, file by file.
pub mod Parts
pub mod Open
use ems_esp_link.Prelude.{
  ℕ, zero, suc, ◌+◌, ◌-◌, ◌*◌, ◌/◌, ◌%◌, ◌^◌, ◌<◌, ◌≤◌, ◌≡◌, refl, sym, ap, subst, ◌∙◌, inl, inr,
  Bool, true, false, Option, none, some, List, [], ◌∷◌, ◌++◌, ltb, ◌==◌, if◌then◌else◌, length,
  replicate, arith, All, Bool-cases, append_assoc, length-append, length-replicate,
}
use ems_esp_link.Prelude.Text.{Bytes, c_string, str_eq}
use ems_esp_link.EspFs.{
  Memory, bytes_at, EspFsHeader, EspFsFile, header_of, header_len, next_file, file_at, search,
  from_int16,
}
use ems_esp_link.EspFs.Memory.{StandsAt, StandsAt-append, bytes_at-StandsAt}
use ems_esp_link.MkEspfs.{
  htoxl, htoxs, padding, name_field, header_bytes, write_file, finish_archive,
}

-- A name without a terminator in it.
abbrev pub NoZero : Bytes → Type 0
NoZero s = All (λ c. (c == 0) ≡ false) s

pub c_string-bytes_at :
    (m : Memory) (p n : ℕ) (name : Bytes)
    → NoZero name
    → length name < n
    → StandsAt m p (name ++ (0 ∷ []))
    → c_string (bytes_at m p n) ≡ name
unfolding bytes_at StandsAt
c_string-bytes_at m p zero name z lt s = absurd (omega arith)
c_string-bytes_at m p (suc n) [] z lt s =
    let e : (m p == 0) ≡ true = ap (λ b. b == 0) s.0 in rw e refl
c_string-bytes_at m p (suc n) (c ∷ name) z lt s =
    let e : (m p == 0) ≡ false = ap (λ b. b == 0) s.0 ∙ z.0 in
    rw e (cc (s.0, c_string-bytes_at m (suc p) n name z.1 (omega arith) s.1))

abbrev pub header_fields : ℕ → ℕ → ℕ → ℕ → EspFsHeader
header_fields fl nl cs sz = header_of (header_bytes fl nl cs sz)

pub search_header :
    (f : ℕ) (m : Memory) (name : Bytes) (has_memory : Bool) (p fl nl cs sz : ℕ)
    → bytes_at m p header_len ≡ header_bytes fl nl cs sz
    → fl % 2 ≡ 0
    → search (suc f) m name has_memory p ≡ (
        if str_eq (c_string (bytes_at m (p + header_len) 256)) name
        then some (file_at p (header_fields fl nl cs sz) has_memory)
        else search f m name has_memory (next_file p (header_fields fl nl cs sz)))
unfolding search
search_header f m name has_memory p fl nl cs sz e even =
    let flag : (fl % 2 == 1) ≡ false = ground arith in rw (e, flag) refl

pub search_finish :
    (f : ℕ) (m : Memory) (name : Bytes) (has_memory : Bool) (p : ℕ)
    → StandsAt m p finish_archive
    → search (suc f) m name has_memory p ≡ some none
unfolding search
search_finish f m name has_memory p s = rw (bytes_at-StandsAt m p finish_archive s) refl

unpack16 : (n : ℕ) → n < 2 ^ 16 → n % 2 ^ 8 + 2 ^ 8 * (n / 2 ^ 8 % 2 ^ 8) ≡ n
unpack16 n lt = omega arith

unpack32 :
    (n : ℕ)
    → n < 2 ^ 32
    → n % 2 ^ 8
        + 2 ^ 8 * (n / 2 ^ 8 % 2 ^ 8)
        + 2 ^ 16 * (n / 2 ^ 16 % 2 ^ 8)
        + 2 ^ 24 * (n / 2 ^ 24 % 2 ^ 8)
      ≡ n
unpack32 n lt = omega arith

-- Where the content of a file starts.
start_lem :
    (p n nl : ℕ)
    → n ≡ nl
    → nl < 2 ^ 15
    → p + 16 + nl < 2 ^ 31
    → (p + header_len + from_int16 n) % 2 ^ 32 ≡ p + 16 + nl
start_lem p n nl e lt fits = ground arith

next_file_of :
    (p : ℕ) (h : EspFsHeader) (nl cs : ℕ)
    → h.name_len ≡ nl
    → h.file_len_comp ≡ cs
    → (p + nl) % 4 ≡ 0
    → nl < 2 ^ 15
    → p + 16 + nl + cs + (4 - cs % 4) % 4 < 2 ^ 31
    → next_file p h ≡ p + 16 + nl + cs + (4 - cs % 4) % 4
unfolding next_file
next_file_of p h nl cs e f a lt fits =
    let q : (p + header_len + from_int16 h.name_len + h.file_len_comp) % 2 ^ 32 ≡ p + 16 + nl + cs =
      ground arith in
    ground arith

pub next_file_lem :
    (p fl nl cs sz : ℕ)
    → (p + nl) % 4 ≡ 0
    → nl < 2 ^ 15
    → p + 16 + nl + cs + (4 - cs % 4) % 4 < 2 ^ 31
    → next_file p (header_fields fl nl cs sz) ≡ p + 16 + nl + cs + (4 - cs % 4) % 4
next_file_lem p fl nl cs sz a lt fits =
    next_file_of p (header_fields fl nl cs sz) nl cs (unpack16 nl (omega arith))
      (unpack32 cs (omega arith)) a lt fits

pub file_at_lem :
    (p fl nl cs sz : ℕ)
    → nl < 2 ^ 15
    → p + 16 + nl < 2 ^ 31
    → file_at p (header_fields fl nl cs sz) true
      ≡ some (record {
        header = p;
        decompressor = 0;
        pos_decomp = 0;
        pos_start = p + 16 + nl;
        pos_comp = p + 16 + nl;
      })
unfolding file_at
file_at_lem p fl nl cs sz lt fits =
    ap
      (λ q.
        some (record { header = p; decompressor = 0; pos_decomp = 0; pos_start = q; pos_comp = q }))
      (start_lem p (nl % 2 ^ 8 + 2 ^ 8 * (nl / 2 ^ 8 % 2 ^ 8)) nl (unpack16 nl (omega arith)) lt
        fits)
