-- ===== src/MkEspfs/Image/Parts.antt =====
-- Where the parts of a file of an image of espfs/mkespfsimage/main.c stand in memory.
use ems_esp_link.Prelude.{
  ℕ, ◌+◌, ◌-◌, ◌%◌, ◌<◌, ◌≡◌, subst, [], ◌∷◌, ◌++◌, length, arith, length-append, length-replicate,
}
use ems_esp_link.Prelude.Text.{Bytes}
use ems_esp_link.EspFs.{Memory}
use ems_esp_link.EspFs.Memory.{StandsAt, StandsAt-append}
use ems_esp_link.MkEspfs.{padding, name_field, header_bytes, write_file}

-- The bytes that a file takes in the image.
abbrev pub file_len : Bytes → Bytes → ℕ
file_len name cdat = 16 + name_field name + length cdat + (4 - length cdat % 4) % 4

pub length-write_file :
    (fl : ℕ) (name cdat : Bytes) (size : ℕ)
    → length name < 255
    → length (write_file fl name cdat size) ≡ file_len name cdat
unfolding write_file
length-write_file fl name cdat size lt =
    let a =
      length-append (name ++ (0 ∷ []))
        (padding (length name + 1) ++ (cdat ++ padding (length cdat))) in
    let b = length-append (padding (length name + 1)) (cdat ++ padding (length cdat)) in
    let c = length-append cdat (padding (length cdat)) in
    let d = length-append name (0 ∷ []) in
    let e = length-replicate {A = ℕ} ((4 - (length name + 1) % 4) % 4) 0 in
    let g = length-replicate {A = ℕ} ((4 - length cdat % 4) % 4) 0 in
    ground (arith, a, b, c, d, e, g)

-- The parts of a file, and what follows it.
pub record Parts (m : Memory) (p fl : ℕ) (name cdat : Bytes) (size : ℕ) (rest : Bytes)
    : Type 0 where
  pub head : StandsAt m p (header_bytes fl (name_field name) (length cdat) size)
  pub title : StandsAt m (p + 16) (name ++ (0 ∷ []))
  pub body : StandsAt m (p + 16 + name_field name) cdat
  pub after : StandsAt m (p + file_len name cdat) rest

pub write_file-Parts :
    (m : Memory) (p fl : ℕ) (name cdat : Bytes) (size : ℕ) (rest : Bytes)
    → length name < 255
    → StandsAt m p (write_file fl name cdat size ++ rest)
    → Parts m p fl name cdat size rest
unfolding write_file
write_file-Parts m p fl name cdat size rest lt s =
    let whole = StandsAt-append m p (write_file fl name cdat size) rest s in
    let h =
      StandsAt-append m p (header_bytes fl (name_field name) (length cdat) size)
        ((name ++ (0 ∷ [])) ++ (padding (length name + 1) ++ (cdat ++ padding (length cdat))))
        whole.0 in
    let t =
      StandsAt-append m (p + 16) (name ++ (0 ∷ []))
        (padding (length name + 1) ++ (cdat ++ padding (length cdat))) h.1 in
    let b =
      StandsAt-append m (p + 16 + length (name ++ (0 ∷ []))) (padding (length name + 1))
        (cdat ++ padding (length cdat)) t.1 in
    let c =
      StandsAt-append m (p + 16 + length (name ++ (0 ∷ [])) + length (padding (length name + 1)))
        cdat (padding (length cdat)) b.1 in
    let at : p + 16 + length (name ++ (0 ∷ [])) + length (padding (length name + 1))
        ≡ p + 16 + name_field name =
      ground (
        arith,
        length-append name (0 ∷ []),
        length-replicate {A = ℕ} ((4 - (length name + 1) % 4) % 4) 0,
      ) in
    record {
      head = h.0;
      title = t.0;
      body = subst (λ q. StandsAt m q cdat) at c.0;
      after = subst (λ n. StandsAt m (p + n) rest) (length-write_file fl name cdat size lt) whole.1;
    }
