-- ===== src/Httpd/Files/Transfer.antt =====
-- The calls of `cgiEspFsHook` behind the first: a file is sent in parts.
use ems_esp_link.Prelude.{
  ℕ, zero, suc, ◌-◌, ◌*◌, ◌<◌, ◌≡◌, refl, sym, ap, ◌∙◌, inl, inr, Bool, true, false, not, Option,
  none, some, List, [], ◌∷◌, ◌++◌, ◌==◌, if◌then◌else◌, length, take, drop, arith, min, Bool-cases,
  append-nil, append_assoc, length-drop, take_short, split_lem,
}
use ems_esp_link.Prelude.Text.{Bytes}
use ems_esp_link.Prelude.Words.{slt}
use ems_esp_link.EspFs.{Memory, EspFsFile, espfs_read}
use ems_esp_link.EspFs.Memory.{IsByteWise}
use ems_esp_link.EspFs.Read.{IsReading, advanced, espfs_read_lem, advanced-IsReading}
use ems_esp_link.Httpd.Conn.{Conn, Code, more, done}
use ems_esp_link.Httpd.Files.{
  FileWorld, keep, espfs_close, is_null, follow, after_read, next_call, called, cgi_espfs_hook,
  serve,
}

-- The bytes that have been handed to the network.
abbrev pub payload : List (Option ℕ × Bytes) → Bytes
payload [] = []
payload ((h, text) ∷ calls) = text ++ payload calls

payload-append : (xs ys : List (Option ℕ × Bytes)) → payload (xs ++ ys) ≡ payload xs ++ payload ys
payload-append [] ys = refl
payload-append ((h, text) ∷ xs) ys =
    ap (λ r. text ++ r) (payload-append xs ys) ∙ sym (append_assoc text (payload xs) (payload ys))

-- The world after the call that reads `text`.
abbrev wired : FileWorld → Conn → ℕ → Bytes → FileWorld
wired w c len text = if slt 0 len then record w { wire = w.wire ++ ((c.conn, text) ∷ []) } else w

payload-wired :
    (w : FileWorld) (c : Conn) (rest : Bytes)
    → payload (wired w c (min 1024 (length rest)) (take 1024 rest)).wire
      ≡ payload w.wire ++ take 1024 rest
payload-wired w c [] = sym (append-nil (payload w.wire))
payload-wired w c (x ∷ rest) =
    let some_text : slt 0 (min 1024 (length (x ∷ rest))) ≡ true = ground arith in
    ap
      (λ b.
        payload
          (if b
            then record w { wire = w.wire ++ ((c.conn, take 1024 (x ∷ rest)) ∷ []) }
            else w).wire)
      some_text
    ∙ (payload-append w.wire ((c.conn, take 1024 (x ∷ rest)) ∷ [])
        ∙ ap (λ r. payload w.wire ++ r) (append-nil (take 1024 (x ∷ rest))))

rounds_left :
    (n all left : ℕ)
    → left ≡ all - 1024
    → (min 1024 all == 1024) ≡ true
    → all < 1024 * suc n
    → left < 1024 * n
rounds_left n all left e full lt = ground arith

module _ (version : Bytes) (m : Memory) (bytewise : IsByteWise m) where
  next_call_lem :
      (k : ℕ) (f : EspFsFile) (total : ℕ) (rest : Bytes) (w : FileWorld) (c : Conn)
      → w.files k ≡ some f
      → IsReading m f total rest
      → next_call version m k w c
        ≡ after_read version m k w c
            (min 1024 (length rest))
            (take 1024 rest)
            (some (advanced f (min 1024 (length rest))))
  unfolding next_call
  next_call_lem k f total rest w c e reading =
      ap (λ o. let r = espfs_read m o 1024 in after_read version m k w c r.0 r.1 r.2) e
      ∙ ap (λ r. after_read version m k w c r.0 r.1 r.2)
          (espfs_read_lem m bytewise f total rest 1024 (omega arith) reading)

  hook_lem :
      (start : Option ℕ) (fuel k : ℕ) (w : FileWorld) (c : Conn)
      → is_null c.conn ≡ false
      → c.cgi_data ≡ some k
      → cgi_espfs_hook version m start fuel w c ≡ some (next_call version m k w c)
  unfolding cgi_espfs_hook called
  hook_lem start fuel k w c live e =
      let hooked : Bool → Option (Code × FileWorld × Conn) = λ b.
        if b
        then some (done, espfs_close c.cgi_data w, c)
        else called version m start fuel c.cgi_data w c in
      ap hooked live ∙ ap (λ o. called version m start fuel o w c) e

  after_read_lem :
      (k : ℕ) (w : FileWorld) (c : Conn) (len : ℕ) (text : Bytes) (f : Option EspFsFile) (b : Bool)
      → (len == 1024) ≡ b
      → after_read version m k w c len text f ≡ (
          if not b
          then (done, keep k none (wired w c len text), c)
          else (more, keep k f (wired w c len text), c))
  unfolding after_read
  after_read_lem k w c len text f b e =
      ap
        (λ b.
          if not b
          then (done, keep k none (wired w c len text), c)
          else (more, keep k f (wired w c len text), c))
        e

  -- Round by round the whole of what is left is sent.
  pub serve-rest :
      (n : ℕ) (start : Option ℕ) (fuel k : ℕ) (f : EspFsFile) (total : ℕ) (rest : Bytes)
      (w : FileWorld) (c : Conn)
      → is_null c.conn ≡ false
      → c.cgi_data ≡ some k
      → w.files k ≡ some f
      → IsReading m f total rest
      → length rest < 1024 * n
      → (w' : FileWorld) × (c' : Conn) × (serve version m start fuel n w c ≡ some (w', c'))
        × (payload w'.wire ≡ payload w.wire ++ rest)
        × (w'.files k ≡ none)
  unfolding serve
  serve-rest zero start fuel k f total rest w c live e o reading lt = absurd (omega arith)
  serve-rest (suc n) start fuel k f total rest w c live e o reading lt =
      let len : ℕ = min 1024 (length rest) in
      let text : Bytes = take 1024 rest in
      let f' : EspFsFile = advanced f len in
      let w1 : FileWorld = wired w c len text in
      let self : (k == k) ≡ true = ground arith in
      let step =
        hook_lem start fuel k w c live e
        ∙ ap (λ r. some r) (next_call_lem k f total rest w c o reading) in
      let go = follow (serve version m start fuel n) in
      elim (Bool-cases (len == 1024)) [
        | inr short ↦ (
          keep k none w1,
          c,
          ap go (step ∙ ap (λ r. some r) (after_read_lem k w c len text (some f') false short)),
          payload-wired w c rest
              ∙ ap (λ r. payload w.wire ++ r) (take_short 1024 rest (ground (arith, short))),
          ap (λ b. if b then none else w1.files k) self,
        )
        | inl full ↦
            let (w', c', run, sent, shut) =
              serve-rest n start fuel k f' total (drop 1024 rest) (keep k (some f') w1)
                (record c { send_buff = [] }) live e
                (ap (λ b. if b then some f' else w1.files k) self)
                (advanced-IsReading m bytewise f total rest 1024 reading)
                (rounds_left n (length rest) (length (drop 1024 rest)) (length-drop 1024 rest) full
                  lt) in
            (
              w',
              c',
              ap go (step ∙ ap (λ r. some r) (after_read_lem k w c len text (some f') true full))
                  ∙ run,
              sent
                  ∙ (ap (λ r. r ++ drop 1024 rest) (payload-wired w c rest)
                      ∙ (append_assoc (payload w.wire) text (drop 1024 rest)
                          ∙ ap (λ r. payload w.wire ++ r) (sym (split_lem 1024 rest)))),
              shut,
            )
      ]
