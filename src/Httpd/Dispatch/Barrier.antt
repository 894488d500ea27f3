-- ===== src/Httpd/Dispatch/Barrier.antt =====
-- The order of the URL table: the first row that matches and does not decline serves the request.
use ems_esp_link.Prelude.{
  ℕ, subst, ◌≡◌, refl, ap, sym, ◌⊎◌, inl, inr, true, false, none, some, List, [], ◌∷◌, ◌++◌,
  Bool-cases,
}
use ems_esp_link.Httpd.Conn.{Conn, Code, more, done, not_found, authenticated}
use ems_esp_link.Httpd.Send.{send}
use ems_esp_link.Httpd.Dispatch.{
  Output, BuiltInUrl, url_matches, transmit, http_not_found_header, assign, url_of, Handlers, react,
  try_rows, process_request,
}

-- The codes with which a handler leaves the request to the rows below.
abbrev pub Declines : Code → Type 0
Declines r = (r ≡ not_found) ⊎ (r ≡ authenticated)

module _ {W : Type 0} (handlers : Handlers W) where
  -- All of the rows let the request pass: they do not match, or their handlers decline. The last two
  -- indices are what the handlers leave.
  pub data Passes : List BuiltInUrl → W → Conn → W → Conn → Type 0 where
    end : {w w' : W} {c c' : Conn} → w ≡ w' → c ≡ c' → Passes [] w c w' c'
    other :
        {row : BuiltInUrl} {rows : List BuiltInUrl} {w w' : W} {c c' : Conn}
        → url_matches row.url (url_of c) ≡ false
        → Passes rows w c w' c'
        → Passes (row ∷ rows) w c w' c'
    declined :
        {row : BuiltInUrl} {rows : List BuiltInUrl} {w w1 w' : W} {c c1 c' : Conn} (r : Code)
        → url_matches row.url (url_of c) ≡ true
        → handlers row.cgi_cb w (assign row c) ≡ (r, w1, c1)
        → Declines r
        → Passes rows w1 c1 w' c'
        → Passes (row ∷ rows) w c w' c'

  abbrev Result : Type 0
  Result = List Output × W × Conn

  -- What the code does with a request: the error page if all rows let it pass, or the answer of the
  -- first row that does not.
  pub data Served (table : List BuiltInUrl) (w : W) (c : Conn) (result : Result) : Type 0 where
    nobody :
        (w' : W) (c' : Conn)
        → Passes table w c w' c'
        → (let (out, c1) = transmit (send c' http_not_found_header).1 in
            result ≡ (out, w', record c1 { cgi = none }))
        → Served table w c result
    by_row :
        (before after : List BuiltInUrl) (row : BuiltInUrl) (w1 w' : W) (c1 c' : Conn)
        → table ≡ before ++ (row ∷ after)
        → Passes before w c w1 c1
        → url_matches row.url (url_of c1) ≡ true
        → ((handlers row.cgi_cb w1 (assign row c1) ≡ (more, w', c'))
            × (result ≡ ((transmit c').0, w', (transmit c').1)))
          ⊎ ((handlers row.cgi_cb w1 (assign row c1) ≡ (done, w', c'))
              × (result ≡ ((transmit c').0, w', record (transmit c').1 { cgi = none })))
        → Served table w c result

  Served-cons :
      (row : BuiltInUrl) (table : List BuiltInUrl) (w w1 : W) (c c1 : Conn) (result : Result)
      → ((before : List BuiltInUrl) (w' : W) (c' : Conn)
          → Passes before w1 c1 w' c'
          → Passes (row ∷ before) w c w' c')
      → Served table w1 c1 result
      → Served (row ∷ table) w c result
  Served-cons row table w w1 c c1 result pass (nobody w' c' p e) =
      nobody w' c' (pass table w' c' p) e
  Served-cons row table w w1 c c1 result pass (by_row before after r w2 w' c2 c' t p m h) =
      by_row (row ∷ before) after r w2 w' c2 c' (ap (◌∷◌ row) t) (pass before w2 c2 p) m h

  pub unmatched :
      (row : BuiltInUrl) (rows : List BuiltInUrl) (w : W) (c : Conn)
      → url_matches row.url (url_of c) ≡ false
      → try_rows handlers (row ∷ rows) w c ≡ try_rows handlers rows w c
  unfolding try_rows
  unmatched row rows w c e = rw (e, try_rows)

  pub matched :
      (row : BuiltInUrl) (rows : List BuiltInUrl) (w w1 : W) (c c1 : Conn) (r : Code)
      → url_matches row.url (url_of c) ≡ true
      → handlers row.cgi_cb w (assign row c) ≡ (r, w1, c1)
      → try_rows handlers (row ∷ rows) w c ≡ react handlers (try_rows handlers rows) r w1 c1
  unfolding try_rows
  matched row rows w w1 c c1 r m h =
      rw (m, try_rows) (ap (λ x. react handlers (try_rows handlers rows) x.0 x.1 x.2) h)

  by_code :
      (row : BuiltInUrl) (table : List BuiltInUrl) (w w1 : W) (c c1 : Conn) (r : Code)
      → url_matches row.url (url_of c) ≡ true
      → handlers row.cgi_cb w (assign row c) ≡ (r, w1, c1)
      → Served table w1 c1 (try_rows handlers table w1 c1)
      → Served (row ∷ table) w c (react handlers (try_rows handlers table) r w1 c1)
  unfolding react
  by_code row table w w1 c c1 more m h below =
      by_row [] table row w w1 c c1 refl (end refl refl) m (inl (h, refl))
  by_code row table w w1 c c1 done m h below =
      by_row [] table row w w1 c c1 refl (end refl refl) m (inr (h, refl))
  by_code row table w w1 c c1 not_found m h below =
      Served-cons row table w w1 c c1 _ (λ b w' c' p. declined not_found m h (inl refl) p) below
  by_code row table w w1 c c1 authenticated m h below =
      Served-cons row table w w1 c c1 _ (λ b w' c' p. declined authenticated m h (inr refl) p) below

  try_rows-Served :
      (table : List BuiltInUrl) (w : W) (c : Conn) → Served table w c (try_rows handlers table w c)
  try_rows-Served [] w c = nobody w c (end refl refl) (unfold try_rows in refl)
  try_rows-Served (row ∷ table) w c = elim (Bool-cases (url_matches row.url (url_of c))) [
    | inl m ↦
        let (r, w1, c1) = handlers row.cgi_cb w (assign row c) in
        subst (Served (row ∷ table) w c) (sym (matched row table w w1 c c1 r m refl))
          (by_code row table w w1 c c1 r m refl (try_rows-Served table w1 c1))
    | inr m ↦
        subst (Served (row ∷ table) w c) (sym (unmatched row table w c m))
          (Served-cons row table w w c c _ (λ b w' c' p. other m p) (try_rows-Served table w c))
  ]

  pub with_url :
      (table : List BuiltInUrl) (w : W) (c : Conn) (u : List ℕ)
      → c.url ≡ some u
      → process_request handlers table w c ≡ try_rows handlers table w c
  unfolding process_request
  with_url table w c u e =
      ap (λ o. elim o as (λ _. Result) [ none ↦ ([], w, c) | some _ ↦ try_rows handlers table w c ])
        e

  pub without_url :
      (table : List BuiltInUrl) (w : W) (c : Conn)
      → c.url ≡ none
      → process_request handlers table w c ≡ ([], w, c)
  unfolding process_request
  without_url table w c e =
      ap (λ o. elim o as (λ _. Result) [ none ↦ ([], w, c) | some _ ↦ try_rows handlers table w c ])
        e

  -- A request with a URL always ends: the first row that matches and whose handler does not decline
  -- serves it, after the handlers of the matching rows above have declined one after the other; and
  -- if all rows let it pass, it gets the error page.
  pub process_request-Served :
      (table : List BuiltInUrl) (w : W) (c : Conn) (u : List ℕ)
      → c.url ≡ some u
      → Served table w c (process_request handlers table w c)
  process_request-Served table w c u e =
      subst (Served table w c) (sym (with_url table w c u e)) (try_rows-Served table w c)
