-- ===== src/Auth/Access.antt =====
-- Who is let in: the users that the parameter lists, each with their own password.
use ems_esp_link.Prelude.{
  ℕ, zero, suc, ◌+◌, ◌≤◌, ◌<◌, ◌≡◌, ◌≢◌, ap, ◌∙◌, inl, inr, true, Option, none, some, [], ◌∷◌, ◌++◌,
  ◌==◌, ◌⊎◌, false, ==_iff, arith, Bool-cases, Option-cases,
}
use ems_esp_link.Prelude.Text.{Bytes, str_eq_refl, str_eq_sound}
use ems_esp_link.Httpd.Conn.{Conn, Code, done, authenticated}
use ems_esp_link.Auth.Client.{Sends, credentials-Sends}
use ems_esp_link.Auth.{matches, refuse, is_user, credentials, auth_basic}

matches_sound :
    (user userpass pass : Bytes)
    → matches userpass user pass ≡ true
    → userpass ≡ user ++ (b':' ∷ pass)
unfolding matches
matches_sound [] [] pass h = ground arith
matches_sound [] (c ∷ cs) pass h = ground (arith, str_eq_sound cs pass)
matches_sound (a ∷ user) [] pass h = ground arith
matches_sound (a ∷ user) (c ∷ cs) pass h = ground (arith, matches_sound user cs pass)

matches_complete : (user pass : Bytes) → matches (user ++ (b':' ∷ pass)) user pass ≡ true
unfolding matches
matches_complete [] pass = ground (arith, str_eq_refl pass)
matches_complete (a ∷ user) pass = ground (arith, matches_complete user pass)

-- The user `j` has the credentials `userpass`.
abbrev pub Holds : (ℕ → Option (Bytes × Bytes)) → Bytes → ℕ → Type 0
Holds get_user_pw userpass j =
    (user : Bytes) × (pass : Bytes) × (get_user_pw j ≡ some (user, pass))
    × (userpass ≡ user ++ (b':' ∷ pass))

module _ (get_user_pw : ℕ → Option (Bytes × Bytes)) where
  is_user_sound :
      (f i stop : ℕ) (userpass : Bytes)
      → i ≤ stop
      → get_user_pw stop ≡ none
      → is_user get_user_pw userpass f i ≡ true
      → (j : ℕ) × ((j < stop) × Holds get_user_pw userpass j)
  unfolding is_user
  is_user_sound zero i stop userpass l e h = ground arith
  is_user_sound (suc f) i stop userpass l e h = elim (Option-cases (get_user_pw i)) [
    | inl gone ↦ absurd (ground arith)
    | inr ((user, pass), found) ↦
        let before : i < stop = grind arith in
        elim (Bool-cases (matches userpass user pass)) [
          | inl m ↦ (i, (before, (user, pass, found, matches_sound user userpass pass m)))
          | inr m ↦ is_user_sound f (suc i) stop userpass (omega arith) e (ground arith)
        ]
  ]

  is_user_here :
      (f i : ℕ) (user pass userpass : Bytes)
      → get_user_pw i ≡ some (user, pass)
      → matches userpass user pass ≡ true
      → is_user get_user_pw userpass (suc f) i ≡ true
  unfolding is_user
  is_user_here f i user pass userpass found m = ground arith

  is_user_later :
      (f i : ℕ) (userpass : Bytes)
      → get_user_pw i ≢ none
      → is_user get_user_pw userpass f (suc i) ≡ true
      → is_user get_user_pw userpass (suc f) i ≡ true
  unfolding is_user
  is_user_later f i userpass there h = ground arith

  is_user_complete :
      (f i j : ℕ) (userpass : Bytes)
      → i ≤ j
      → j < i + f
      → ((k : ℕ) → k < j → get_user_pw k ≢ none)
      → Holds get_user_pw userpass j
      → is_user get_user_pw userpass f i ≡ true
  is_user_complete zero i j userpass l m before h = absurd (omega arith)
  is_user_complete (suc f) i j userpass l m before h = elim (Bool-cases (i == j)) [
    | inl same ↦
        let (user, pass, found, text) = h in
        is_user_here f i user pass userpass (ap get_user_pw ((==_iff i j).0 same) ∙ found)
          (ap (λ t. matches t user pass) text ∙ matches_complete user pass)
    | inr other ↦
        let less : i < j = ground arith in
        is_user_later f i userpass (before i less)
          (is_user_complete f (suc i) j userpass (omega arith) (omega arith) before h)
  ]

-- What is sent is the name and the password of a user of the list.
abbrev pub IsGranted : (ℕ → Option (Bytes × Bytes)) → ℕ → Option Bytes → Type 0
IsGranted get_user_pw stop given =
    (userpass : Bytes) × ((given ≡ some userpass)
      × ((j : ℕ) × ((j < stop) × Holds get_user_pw userpass j)))

-- How a request ends: on a closed connection nothing is sent.
abbrev pub Outcome : (ℕ → Option (Bytes × Bytes)) → ℕ → Option Bytes → Conn → Code × Conn → Type 0
Outcome get_user_pw stop given c answer =
    ((c.conn ≡ none) × (answer ≡ (done, c)))
    ⊎ ((IsGranted get_user_pw stop given × (answer ≡ (authenticated, c)))
        ⊎ ((¬ IsGranted get_user_pw stop given) × (answer ≡ (done, refuse c))))

-- When the list of users ends: a request on an open connection that sends a text in the encoding of basic
-- authentication is let in, with nothing sent, if the text is the name, a colon and the password of a user
-- of the list, and is answered by the refusal if it is not, or if the request has no such field at all,
-- whatever lies in memory behind the field. On a closed connection nothing is sent.
pub auth_basic-IsGranted :
    (get_user_pw : ℕ → Option (Bytes × Bytes)) (beyond : Bytes) (stop fuel : ℕ) (c : Conn)
    (given : Option Bytes)
    → ((k : ℕ) → k < stop → get_user_pw k ≢ none)
    → get_user_pw stop ≡ none
    → stop ≤ fuel
    → Sends c given
    → Outcome get_user_pw stop given c (auth_basic beyond get_user_pw fuel c)
unfolding auth_basic
auth_basic-IsGranted get_user_pw beyond stop fuel c given before ends enough sends =
    elim (Option-cases c.conn) [
      | inl closed ↦ inl (closed, ground arith)
      | inr (h, up) ↦ inr (elim (Option-cases given) [
        | inl none_sent ↦ inr (λ g. cc (none_sent, g.1.0), ground (arith, read))
        | inr (userpass, sent) ↦ elim (Bool-cases (is_user get_user_pw userpass fuel 0)) [
          | inl found ↦
              let holds = is_user_sound get_user_pw fuel 0 stop userpass (omega arith) ends found in
              inl ((userpass, (sent, holds)), ground (arith, read))
          | inr missing ↦ inr (λ g. refused userpass sent missing g, ground (arith, read))
        ]
      ])
    ]
  where
    read : credentials beyond c ≡ given
    read = credentials-Sends beyond c given sends

    refused :
        (userpass : Bytes)
        → given ≡ some userpass
        → is_user get_user_pw userpass fuel 0 ≡ false
        → IsGranted get_user_pw stop given
        → ⊥
    refused userpass sent missing (other, (same, (j, (inside, holds)))) =
        let found : is_user get_user_pw other fuel 0 ≡ true =
          is_user_complete get_user_pw fuel 0 j other (omega arith) (omega arith)
            (λ k l. before k (omega arith)) holds in
        let text : other ≡ userpass = cc (same, sent) in cc (found, missing, text)
