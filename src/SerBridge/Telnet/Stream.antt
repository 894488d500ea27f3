-- ===== src/SerBridge/Telnet/Stream.antt =====
-- The telnet machine on whole streams.
use ems_esp_link.Prelude.{
  ℕ, ◌≡◌, ◌≢◌, refl, ◌∙◌, List, [], ◌∷◌, ◌++◌, append_assoc, ◌==◌, if◌then◌else◌, arith, All,
}
use ems_esp_link.Prelude.Text.{Bytes}
use ems_esp_link.SerBridge.Effect.{Effect, uart, uart_all}
use ems_esp_link.SerBridge.Telnet.{
  State, normal, iac, Pins, step, telnet_unwrap, iac_char, will_char, sb_char, se_char,
  com_port_opt, set_control_cmd, control,
}

-- How a stream is cut into packets makes no difference, since the state is kept between them: two
-- packets do what one packet with the bytes of both does.
pub telnet_unwrap-append :
    (pins : Pins) (xs ys : Bytes) (s : State)
    → telnet_unwrap pins (xs ++ ys) s ≡ (
      (telnet_unwrap pins ys (telnet_unwrap pins xs s).0).0,
      (telnet_unwrap pins xs s).1 ++ (telnet_unwrap pins ys (telnet_unwrap pins xs s).0).1,
    )
unfolding telnet_unwrap
telnet_unwrap-append pins [] ys s = refl
telnet_unwrap-append pins (x ∷ xs) ys s =
    rw (telnet_unwrap-append pins xs ys (step pins s x).0, append_assoc)

-- The text as a telnet client sends it: IAC is doubled.
unfoldable pub escape : Bytes → Bytes
escape [] = []
escape (c ∷ cs) = if c == iac_char then iac_char ∷ c ∷ escape cs else c ∷ escape cs

-- A control line command: IAC SB COM-PORT SET-CONTROL value IAC SE.
abbrev pub control_sequence : ℕ → Bytes
control_sequence value =
    iac_char ∷ sb_char ∷ com_port_opt ∷ set_control_cmd ∷ value ∷ iac_char ∷ se_char ∷ []

-- What a telnet client sends: text, control line commands and the COM port negotiation.
pub data Item : Type 0 where
  text : Bytes → Item
  control_line : ℕ → Item
  negotiation : ℕ → Item

abbrev pub wire : List Item → Bytes
wire [] = []
wire (text t ∷ is) = escape t ++ wire is
wire (control_line v ∷ is) = control_sequence v ++ wire is
wire (negotiation o ∷ is) = iac_char ∷ will_char ∷ o ∷ wire is

abbrev pub meaning : Pins → List Item → List Effect
meaning pins [] = []
meaning pins (text t ∷ is) = uart_all t ++ meaning pins is
meaning pins (control_line v ∷ is) = control pins v ++ meaning pins is
meaning pins (negotiation o ∷ is) = meaning pins is

unwrap_text :
    (pins : Pins) (t rest : Bytes)
    → telnet_unwrap pins (escape t ++ rest) normal
      ≡ ((telnet_unwrap pins rest normal).0, uart_all t ++ (telnet_unwrap pins rest normal).1)
unfolding telnet_unwrap escape
unwrap_text pins [] rest = refl
unwrap_text pins (c ∷ cs) rest = ground (arith, unwrap_text pins cs rest)

unwrap_nil : (pins : Pins) → telnet_unwrap pins [] normal ≡ (normal, [])
unfolding telnet_unwrap
unwrap_nil pins = refl

unwrap_control :
    (pins : Pins) (v : ℕ) (rest : Bytes)
    → telnet_unwrap pins (control_sequence v ++ rest) normal
      ≡ ((telnet_unwrap pins rest normal).0, control pins v ++ (telnet_unwrap pins rest normal).1)
unfolding telnet_unwrap
unwrap_control pins v rest = refl

unwrap_negotiation :
    (pins : Pins) (o : ℕ) (rest : Bytes)
    → telnet_unwrap pins (iac_char ∷ will_char ∷ o ∷ rest) normal ≡ telnet_unwrap pins rest normal
unfolding telnet_unwrap
unwrap_negotiation pins o rest = refl

-- A stream of text, control line commands and negotiations is unwrapped to its meaning: the text
-- goes to the UART unchanged, each command to the control lines alone, a negotiation nowhere, and
-- the machine is ready for more.
pub telnet_unwrap-wire :
    (pins : Pins) (is : List Item) → telnet_unwrap pins (wire is) normal ≡ (normal, meaning pins is)
telnet_unwrap-wire pins [] = unwrap_nil pins
telnet_unwrap-wire pins (text t ∷ is) =
    unwrap_text pins t (wire is) ∙ rw (telnet_unwrap-wire pins is)
telnet_unwrap-wire pins (control_line v ∷ is) =
    unwrap_control pins v (wire is) ∙ rw (telnet_unwrap-wire pins is)
telnet_unwrap-wire pins (negotiation o ∷ is) =
    unwrap_negotiation pins o (wire is) ∙ telnet_unwrap-wire pins is

-- A byte that no escape knows.
abbrev pub IsUnknown : ℕ → Type 0
IsUnknown c = (c ≢ iac_char) × (c ≢ will_char) × (c ≢ sb_char) × (c ≢ se_char)

abbrev pub marked : Bytes → List Effect
marked [] = []
marked (c ∷ cs) = uart iac_char ∷ uart c ∷ marked cs

-- An unknown command does not end the escape: the machine goes on as if each later byte were
-- escaped, and writes IAC in front of every byte that is no command.
pub telnet_unwrap_unknown :
    (pins : Pins) (cs : Bytes) → All IsUnknown cs → telnet_unwrap pins cs iac ≡ (iac, marked cs)
unfolding telnet_unwrap
telnet_unwrap_unknown pins [] h = refl
telnet_unwrap_unknown pins (c ∷ cs) h = ground (arith, telnet_unwrap_unknown pins cs h.1)
