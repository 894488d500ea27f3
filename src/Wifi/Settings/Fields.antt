-- ===== src/Wifi/Settings/Fields.antt =====
-- What copying a text into a field of `flashConfig` leaves alone, however long the text is.
use ems_esp_link.Prelude.{◌≡◌, refl, Option, none, some, [], ◌∷◌, length, ltb, if_lem}
use ems_esp_link.Prelude.Text.{Bytes, strstr}
use ems_esp_link.Config.{FlashConfig}
use ems_esp_link.Wifi.Settings.{put_collectord, put_ntp_server, put_hostname, with_port, split_port}

-- The version and the check sum lie in front of all texts.
abbrev pub SameHead : FlashConfig → FlashConfig → Type 0
SameHead cfg cfg' = (cfg'.version ≡ cfg.version) × (cfg'.crc ≡ cfg.crc)

pub put_collectord-SameHead :
    (text : Bytes) (cfg : FlashConfig) → SameHead cfg (put_collectord text cfg)
unfolding put_collectord
put_collectord-SameHead text cfg =
    if_lem (SameHead cfg) (ltb (length text) 32) _ _ (λ _. (refl, refl)) (λ _. (refl, refl))

pub put_ntp_server-SameHead :
    (text : Bytes) (cfg : FlashConfig) → SameHead cfg (put_ntp_server text cfg)
unfolding put_ntp_server
put_ntp_server-SameHead text cfg =
    if_lem (SameHead cfg) (ltb (length text) 33) _ _ (λ _. (refl, refl)) (λ _. (refl, refl))

pub put_hostname-SameHead :
    (text : Bytes) (cfg : FlashConfig) → SameHead cfg (put_hostname text cfg)
unfolding put_hostname
put_hostname-SameHead text cfg =
    if_lem (SameHead cfg) (ltb (length text) 32) _ _ (λ _. (refl, refl)) (λ _. (refl, refl))

with_port-SameHead :
    (text : Bytes) (cfg : FlashConfig) (found : Option Bytes)
    → SameHead cfg (with_port text cfg found)
with_port-SameHead text cfg none = put_collectord-SameHead text _
with_port-SameHead text cfg (some rest) = put_collectord-SameHead _ _

pub split_port-SameHead : (text : Bytes) (cfg : FlashConfig) → SameHead cfg (split_port text cfg)
unfolding split_port
split_port-SameHead text cfg = with_port-SameHead text cfg (strstr text (b':' ∷ []))
