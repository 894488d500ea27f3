-- ===== src/EspFs/Extract/Image.antt =====
-- From the command line of the builder to the file that the extractor writes.
use ems_esp_link.EspFs.{Memory}
use ems_esp_link.MkEspfs.Options.{Options}
