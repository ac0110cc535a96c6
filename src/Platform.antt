-- ===== src/Platform.antt =====
-- What the program calls and does not implement, as far as the documents of the database need it.
use pulsar_beam.Prelude.{String, Option}

pub record Platform : Type 0 where
  -- the SHA-1 digest of a text, in hexadecimal
  pub sha1_hex : String → String
  -- `url.Parse`: the scheme and the host of a text that it accepts
  pub parse_url : String → Option (String × String)
