-- ===== src/Sasl/Tests.antt =====
-- Runs for the SASL strings.
use mailio.Base.{◌≡◌, refl}
use mailio.Base.Bytes.{codes}
use mailio.Sasl.{plain_text, strip_newlines}

plain_run : plain_text (codes "me") (codes "pw") ≡ codes "\0me\0pw"
unfolding plain_text
plain_run = refl

newlines_run : strip_newlines (codes "a\r\nb\n") ≡ codes "ab"
unfolding strip_newlines
newlines_run = refl
