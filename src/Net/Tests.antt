-- ===== src/Net/Tests.antt =====
-- Witnesses and runs for the lines of the dialog.
use mailio.Base.{◌≡◌, refl, false, none, some, [], ◌∷◌}
use mailio.Base.Bytes.{codes, find}
use mailio.Base.Result.{ok}
use mailio.Net.{Link, read_line, read_found, extract, line_length}
use mailio.Net.Lines.{IsLineOf, read_line-IsLineOf}

abbrev split_line : Link
split_line = record {
  dialog = some (record { is_tls = false; read_buffer = codes "250 o"; max_line_length = 512 });
  network = record {
    reads = (codes "k\r\n220", none) ∷ [];
    writes = [];
    handshakes = [];
    connects = [];
    host_name = none;
    sent = [];
  };
}

read_line-IsLineOf_example : IsLineOf split_line (read_line split_line)
read_line-IsLineOf_example = read_line-IsLineOf split_line

split_run : (read_line split_line).0 ≡ ok (codes "250 ok")
unfolding read_line read_found mailio.Net.read_more mailio.Net.after_read mailio.Net.extract_found
    extract line_length find
split_run = refl
