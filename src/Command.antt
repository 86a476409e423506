-- ===== src/Command.antt =====
-- src/redisclient/RedisClientImpl.cpp, `makeCommand`: the bytes of a request.
pub mod Decode
pub mod RoundTrip
use redisclient_libary.Common.{Bytes, List, [], ◌∷◌, length}
use redisclient_libary.Common.Decimal.{to_string}
use redisclient_libary.Buffer.{RedisBuffer, size, append_bytes, append_char, append_buffer}

abbrev pub crlf : Bytes
crlf = b'\r' ∷ b'\n' ∷ []

-- The loop over the items; each round appends five pieces to `result`.
unfoldable pub append_items : Bytes → List RedisBuffer → Bytes
unfolding append_buffer size
append_items result [] = result
append_items result (item ∷ items) =
    let marked = append_char result b'$' in
    let sized = append_bytes marked (to_string (size item)) in
    let lined = append_bytes sized crlf in
    let filled = append_buffer lined item in append_items (append_bytes filled crlf) items

unfoldable pub make_command : List RedisBuffer → Bytes
unfolding append_items
make_command items =
    let marked = append_char [] b'*' in
    let sized = append_bytes marked (to_string (length items)) in
    append_items (append_bytes sized crlf) items
