-- ===== src/Buffer.antt =====
-- src/redisclient/RedisBuffer.h: an argument of a command; and the `bufferAppend` overloads of
-- RedisClientImpl.cpp, which copy pieces to the end of a vector.
use redisclient_libary.Common.{Bytes, [], ◌∷◌, ◌++◌, ℕ, length, ◌==◌, if◌then◌else◌, take}

-- `boost::variant<std::string, std::vector<char>>`
pub data RedisBuffer : Type 0 where
  text : Bytes → RedisBuffer
  raw : Bytes → RedisBuffer

-- `RedisBuffer() = default` holds the first alternative's default.
abbrev pub default_buffer : RedisBuffer
default_buffer = text []

-- A C string ends at its first NUL.
unfoldable pub c_string : Bytes → Bytes
c_string [] = []
c_string (c ∷ cs) = let more = c_string cs in if c == 0 then [] else c ∷ more

-- The constructors: from a range, from a C string, from a string and from a vector.
abbrev pub from_range : Bytes → ℕ → RedisBuffer
from_range ptr data_size = raw (take data_size ptr)

abbrev pub from_c_string : Bytes → RedisBuffer
from_c_string s = text (c_string s)

unfoldable pub size : RedisBuffer → ℕ
size (text s) = length s
size (raw b) = length b

-- What the buffer holds.
abbrev pub content : RedisBuffer → Bytes
content (text s) = s
content (raw b) = b

-- From a `std::string`, a `std::vector<char>` or an array of fixed size.
abbrev pub append_bytes : Bytes → Bytes → Bytes
append_bytes vec s = vec ++ s

-- From a C string.
abbrev pub append_c_string : Bytes → Bytes → Bytes
append_c_string vec s = vec ++ c_string s

-- From a `char`: the vector is made longer by one and its last byte is written.
abbrev pub append_char : Bytes → ℕ → Bytes
append_char vec c = vec ++ c ∷ []

unfoldable pub append_buffer : Bytes → RedisBuffer → Bytes
append_buffer vec (text s) = append_bytes vec s
append_buffer vec (raw b) = append_bytes vec b
