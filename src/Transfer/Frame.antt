-- ===== src/Transfer/Frame.antt =====
-- `buildBinaryFrame` and the header that `handleBinary` reads
-- (web/src/composables/useFileTransfer.js).
use chat_serve.Base.{
  ℕ, ◌+◌, ◌-◌, ◌*◌, ◌/◌, ◌%◌, ◌^◌, ◌<◌, ◌≡◌, refl, List, ◌∷◌, arith, length, get_or, drop, Num, nan,
  int, pos, negsuc, nat,
}

abbrev pub Bytes : Type 0
Bytes = List ℕ

-- The conversion to an unsigned 32-bit word, as `>>> 0` and `setUint32` make it.
abbrev to_uint32 : Num → ℕ
to_uint32 nan = 0
to_uint32 (int (pos n)) = n % 2 ^ 32
to_uint32 (int (negsuc n)) = 2 ^ 32 - 1 - n % 2 ^ 32

-- `Math.floor(n / 0x100000000)`
abbrev high_word : Num → Num
high_word nan = nan
high_word (int (pos n)) = int (pos (n / 2 ^ 32))
high_word (int (negsuc n)) = int (negsuc (n / 2 ^ 32))

-- `setUint32(at, w, true)`: the low byte first
set_uint32 : ℕ → Bytes → Bytes
set_uint32 w rest = (w % 256) ∷ (w / 256 % 256) ∷ (w / 65536 % 256) ∷ (w / 16777216 % 256) ∷ rest

unfoldable pub build_binary_frame : Num → Num → Bytes → Bytes
unfolding set_uint32
build_binary_frame session_id offset buffer = set_uint32 (to_uint32 session_id) (
    set_uint32 (to_uint32 (high_word session_id)) (
      set_uint32 (to_uint32 offset) (
        set_uint32 (to_uint32 (high_word offset))
          (set_uint32 (to_uint32 (nat (length buffer))) buffer))))

-- `getUint32(at, true)`
get_uint32 : Bytes → ℕ → ℕ
get_uint32 bytes at =
    get_or bytes at 0
    + get_or bytes (at + 1) 0 * 256
    + get_or bytes (at + 2) 0 * 65536
    + get_or bytes (at + 3) 0 * 16777216

-- The session id and the offset that `handleBinary` reads from a frame.
unfoldable pub frame_session : Bytes → ℕ
unfolding get_uint32
frame_session bytes = get_uint32 bytes 0 + get_uint32 bytes 4 * 2 ^ 32

unfoldable pub frame_offset : Bytes → ℕ
unfolding get_uint32
frame_offset bytes = get_uint32 bytes 8 + get_uint32 bytes 12 * 2 ^ 32

bytes_value :
    (w : ℕ)
    → w < 2 ^ 32
    → w % 256 + w / 256 % 256 * 256 + w / 65536 % 256 * 65536 + w / 16777216 % 256 * 16777216 ≡ w
bytes_value w h = omega arith

words_value : (n : ℕ) → n < 2 ^ 64 → n % 2 ^ 32 + n / 2 ^ 32 % 2 ^ 32 * 2 ^ 32 ≡ n
words_value n h = omega arith

module _ (s o : ℕ) (buffer : Bytes) where
  pub frame_session-build :
      s < 2 ^ 64 → frame_session (build_binary_frame (nat s) (nat o) buffer) ≡ s
  unfolding build_binary_frame frame_session
  frame_session-build h =
      omega (arith, bytes_value (s % 2 ^ 32), bytes_value (s / 2 ^ 32 % 2 ^ 32), words_value s)

  pub frame_offset-build : o < 2 ^ 64 → frame_offset (build_binary_frame (nat s) (nat o) buffer) ≡ o
  unfolding build_binary_frame frame_offset
  frame_offset-build h =
      omega (arith, bytes_value (o % 2 ^ 32), bytes_value (o / 2 ^ 32 % 2 ^ 32), words_value o)

  pub drop-build : drop 20 (build_binary_frame (nat s) (nat o) buffer) ≡ buffer
  unfolding build_binary_frame
  drop-build = refl

  pub length-build : length (build_binary_frame (nat s) (nat o) buffer) ≡ 20 + length buffer
  unfolding build_binary_frame
  length-build = omega arith
