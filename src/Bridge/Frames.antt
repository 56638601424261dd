-- ===== src/Bridge/Frames.antt =====
-- crates/terratranslate-platform-linux/src/wine_bridge.rs: messages on a stream.
use terra_translate.Base.{
  ℕ, zero, suc, ◌/◌, ◌^◌, ◌≤◌, ◌<◌, [], ◌∷◌, ◌++◌, length, take, drop, ltb, Option, some, Result,
  ok, err, out_of_fuel, ok_or, map_err, ◌≡◌, refl, sym, arith, >>=-eq-ok, append_assoc,
  length-append, false,
}
use terra_translate.Model.{Bytes}
use terra_translate.Protocol.{encode, decode, to_le_bytes, max_wire_message_bytes, WireError}
use terra_translate.Protocol.Wire.{decode-encode}
use terra_translate.Bridge.Data.{wire}
use terra_translate.Bridge.Handshake.{from_le_bytes, read_exact, read_message, write_message}

take-append : (xs ys : Bytes) → take (length xs) (xs ++ ys) ≡ xs
take-append [] ys = refl
take-append (x ∷ xs) ys = rw (take-append xs ys)

drop-append : (xs ys : Bytes) → drop (length xs) (xs ++ ys) ≡ ys
drop-append [] ys = refl
drop-append (x ∷ xs) ys = drop-append xs ys

read_exact-append : (n : ℕ) (xs ys : Bytes) → n ≡ length xs → read_exact n (xs ++ ys) ≡ ok (xs, ys)
unfolding read_exact
read_exact-append n xs ys e =
    let enough : ltb (length (xs ++ ys)) (length xs) ≡ false =
      ground (arith, length-append xs ys) in
    rw e (rw enough (rw (take-append xs ys, drop-append xs ys)))

from_le_bytes-to_le_bytes : (n : ℕ) → n < 256 ^ 4 → from_le_bytes (to_le_bytes 4 n) ≡ n
unfolding from_le_bytes to_le_bytes
from_le_bytes-to_le_bytes n h = omega arith

length-to_le_bytes : (w n : ℕ) → length (to_le_bytes w n) ≡ w
unfolding to_le_bytes
length-to_le_bytes zero n = refl
length-to_le_bytes (suc w) n = omega (arith, length-to_le_bytes w (n / 256))

map_err-eq-ok :
    {E F A : Type 0} (f : E → F) (r : Result E A) {a : A} → map_err f r ≡ ok a → r ≡ ok a
map_err-eq-ok f (ok b) h = ground arith
map_err-eq-ok f (err e) h = cc
map_err-eq-ok f out_of_fuel h = cc

module _ {T : Type 0} (to_vec_named : T → Option Bytes) (from_slice : Bytes → Option T) where
  framed :
      (message : T) (bytes rest : Bytes)
      → length bytes ≤ max_wire_message_bytes
      → decode to_vec_named from_slice bytes max_wire_message_bytes ≡ ok message
      → read_message to_vec_named from_slice (to_le_bytes 4 (length bytes) ++ (bytes ++ rest))
        ≡ ok (message, rest)
  unfolding read_message
  framed message bytes rest h d =
      let size : from_le_bytes (to_le_bytes 4 (length bytes)) ≡ length bytes =
        from_le_bytes-to_le_bytes (length bytes) (omega arith) in
      let small : ltb max_wire_message_bytes (length bytes) ≡ false = ground arith in
      rw
        (read_exact-append 4 (to_le_bytes 4 (length bytes)) (bytes ++ rest)
          (sym (length-to_le_bytes 4 (length bytes))))
        (rw (size, small) (rw (read_exact-append (length bytes) bytes rest refl) (rw d refl)))

  limit :
      (message : T) (bytes : Bytes)
      → encode to_vec_named from_slice message ≡ ok bytes
      → length bytes ≤ max_wire_message_bytes
  unfolding encode
  limit message bytes h =
      let (encoded, e, r) = >>=-eq-ok (ok_or (to_vec_named message) WireError.encoding) _ h in
      ground arith

  -- What `write_message` writes is read by `read_message` as the message, whatever stands after it in
  -- the stream, which is left as it was; if rmp_serde reads back what it wrote.
  pub read_message-write_message :
      ((m : T) (b : Bytes) → to_vec_named m ≡ some b → from_slice b ≡ some m)
      → (message : T) (bytes rest : Bytes)
      → write_message to_vec_named from_slice message ≡ ok bytes
      → read_message to_vec_named from_slice (bytes ++ rest) ≡ ok (message, rest)
  unfolding write_message
  read_message-write_message reads message bytes rest h =
      let (encoded, e, finished) =
        >>=-eq-ok (map_err wire (encode to_vec_named from_slice message)) _ h in
      let (small, read) =
        decode-encode to_vec_named from_slice reads message encoded max_wire_message_bytes
          (map_err-eq-ok wire _ e) (limit message encoded (map_err-eq-ok wire _ e)) in
      let frame : bytes ≡ to_le_bytes 4 (length encoded) ++ encoded = ground arith in
      rw frame (
        rw (append_assoc (to_le_bytes 4 (length encoded)) encoded rest)
          (framed message encoded rest small read))
