-- ===== src/Examples/Buffers.antt =====
-- The buffer routines as functions on lists.
use rds_dbsync.Base.{
  ℕ, zero, suc, ◌+◌, ◌*◌, ◌/◌, ◌%◌, ◌^◌, ◌<◌, ◌≡◌, refl, Option, none, some, List, [], ◌∷◌, ◌++◌,
  ap, false, arith, length, length-append, ltb, if◌then◌else◌,
}
use rds_dbsync.Pqformat.{Pqformat, msb}

abbrev read_msb : ℕ → ℕ → List ℕ → ℕ × List ℕ
read_msb zero acc bytes = (acc, bytes)
read_msb (suc n) acc [] = (acc, [])
read_msb (suc n) acc (b ∷ bytes) = read_msb n (acc * 256 + b) bytes

abbrev drop : ℕ → List ℕ → List ℕ
drop zero bytes = bytes
drop (suc n) [] = []
drop (suc n) (b ∷ bytes) = drop n bytes

drop-append : (bytes rest : List ℕ) → drop (length bytes) (bytes ++ rest) ≡ rest
drop-append [] rest = refl
drop-append (b ∷ bytes) rest = drop-append bytes rest

abbrev read_byte : List ℕ → Option ℕ × List ℕ
read_byte [] = (none, [])
read_byte (b ∷ bytes) = (some b, bytes)

abbrev read_bytes : List ℕ → ℕ → Option (List ℕ) × List ℕ
read_bytes bytes n = if ltb (length bytes) n then (none, bytes) else (some bytes, drop n bytes)

pub read_bytes-append :
    (bytes rest : List ℕ) (n : ℕ)
    → length bytes ≡ n
    → read_bytes (bytes ++ rest) n ≡ (some (bytes ++ rest), rest)
read_bytes-append bytes rest n h =
    rw (← h, length-append bytes rest, enough (length bytes) (length rest), drop-append bytes rest)
      refl
  where
    enough : (a b : ℕ) → ltb (a + b) a ≡ false
    enough a b = ground arith

pub two : (i : ℕ) → i < 2 ^ 16 → (0 * 256 + i / 256 ^ 1 % 256) * 256 + i / 256 ^ 0 % 256 ≡ i
two i h = omega arith

pub four :
    (i : ℕ)
    → i < 2 ^ 32
    → (((0 * 256 + i / 256 ^ 3 % 256) * 256 + i / 256 ^ 2 % 256) * 256 + i / 256 ^ 1 % 256) * 256
        + i / 256 ^ 0 % 256
      ≡ i
four i h = omega arith

pub eight :
    (i : ℕ)
    → i < 2 ^ 64
    → (((((((0 * 256 + i / 256 ^ 7 % 256) * 256 + i / 256 ^ 6 % 256) * 256 + i / 256 ^ 5 % 256)
                          * 256
                        + i / 256 ^ 4 % 256)
                      * 256
                    + i / 256 ^ 3 % 256)
                  * 256
                + i / 256 ^ 2 % 256)
              * 256
            + i / 256 ^ 1 % 256)
          * 256
        + i / 256 ^ 0 % 256
      ≡ i
eight i h = omega arith

abbrev pub buffers : Pqformat
unfolding msb
buffers = record {
  sendbyte = λ out b. out ++ (b % 256) ∷ [];
  sendint = λ out i b. out ++ msb b i;
  sendint64 = λ out i. out ++ msb 8 i;
  append_binary = λ out bytes. out ++ bytes;
  getmsgbyte = read_byte;
  getmsgint = λ bytes n. read_msb n 0 bytes;
  getmsgint64 = λ bytes. read_msb 8 0 bytes;
  getmsgbytes = read_bytes;
  sendbyte_lem = λ out b. refl;
  sendint_lem = λ out i b. refl;
  sendint64_lem = λ out i. refl;
  append_binary_lem = λ out bytes. refl;
  getmsgbyte_lem = λ b rest h. refl;
  getmsgint-two = λ i rest h. ap (λ n. (n, rest)) (two i h);
  getmsgint-four = λ i rest h. ap (λ n. (n, rest)) (four i h);
  getmsgint64_lem = λ i rest h. ap (λ n. (n, rest)) (eight i h);
  getmsgbytes_lem = read_bytes-append;
}
