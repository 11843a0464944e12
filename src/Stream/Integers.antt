-- ===== src/Stream/Integers.antt =====
-- The integers of the streaming protocol.
use rds_dbsync.Base.{ℕ, ◌+◌, ◌*◌, ◌/◌, ◌%◌, ◌^◌, ◌<◌, ◌≡◌, refl, ap, some, List, ◌++◌, arith}
use rds_dbsync.Pqformat.{msb}
use rds_dbsync.Stream.{fe_sendint64, fe_recvint64, ntohl}

high :
    (i : ℕ)
    → i < 2 ^ 64
    → ntohl (i / 256 ^ 7 % 256) (i / 256 ^ 6 % 256) (i / 256 ^ 5 % 256) (i / 256 ^ 4 % 256)
      ≡ i / 2 ^ 32
high i h = omega arith

low :
    (i : ℕ)
    → ntohl (i / 256 ^ 3 % 256) (i / 256 ^ 2 % 256) (i / 256 ^ 1 % 256) (i / 256 ^ 0 % 256)
      ≡ i % 2 ^ 32
low i = omega arith

byte_of_high :
    (i : ℕ)
    → (i / 2 ^ 32 % 2 ^ 32 / 256 ^ 3 % 256 ≡ i / 256 ^ 7 % 256)
      × (i / 2 ^ 32 % 2 ^ 32 / 256 ^ 2 % 256 ≡ i / 256 ^ 6 % 256)
      × (i / 2 ^ 32 % 2 ^ 32 / 256 ^ 1 % 256 ≡ i / 256 ^ 5 % 256)
      × (i / 2 ^ 32 % 2 ^ 32 / 256 ^ 0 % 256 ≡ i / 256 ^ 4 % 256)
byte_of_high i = (omega arith, omega arith, omega arith, omega arith)

byte_of_low :
    (i : ℕ)
    → (i % 2 ^ 32 / 256 ^ 3 % 256 ≡ i / 256 ^ 3 % 256)
      × (i % 2 ^ 32 / 256 ^ 2 % 256 ≡ i / 256 ^ 2 % 256)
      × (i % 2 ^ 32 / 256 ^ 1 % 256 ≡ i / 256 ^ 1 % 256)
      × (i % 2 ^ 32 / 256 ^ 0 % 256 ≡ i / 256 ^ 0 % 256)
byte_of_low i = (omega arith, omega arith, omega arith, omega arith)

-- What is sent for an integer are its eight bytes, the most significant one first.
pub fe_sendint64-msb : (i : ℕ) → fe_sendint64 i ≡ msb 8 i
unfolding fe_sendint64 msb
fe_sendint64-msb i =
    let (a, b, c, d) = byte_of_high i in
    let (e, f, g, h) = byte_of_low i in rw (a, b, c, d, e, f, g, h) refl

pub fe_recvint64-msb :
    (i : ℕ) (rest : List ℕ) → i < 2 ^ 64 → fe_recvint64 (msb 8 i ++ rest) ≡ some i
unfolding fe_recvint64 msb
fe_recvint64-msb i rest h = rw (high i h, low i) (ap some (halves i))
  where
    halves : (i : ℕ) → i / 2 ^ 32 * 2 ^ 32 + i % 2 ^ 32 ≡ i
    halves i = omega arith

-- An integer of 64 bits that is sent is received again, whatever follows it.
pub fe_recvint64-fe_sendint64 :
    (i : ℕ) (rest : List ℕ) → i < 2 ^ 64 → fe_recvint64 (fe_sendint64 i ++ rest) ≡ some i
fe_recvint64-fe_sendint64 i rest h = rw (fe_sendint64-msb i) (fe_recvint64-msb i rest h)
