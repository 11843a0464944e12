-- ===== src/Pqformat.antt =====
-- The message buffer routines that both ends of the logical decoding protocol call. The
-- program links PostgreSQL's own (dbsync/pqformat.c and dbsync/stringinfo.c are copies of it),
-- so they are a parameter: the operations, and what PostgreSQL documents of them.
use rds_dbsync.Base.{
  ℕ, zero, suc, ◌/◌, ◌%◌, ◌^◌, ◌<◌, ◌≡◌, Option, some, List, [], ◌∷◌, ◌++◌, length,
}

-- An integer of `b` bytes in network byte order, the most significant byte first.
unfoldable pub msb : ℕ → ℕ → List ℕ
msb zero i = []
msb (suc b) i = (i / 256 ^ b % 256) ∷ msb b i

-- An output buffer is the list of its bytes, an input buffer the list of the bytes that are
-- not read yet. `getmsgbyte` returns `none` for -1. A pointer into the input is what stands
-- there up to the end of the buffer, and `none` is NULL.
pub record Pqformat : Type 0 where
  pub sendbyte : List ℕ → ℕ → List ℕ
  pub sendint : List ℕ → ℕ → ℕ → List ℕ
  pub sendint64 : List ℕ → ℕ → List ℕ
  pub append_binary : List ℕ → List ℕ → List ℕ
  pub getmsgbyte : List ℕ → Option ℕ × List ℕ
  pub getmsgint : List ℕ → ℕ → ℕ × List ℕ
  pub getmsgint64 : List ℕ → ℕ × List ℕ
  pub getmsgbytes : List ℕ → ℕ → Option (List ℕ) × List ℕ
  pub sendbyte_lem : (out : List ℕ) (b : ℕ) → sendbyte out b ≡ out ++ (b % 256) ∷ []
  pub sendint_lem : (out : List ℕ) (i b : ℕ) → sendint out i b ≡ out ++ msb b i
  pub sendint64_lem : (out : List ℕ) (i : ℕ) → sendint64 out i ≡ out ++ msb 8 i
  pub append_binary_lem : (out bytes : List ℕ) → append_binary out bytes ≡ out ++ bytes
  pub getmsgbyte_lem : (b : ℕ) (rest : List ℕ) → b < 256 → getmsgbyte (b ∷ rest) ≡ (some b, rest)
  pub getmsgint-two :
      (i : ℕ) (rest : List ℕ) → i < 2 ^ 16 → getmsgint (msb 2 i ++ rest) 2 ≡ (i, rest)
  pub getmsgint-four :
      (i : ℕ) (rest : List ℕ) → i < 2 ^ 32 → getmsgint (msb 4 i ++ rest) 4 ≡ (i, rest)
  pub getmsgint64_lem :
      (i : ℕ) (rest : List ℕ) → i < 2 ^ 64 → getmsgint64 (msb 8 i ++ rest) ≡ (i, rest)
  pub getmsgbytes_lem :
      (bytes rest : List ℕ) (n : ℕ)
      → length bytes ≡ n
      → getmsgbytes (bytes ++ rest) n ≡ (some (bytes ++ rest), rest)

-- Reading from the input: the value, and the input that is left; `none` is undefined behaviour.
abbrev pub Reader {ℓ} : Type ℓ → Type ℓ
Reader A = List ℕ → Option (A × List ℕ)
