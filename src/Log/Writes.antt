-- ===== src/Log/Writes.antt =====
-- The loop of `out_put_decode_message` (dbsync/utils.c) that writes the buffer to the log.
use rds_dbsync.Base.{
  ℕ, zero, suc, ◌+◌, ◌-◌, ◌<◌, ◌≤◌, ◌≡◌, ◌∙◌, refl, ap, sym, Bool, true, false, some, List, [], ◌∷◌,
  ◌++◌, append_assoc, append-nil, arith, Text, codes, length, ltb, ◌==◌, if◌then◌else◌, ◌>>=◌, take,
  drop, All, Bool-cases, inl, inr,
}
use rds_dbsync.Message.{DecodeMessage}
use rds_dbsync.Quote.{Escapes}
use rds_dbsync.Log.{
  Answer, took, refused, ended, write_loop, line_feed, message_text, out_put_decode_message,
}

-- No error, and at least one byte.
abbrev pub Takes : Answer → Type 0
Takes (took n) = 0 < n
Takes refused = ⊥

take-drop : (t : ℕ) (xs : Text) → take t xs ++ drop t xs ≡ xs
take-drop zero xs = refl
take-drop (suc t) [] = refl
take-drop (suc t) (x ∷ xs) = ap (◌∷◌ x) (take-drop t xs)

drop_nil : (n : ℕ) → drop {A = ℕ} n [] ≡ []
drop_nil zero = refl
drop_nil (suc n) = refl

suc_add : (a b : ℕ) → suc a + b ≡ suc (a + b)
suc_add a b = omega arith

drop-drop : (w t : ℕ) (xs : Text) → drop (w + t) xs ≡ drop t (drop w xs)
drop-drop zero t xs = ap (λ n. drop n xs) (omega arith)
drop-drop (suc w) t [] = drop_nil (suc w + t) ∙ sym (drop_nil t)
drop-drop (suc w) t (x ∷ xs) = ap (λ n. drop n (x ∷ xs)) (suc_add w t) ∙ drop-drop w t xs

drop_all : (xs : Text) → drop (length xs) xs ≡ []
drop_all [] = refl
drop_all (x ∷ xs) = drop_all xs

-- What one write takes of the bytes that are left.
abbrev pub taken : ℕ → ℕ → ℕ
taken left n = if ltb left n then left else n

took_text :
    (file text : Text) (w t : ℕ)
    → (file ++ take t (drop w text)) ++ drop (w + t) text ≡ file ++ drop w text
took_text file text w t = rw append_assoc (
    ap (λ b. file ++ (take t (drop w text) ++ b)) (drop-drop w t text)
    ∙ ap (λ b. file ++ b) (take-drop t (drop w text)))

not_all : (w n : ℕ) → w < n → (w == n) ≡ false
not_all w n h = ground arith

all_done : (n : ℕ) → (n == n) ≡ true
all_done n = ground arith

-- Where every write takes something, the loop is left with all of the text in the file, after one
-- write for each byte at most.
write_loop-Takes :
    (text : Text) (answers : List Answer) (written : ℕ) (file : Text)
    → written ≤ length text
    → length text ≤ written + length answers
    → All Takes answers
    → (rest : List Answer) × (write_loop text answers written file
        ≡ ended (file ++ drop written text) rest)
      × All Takes rest
      × (written + length answers ≤ length text + length rest)
unfolding write_loop
write_loop-Takes text [] written file low high h =
    let e : written ≡ length text = omega arith in
    ([], rw e (rw (all_done (length text), drop_all text, append-nil) refl), tt, omega arith)
write_loop-Takes text (refused ∷ answers) written file low high (h, hs) = absurd h
write_loop-Takes text (took n ∷ answers) written file low high (h, hs) =
    elim (Bool-cases (written == length text)) [
      | inl all ↦
          let e : written ≡ length text = ground arith in
          (
            took n ∷ answers,
            rw e (rw (all_done (length text), drop_all text, append-nil) refl),
            (h, hs),
            omega arith,
          )
      | inr more ↦
          let t = taken (length text - written) n in
          let (rest, e, good, bound) =
            write_loop-Takes text answers (written + t) (file ++ take t (drop written text))
              (ground arith) (ground arith) hs in
          (
            rest,
            rw more (e ∙ ap (λ f. ended f rest) (took_text file text written t)),
            good,
            ground arith,
          )
    ]

module _ (esc : Escapes) (verbose : Bool) where
  -- Where the message has a text and every write takes at least one byte of it, one write for each
  -- byte and one more are enough: the log has the text and a line feed behind what it had.
  pub out_put_decode_message-logged :
      (msg : DecodeMessage) (text file : Text) (answers : List Answer)
      → message_text esc verbose msg ≡ some text
      → All Takes answers
      → length text < length answers
      → (rest : List Answer) × (out_put_decode_message esc verbose msg answers file
          ≡ some (ended (file ++ (text ++ codes "\n")) rest))
  unfolding out_put_decode_message
  out_put_decode_message-logged msg text file answers h good enough =
      let (rest, e, g, bound) =
        write_loop-Takes text answers 0 file (omega arith) (omega arith) good in
      let (rest', fed) = line_feed_lem (file ++ text) rest g (omega arith) in
      (
        rest',
        rw (h, ◌>>=◌)
            (ap some (
              ap line_feed e
              ∙ fed
              ∙ ap (λ f. ended f rest') (append_assoc file text (codes "\n")))),
      )
    where
      line_feed_lem :
          (f : Text) (answers : List Answer)
          → All Takes answers
          → 0 < length answers
          → (rest : List Answer) × (line_feed (ended f answers) ≡ ended (f ++ codes "\n") rest)
      line_feed_lem f [] g h = absurd (omega arith)
      line_feed_lem f (took zero ∷ rest) (g, gs) h = absurd (omega arith)
      line_feed_lem f (took (suc n) ∷ rest) g h = (rest, refl)
      line_feed_lem f (refused ∷ rest) (g, gs) h = absurd g

write_loop-took :
    (text file : Text) (n written t next : ℕ) (answers : List Answer)
    → written < length text
    → taken (length text - written) n ≡ t
    → written + t ≡ next
    → write_loop text (took n ∷ answers) written file
      ≡ write_loop text answers next (file ++ take t (drop written text))
unfolding write_loop
write_loop-took text file n written t next answers h e e' =
    rw (not_all written (length text) h, ← e', ← e) refl

write_loop-retried :
    (text file : Text) (k : ℕ) (answers : List Answer)
    → suc k < length text
    → write_loop text (refused ∷ answers) (suc k) file ≡ write_loop text answers k file
unfolding write_loop
write_loop-retried text file k answers h = rw (not_all (suc k) (length text) h) refl

taken_part : (l k : ℕ) → suc k < l → taken (l - 0) (suc k) ≡ suc k
taken_part l k h = ground arith

taken_rest : (l k : ℕ) → taken (l - k) l ≡ l - k
taken_rest l k = ground arith

drop_past : (text : Text) (k : ℕ) → k < length text → drop (k + (length text - k)) text ≡ []
drop_past text k h = ap (λ n. drop n text) (omega arith) ∙ drop_all text

-- Where a write fails behind the first bytes, and the next one takes all that it is given, the last
-- of these bytes stands in the log twice, whatever follows.
pub write_loop-refused :
    (text file : Text) (k : ℕ) (answers : List Answer)
    → suc k < length text
    → write_loop text (took (suc k) ∷ (refused ∷ (took (length text) ∷ answers))) 0 file
      ≡ write_loop text answers (length text) (file ++ (take (suc k) text ++ drop k text))
write_loop-refused text file k answers h =
    let l = length text in
    let kept = file ++ take (suc k) text in
    let whole =
      took_text kept text k (l - k) ∙ append_assoc file (take (suc k) text) (drop k text) in
    write_loop-took text file (suc k) 0 (suc k) (suc k) (refused ∷ (took l ∷ answers)) (omega arith)
      (taken_part l k h) (omega arith)
    ∙ write_loop-retried text kept k (took l ∷ answers) h
    ∙ write_loop-took text kept l k (l - k) l answers (omega arith) (taken_rest l k) (omega arith)
    ∙ ap (write_loop text answers l) (
        sym (append-nil _)
        ∙ ap (λ b. (kept ++ take (l - k) (drop k text)) ++ b) (sym (drop_past text k (omega arith)))
        ∙ whole)
